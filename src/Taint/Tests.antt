-- ===== src/Taint/Tests.antt =====
-- A turn that reads a suspicious page, and instances of the theorems there.
use agent_workspace.Prelude.{
  ℕ, ◌≡◌, ◌⊎◌, refl, arith, Bool, true, false, Option, none, some, List, [], ◌∷◌, Text, codes,
  length, distinct, some_of, Result, ok, err, text_eq,
}
use agent_workspace.Taint.{ExternalContentSafety, ExternalContentResult, no_safety}
use agent_workspace.Taint.Turns.{taint_of, record_all}
use agent_workspace.Taint.Lattice.{
  contamination, join, worst_alarming, taints_scope, record_all_refines,
}
use agent_workspace.Taint.Origins.{IsBounded, record_all-IsBounded}
use agent_workspace.Taint.Guard.{
  ActionCall, Confirming, typed, require_external_action_guard, Approved, has_external_approval,
  approval_key, guard_tainted,
}

abbrev same_rune : ℕ → ℕ
same_rune c = c

abbrev turn : Text
turn = codes "chat-1"

abbrev page : ExternalContentSafety
page = record {
  source_type = codes "web";
  origin = codes "example.org";
  trust = codes "external_untrusted";
  untrusted = true;
  risk_level = codes " High ";
  suspicious = false;
  warnings = [];
  notice = [];
}

abbrev readings : List (Text × ExternalContentSafety)
readings = (codes "chat-2", no_safety) ∷ (turn, page) ∷ []

abbrev scan : Text → Text → ExternalContentResult
scan origin content = record {
  body_clean = content;
  char_count = length content;
  truncated = false;
  warnings = [];
  suspicious = false;
  risk_level = [];
  source_type = [];
  origin = origin;
  trust = [];
  untrusted = false;
  notice = [];
}

-- the model echoes that all is well
abbrev call : ActionCall
call = record {
  scope = turn;
  tool = codes "shell.exec";
  kind = codes "execute";
  echoed = typed no_safety ∷ [];
  args_text = codes "ls";
}

abbrev asking : Option (Result Text Bool) → Confirming
asking answer = record {
  module_policy = codes "permit_list";
  confirm = answer;
  auto_approve = false;
}

-- Without a yes, the action is refused after the page, and passes before it.
guard_run :
    ((require_external_action_guard same_rune scan [] [] call (asking none)).0 ≡ ok tt)
    × ((require_external_action_guard same_rune scan
          (record_all same_rune [] readings)
          []
          call
          (asking none)).0
        ≡ err (codes "action was not approved by the user"))
unfolding require_external_action_guard record_all
guard_run = (refl, refl)

page_seen : some_of (taints_scope same_rune turn) readings ≡ true
unfolding some_of taints_scope
page_seen = refl

passes :
    (require_external_action_guard same_rune scan
      (record_all same_rune [] readings)
      []
      call
      (asking (some (ok true)))).0
    ≡ ok tt
unfolding require_external_action_guard record_all
passes = refl

guard_tainted_example :
    (has_external_approval [] (approval_key same_rune scan (record_all same_rune [] readings) call)
      ≡ true)
    ⊎ Approved (asking (some (ok true)))
guard_tainted_example =
    guard_tainted same_rune scan [] readings [] call (asking (some (ok true))) page_seen
      (unfold text_eq in refl) passes

record_all_refines_example :
    contamination same_rune (taint_of (record_all same_rune [] readings) turn)
    ≡ join (contamination same_rune (taint_of [] turn)) (worst_alarming same_rune turn readings)
record_all_refines_example = record_all_refines same_rune [] readings turn

no_origins : (u : Text) → IsBounded (taint_of [] u).origins
unfolding taint_of distinct
no_origins u = (omega arith, refl)

record_all-IsBounded_example : IsBounded (taint_of (record_all same_rune [] readings) turn).origins
record_all-IsBounded_example = record_all-IsBounded same_rune [] readings turn no_origins
