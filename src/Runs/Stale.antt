-- ===== src/Runs/Stale.antt =====
-- One run per chat, and a stopped run cannot end or silence a newer one.
use agent_workspace.Prelude.{
  ℕ, ◌+◌, ◌%◌, ◌<◌, ◌≡◌, ◌≢◌, true, false, not, ◌&&◌, ◌||◌, Option, List, Text, arith, text_eq,
  text_eq_refl, insert, size, has_key, lookup-insert, lookup-delete, size-delete, if◌then◌else◌,
  Result, ok, err, length, inl, inr, Bool-cases, ◌⊎◌, sym, ap, ◌∙◌, ok-injective,
}
use agent_workspace.Runs.{
  ChatRunState, Coordinator, RunError, chat_already_running, int64_mod, begin_run, end_run, stop,
  is_running, active_count, holds, set_streaming_run, clear_streaming_run, Call, run,
}
use agent_workspace.Runs.Tokens.{Inv, Room, run_seq_le}

module _ {C : Type 0} where
  -- what `BeginRun` leaves for an idle chat
  abbrev begun : Coordinator C → Text → Option C → Coordinator C
  begun c chat_id cancel =
      let seq = (c.run_seq + 1) % int64_mod in
      record c {
        runs = insert chat_id (record { cancel = cancel; token = seq }) c.runs;
        run_seq = seq;
      }

  begin_run_idle :
      (c : Coordinator C) (chat_id : Text) (cancel : Option C)
      → has_key chat_id c.runs ≡ false
      → begin_run c chat_id cancel ≡ (begun c chat_id cancel, ok ((c.run_seq + 1) % int64_mod))
  unfolding begin_run
  begin_run_idle c chat_id cancel h = rw h

  begin_run_busy :
      (c : Coordinator C) (chat_id : Text) (cancel : Option C)
      → has_key chat_id c.runs ≡ true
      → begin_run c chat_id cancel ≡ (c, err chat_already_running)
  unfolding begin_run
  begin_run_busy c chat_id cancel h = rw h

  holds-begun :
      (c : Coordinator C) (chat_id : Text) (cancel : Option C)
      → (holds (begun c chat_id cancel).runs chat_id ((c.run_seq + 1) % int64_mod) ≡ true)
        × (is_running (begun c chat_id cancel) chat_id ≡ true)
  unfolding holds is_running has_key
  holds-begun c chat_id cancel =
      let new_state : ChatRunState C = record {
        cancel = cancel;
        token = (c.run_seq + 1) % int64_mod;
      } in
      ground (arith, lookup-insert chat_id chat_id new_state c.runs, text_eq_refl chat_id)

  has_key-begun :
      (c : Coordinator C) (chat_id other : Text) (cancel : Option C)
      → has_key other (begun c chat_id cancel).runs
        ≡ (text_eq chat_id other || has_key other c.runs)
  unfolding has_key
  has_key-begun c chat_id other cancel = ground (
    arith,
    lookup-insert chat_id other (record { cancel = cancel; token = (c.run_seq + 1) % int64_mod })
        c.runs,
  )

  size-begun :
      (c : Coordinator C) (chat_id : Text) (cancel : Option C)
      → Inv c
      → has_key chat_id c.runs ≡ false
      → size (begun c chat_id cancel).runs ≡ size c.runs + 1
  unfolding insert size
  size-begun c chat_id cancel inv h = ground (arith, size-delete chat_id c.runs inv.dict)

  -- Beginning a run on a chat that has one in flight is refused and changes nothing; on an idle chat it
  -- succeeds, that chat is then running, any other chat is as it was, and the number of running
  -- chats grows by one.
  pub begin_run_exclusive :
      (c : Coordinator C) (chat_id other : Text) (cancel : Option C)
      → Inv c
      → ((is_running c chat_id ≡ true)
          × (begin_run c chat_id cancel ≡ (c, err chat_already_running)))
        ⊎ ((is_running c chat_id ≡ false)
            × ((token : ℕ) × ((begin_run c chat_id cancel).1 ≡ ok token))
            × (is_running (begin_run c chat_id cancel).0 other
                ≡ (text_eq chat_id other || is_running c other))
            × (active_count (begin_run c chat_id cancel).0 ≡ active_count c + 1))
  unfolding is_running active_count
  begin_run_exclusive c chat_id other cancel inv = elim (Bool-cases (has_key chat_id c.runs)) [
    | inl busy ↦ inl (busy, begin_run_busy c chat_id cancel busy)
    | inr idle ↦ inr (
      idle,
      (((c.run_seq + 1) % int64_mod), rw (begin_run_idle c chat_id cancel idle)),
      rw (begin_run_idle c chat_id cancel idle) (has_key-begun c chat_id other cancel),
      rw (begin_run_idle c chat_id cancel idle) (size-begun c chat_id cancel inv idle),
    )
  ]

  -- Stopping a chat leaves it idle and any other chat as it was, and lowers the number of running chats
  -- by one exactly if the chat was running.
  pub stop_lem :
      (c : Coordinator C) (chat_id other : Text)
      → Inv c
      → (is_running (stop c chat_id).0 other ≡ (not (text_eq chat_id other) && is_running c other))
        × (active_count c
            ≡ active_count (stop c chat_id).0 + (if is_running c chat_id then 1 else 0))
  unfolding stop
  stop_lem c chat_id other inv = (
    unfold is_running has_key in ground (arith, lookup-delete chat_id other c.runs),
    unfold is_running active_count in size-delete chat_id c.runs inv.dict,
  )

  -- Stopping a chat whose run was begun with a cancel function calls that function, whatever other
  -- chat was stopped in between.
  pub stop-begin_run :
      (c : Coordinator C) (chat_id other : Text) (cancel : Option C)
      → is_running c chat_id ≡ false
      → text_eq other chat_id ≡ false
      → (stop (stop (begin_run c chat_id cancel).0 other).0 chat_id).1 ≡ cancel
  unfolding is_running
  stop-begin_run c chat_id other cancel idle ne =
      let new_state : ChatRunState C = record {
        cancel = cancel;
        token = (c.run_seq + 1) % int64_mod;
      } in
      rw (begin_run_idle c chat_id cancel idle) (
        unfold stop in
        ground (
          arith,
          lookup-insert chat_id chat_id new_state c.runs,
          lookup-delete other chat_id (insert chat_id new_state c.runs),
          text_eq_refl chat_id,
        ))

  end_run_stale :
      (c : Coordinator C) (chat_id : Text) (old new : ℕ)
      → 0 < old
      → old ≢ new
      → holds c.runs chat_id new ≡ true
      → end_run c chat_id old ≡ c
  unfolding end_run holds
  end_run_stale c chat_id old new positive differ held = ground arith

  issued_of_begin :
      (c d : Coordinator C) (chat_id : Text) (cancel : Option C) (token : ℕ)
      → begin_run c chat_id cancel ≡ (d, ok token)
      → Room c
      → (token ≡ c.run_seq + 1)
        × (d.run_seq ≡ token)
        × (holds d.runs chat_id token ≡ true)
        × (is_running d chat_id ≡ true)
  issued_of_begin c d chat_id cancel token h room = elim (Bool-cases (has_key chat_id c.runs)) [
    | inl busy ↦ absurd (refused busy h)
    | inr idle ↦ began (sym (begin_run_idle c chat_id cancel idle) ∙ h)
  ]
    where
      not_refused : ◌≡◌ {A = Result RunError ℕ} (err chat_already_running) (ok token) → ⊥
      not_refused e = cc

      refused : has_key chat_id c.runs ≡ true → begin_run c chat_id cancel ≡ (d, ok token) → ⊥
      refused busy e = not_refused (ap (λ p. p.1) (sym (begin_run_busy c chat_id cancel busy) ∙ e))

      began :
          ◌≡◌ {A = Coordinator C × Result RunError ℕ}
            (begun c chat_id cancel, ok ((c.run_seq + 1) % int64_mod))
            (d, ok token)
          → (token ≡ c.run_seq + 1)
            × (d.run_seq ≡ token)
            × (holds d.runs chat_id token ≡ true)
            × (is_running d chat_id ≡ true)
      began e =
          let token_eq : (c.run_seq + 1) % int64_mod ≡ token = ok-injective (ap (λ p. p.1) e) in
          let d_eq : begun c chat_id cancel ≡ d = ap (λ p. p.0) e in
          let (held, running) = holds-begun c chat_id cancel in
          (omega arith, rw (← d_eq) token_eq, rw (← d_eq, ← token_eq) held, rw (← d_eq) running)

  -- Take a run that was begun on a chat, any further calls, and a later run that was begun on the same
  -- chat. As long as the sequence does not wrap, the old token differs from the new one, ending the
  -- run by the old token changes nothing, the new run is still in flight, and clearing the streaming
  -- side channel by the old token leaves it with the new run.
  pub stale_run_harmless :
      (c c1 c2 : Coordinator C) (chat_id : Text) (cancel1 cancel2 : Option C) (old new : ℕ)
      (xs : List (Call C))
      → begin_run c chat_id cancel1 ≡ (c1, ok old)
      → begin_run (run c1 xs) chat_id cancel2 ≡ (c2, ok new)
      → c.run_seq + length xs + 2 < int64_mod
      → (old ≢ new)
        × (end_run c2 chat_id old ≡ c2)
        × (is_running c2 chat_id ≡ true)
        × (clear_streaming_run (set_streaming_run c2 chat_id new) old
            ≡ set_streaming_run c2 chat_id new)
  stale_run_harmless c c1 c2 chat_id cancel1 cancel2 old new xs first second room =
      let (old_eq, seq_eq, _, _) = issued_of_begin c c1 chat_id cancel1 old first (omega arith) in
      let grown = run_seq_le c1 xs (omega arith) in
      let (new_eq, _, held, running) =
        issued_of_begin (run c1 xs) c2 chat_id cancel2 new second (omega (arith, grown)) in
      let differ : old ≢ new = omega (arith, grown) in
      (
        differ,
        end_run_stale c2 chat_id old new (omega arith) differ held,
        running,
        unfold clear_streaming_run set_streaming_run in ground arith,
      )
