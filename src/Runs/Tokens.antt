-- ===== src/Runs/Tokens.antt =====
-- What holds of a coordinator between two calls, and how calls change the set of running chats.
use agent_workspace.Prelude.{
  ◌+◌, ◌%◌, ◌≤◌, ◌<◌, ◌≡◌, true, not, ◌&&◌, ◌||◌, Option, some, List, [], ◌∷◌, Text, arith, text_eq,
  text_eq_iff, IsDict, lookup, insert, delete, has_key, lookup-insert, lookup-delete, insert-IsDict,
  delete-IsDict, ◌==◌, length, inl, inr, Bool-cases,
}
use agent_workspace.Runs.{
  ChatRunState, Coordinator, int64_mod, new, begin_run, holds, Call, begins, ends, stops, streams,
  unstreams, step, run,
}

module _ {C : Type 0} where
  -- the token of a run in flight has been issued, and no other chat's run has it
  pub record Inv (c : Coordinator C) : Type 0 where
    pub dict : IsDict c.runs
    pub issued :
        (k : Text) (s : ChatRunState C)
        → lookup k c.runs ≡ some s
        → (0 < s.token) × (s.token ≤ c.run_seq)
    pub unique :
        (k j : Text) (s t : ChatRunState C)
        → lookup k c.runs ≡ some s
        → lookup j c.runs ≡ some t
        → s.token ≡ t.token
        → text_eq k j ≡ true

  pub new-Inv : Inv new
  unfolding lookup
  new-Inv = record { dict = tt; issued = λ k s h. cc; unique = λ k j s t h. cc }

  -- a call that begins a run does not wrap the sequence number
  abbrev pub Room : Coordinator C → Type 0
  Room c = c.run_seq + 1 < int64_mod

  insert-Inv :
      (c : Coordinator C) (chat_id : Text) (cancel : Option C)
      → Room c
      → Inv c
      → Inv (record c {
        runs =
            insert chat_id (record { cancel = cancel; token = (c.run_seq + 1) % int64_mod }) c.runs;
        run_seq = (c.run_seq + 1) % int64_mod;
      })
  insert-Inv c chat_id cancel room inv =
      let new_state : ChatRunState C = record {
        cancel = cancel;
        token = (c.run_seq + 1) % int64_mod;
      } in
      record {
        dict = insert-IsDict chat_id new_state c.runs inv.dict;
        issued = λ k s h. ground (arith, lookup-insert chat_id k new_state c.runs, inv.issued k s);
        unique = λ k j s t h g e. ground (
          arith,
          lookup-insert chat_id k new_state c.runs,
          lookup-insert chat_id j new_state c.runs,
          inv.unique k j s t,
          inv.issued k s,
          inv.issued j t,
          text_eq_iff k j,
          text_eq_iff chat_id k,
          text_eq_iff chat_id j,
        );
      }

  begin_run-Inv :
      (c : Coordinator C) (chat_id : Text) (cancel : Option C)
      → Room c
      → Inv c
      → Inv (begin_run c chat_id cancel).0
  unfolding begin_run
  begin_run-Inv c chat_id cancel room inv = elim (Bool-cases (has_key chat_id c.runs)) [
    | inl busy ↦ rw busy inv
    | inr idle ↦ rw idle (insert-Inv c chat_id cancel room inv)
  ]

  delete-Inv :
      (c : Coordinator C) (chat_id : Text) → Inv c → Inv (record c { runs = delete chat_id c.runs })
  delete-Inv c chat_id inv = record {
    dict = delete-IsDict chat_id c.runs inv.dict;
    issued = λ k s h. ground (arith, lookup-delete chat_id k c.runs, inv.issued k s);
    unique = λ k j s t h g e.
        ground (
          arith,
          lookup-delete chat_id k c.runs,
          lookup-delete chat_id j c.runs,
          inv.unique k j s t,
        );
  }

  step-Inv : (c : Coordinator C) (x : Call C) → Room c → Inv c → Inv (step c x)
  unfolding step
  step-Inv c (begins chat_id cancel) room inv = begin_run-Inv c chat_id cancel room inv
  step-Inv c (ends chat_id token) room inv =
      elim (Bool-cases (not (token == 0) && not (holds c.runs chat_id token))) [
        | inl kept ↦ rw kept inv
        | inr gone ↦ rw gone (delete-Inv c chat_id inv)
      ]
  step-Inv c (stops chat_id) room inv = delete-Inv c chat_id inv
  step-Inv c (streams chat_id token) room inv = record {
    dict = inv.dict;
    issued = inv.issued;
    unique = inv.unique;
  }
  step-Inv c (unstreams token) room inv =
      elim (Bool-cases (token == 0 || c.stream_token == token)) [
        | inl t ↦ rw t (record { dict = inv.dict; issued = inv.issued; unique = inv.unique })
        | inr f ↦ rw f inv
      ]

  -- a call issues at most one token
  pub step_seq :
      (c : Coordinator C) (x : Call C)
      → Room c
      → (c.run_seq ≤ (step c x).run_seq) × ((step c x).run_seq ≤ c.run_seq + 1)
  unfolding step
  step_seq c (begins chat_id cancel) room = ground arith
  step_seq c (ends chat_id token) room = ground arith
  step_seq c (stops chat_id) room = ground arith
  step_seq c (streams chat_id token) room = ground arith
  step_seq c (unstreams token) room = ground arith

  -- the calls cannot wrap the sequence number
  abbrev pub RoomFor : Coordinator C → List (Call C) → Type 0
  RoomFor c xs = c.run_seq + length xs < int64_mod

  pub run_seq_le :
      (c : Coordinator C) (xs : List (Call C))
      → RoomFor c xs
      → (c.run_seq ≤ (run c xs).run_seq) × ((run c xs).run_seq ≤ c.run_seq + length xs)
  unfolding run
  run_seq_le c [] room = omega arith
  run_seq_le c (x ∷ xs) room =
      let bounds = step_seq c x (omega arith) in
      let rest = run_seq_le (step c x) xs (omega (arith, bounds)) in omega (arith, bounds, rest)

  -- Whatever calls are made, as long as the 64-bit sequence does not wrap: the tokens of the runs in
  -- flight have been issued and are not 0, and no two chats' runs have the same token.
  pub run-Inv : (c : Coordinator C) (xs : List (Call C)) → RoomFor c xs → Inv c → Inv (run c xs)
  unfolding run
  run-Inv c [] room inv = inv
  run-Inv c (x ∷ xs) room inv =
      run-Inv (step c x) xs (omega (arith, step_seq c x (omega arith)))
        (step-Inv c x (omega arith) inv)
