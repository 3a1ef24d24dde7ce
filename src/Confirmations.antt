-- ===== src/Confirmations.antt =====
-- internal/application/confirmation_coordinator.go: tool confirmations that wait for the user. The
-- channels stand in a store, since the coordinator and a waiter share one: `buffers` gives the decision
-- that waits in a channel's buffer of one, and the number of a channel is the order of its making.
pub mod Delivery
mod Tests
use agent_workspace.Prelude.{
  ℕ, zero, suc, ◌+◌, Bool, true, false, Option, none, some, List, [], ◌∷◌, ◌++◌, Text, Dict, lookup,
  insert, delete, length, if◌then◌else◌,
}

-- an empty buffer, or one that holds a decision
abbrev pub Buffer : Type 0
Buffer = Option Bool

pub record Coordinator : Type 0 where
  pub pending : Dict ℕ
  pub buffers : List Buffer

abbrev pub new : Coordinator
new = record { pending = []; buffers = [] }

-- the buffer of a channel that was made
unfoldable pub buffer : List Buffer → ℕ → Option Buffer
buffer [] ch = none
buffer (b ∷ bs) zero = some b
buffer (b ∷ bs) (suc ch) = buffer bs ch

-- a send that does not block: a full buffer stays as it is
unfoldable pub send : List Buffer → ℕ → Bool → List Buffer
send [] ch approved = []
send (none ∷ bs) zero approved = some approved ∷ bs
send (some d ∷ bs) zero approved = some d ∷ bs
send (b ∷ bs) (suc ch) approved = b ∷ send bs ch approved

unfoldable pub register : Coordinator → Text → Coordinator × ℕ
unfolding insert
register c id =
    let ch = length c.buffers in
    (record { pending = insert id ch c.pending; buffers = c.buffers ++ none ∷ [] }, ch)

unfoldable pub unregister : Coordinator → Text → Coordinator
unfolding delete
unregister c id = record c { pending = delete id c.pending }

unfoldable pub resolve : Coordinator → Text → Bool → Coordinator × Bool
unfolding lookup send
resolve c id approved = elim (lookup id c.pending) [
  | none ↦ (c, false)
  | some ch ↦ (record c { buffers = send c.buffers ch approved }, true)
]
