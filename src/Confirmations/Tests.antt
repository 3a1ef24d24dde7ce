-- ===== src/Confirmations/Tests.antt =====
-- Instances of the theorems on confirmations.
use agent_workspace.Prelude.{◌≡◌, ◌≢◌, refl, true, none, some, Text, codes, text_eq}
use agent_workspace.Confirmations.{Coordinator, new, buffer, register, resolve}
use agent_workspace.Confirmations.Delivery.{resolve_isolated}

abbrev request_a : Text
request_a = codes "a"

abbrev request_b : Text
request_b = codes "b"

abbrev one_waiting : Coordinator
one_waiting = (register new request_a).0

abbrev both_waiting : Coordinator
both_waiting = (register one_waiting request_b).0

resolve_isolated_example :
    ((register new request_a).1 ≢ (register one_waiting request_b).1)
    × ((resolve both_waiting request_b true).1 ≡ true)
    × (buffer (resolve both_waiting request_b true).0.buffers (register one_waiting request_b).1
        ≡ some (some true))
    × (buffer (resolve both_waiting request_b true).0.buffers (register new request_a).1
        ≡ some none)
    × ((resolve both_waiting request_a true).1 ≡ true)
    × (buffer (resolve both_waiting request_a true).0.buffers (register new request_a).1
        ≡ some (some true))
    × (buffer (resolve both_waiting request_a true).0.buffers (register one_waiting request_b).1
        ≡ some none)
unfolding text_eq
resolve_isolated_example = resolve_isolated new request_a request_b true refl
