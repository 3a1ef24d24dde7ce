-- ===== src/Confirmations/Delivery.antt =====
-- The first decision for a request reaches its waiter, and no other one does.
use agent_workspace.Prelude.{
  ℕ, zero, suc, ◌<◌, ◌≡◌, refl, ◌≢◌, Bool, true, false, none, some, List, [], ◌∷◌, ◌++◌, Text,
  arith, text_eq, text_eq_comm, ◌∙◌, text_eq_refl, insert, length-append, lookup-insert,
  lookup-delete, length,
}
use agent_workspace.Confirmations.{Coordinator, Buffer, buffer, send, register, unregister, resolve}

buffer-send_self :
    (bs : List Buffer) (ch : ℕ) (d : Bool)
    → buffer bs ch ≡ some none
    → buffer (send bs ch d) ch ≡ some (some d)
unfolding buffer send
buffer-send_self [] ch d h = cc
buffer-send_self (none ∷ bs) zero d h = refl
buffer-send_self (some e ∷ bs) zero d h = cc
buffer-send_self (none ∷ bs) (suc ch) d h = buffer-send_self bs ch d h
buffer-send_self (some e ∷ bs) (suc ch) d h = buffer-send_self bs ch d h

buffer-send_ne :
    (bs : List Buffer) (ch other : ℕ) (d : Bool)
    → ch ≢ other
    → buffer (send bs ch d) other ≡ buffer bs other
unfolding buffer send
buffer-send_ne [] ch other d n = refl
buffer-send_ne (b ∷ bs) zero zero d n = absurd (n refl)
buffer-send_ne (none ∷ bs) zero (suc other) d n = refl
buffer-send_ne (some e ∷ bs) zero (suc other) d n = refl
buffer-send_ne (none ∷ bs) (suc ch) zero d n = refl
buffer-send_ne (some e ∷ bs) (suc ch) zero d n = refl
buffer-send_ne (none ∷ bs) (suc ch) (suc other) d n = buffer-send_ne bs ch other d (omega arith)
buffer-send_ne (some e ∷ bs) (suc ch) (suc other) d n = buffer-send_ne bs ch other d (omega arith)

send_full :
    (bs : List Buffer) (ch : ℕ) (d e : Bool) → buffer bs ch ≡ some (some e) → send bs ch d ≡ bs
unfolding buffer send
send_full [] ch d e h = refl
send_full (none ∷ bs) zero d e h = cc
send_full (some x ∷ bs) zero d e h = refl
send_full (none ∷ bs) (suc ch) d e h = rw (send_full bs ch d e h)
send_full (some x ∷ bs) (suc ch) d e h = rw (send_full bs ch d e h)

buffer_fresh : (bs : List Buffer) → buffer (bs ++ none ∷ []) (length bs) ≡ some none
unfolding buffer
buffer_fresh [] = refl
buffer_fresh (b ∷ bs) = buffer_fresh bs

-- After a request is registered and no decision has come, the first `Resolve` for its id succeeds and
-- leaves its decision in the request's channel; a second one also reports success and changes nothing.
pub resolve_first :
    (c : Coordinator) (id : Text) (first second : Bool)
    → (buffer (resolve (register c id).0 id first).0.buffers (register c id).1 ≡ some (some first))
      × ((resolve (register c id).0 id first).1 ≡ true)
      × (resolve (resolve (register c id).0 id first).0 id second
          ≡ ((resolve (register c id).0 id first).0, true))
unfolding resolve register
resolve_first c id first second =
    let ch = length c.buffers in
    let made = c.buffers ++ none ∷ [] in
    let full = buffer-send_self made ch first (buffer_fresh c.buffers) in
    ground (
      arith,
      lookup-insert id id ch c.pending,
      text_eq_refl id,
      full,
      send_full (send made ch first) ch second first full,
    )

buffer-append :
    (bs : List Buffer) (ch : ℕ) (b : Buffer)
    → ch < length bs
    → buffer (bs ++ b ∷ []) ch ≡ buffer bs ch
unfolding buffer
buffer-append [] ch b h = elim h [ ]
buffer-append (x ∷ bs) zero b h = refl
buffer-append (x ∷ bs) (suc ch) b h = buffer-append bs ch b (omega arith)

-- Two requests that are registered one after the other under different ids have different channels, and
-- resolving either id reports true, puts the decision into that request's channel and leaves the other's
-- channel empty.
pub resolve_isolated :
    (c : Coordinator) (id other : Text) (approved : Bool)
    → text_eq id other ≡ false
    → ((register c id).1 ≢ (register (register c id).0 other).1)
      × ((resolve (register (register c id).0 other).0 other approved).1 ≡ true)
      × (buffer
            (resolve (register (register c id).0 other).0 other approved).0.buffers
            (register (register c id).0 other).1
          ≡ some (some approved))
      × (buffer
            (resolve (register (register c id).0 other).0 other approved).0.buffers
            (register c id).1
          ≡ some none)
      × ((resolve (register (register c id).0 other).0 id approved).1 ≡ true)
      × (buffer
            (resolve (register (register c id).0 other).0 id approved).0.buffers
            (register c id).1
          ≡ some (some approved))
      × (buffer
            (resolve (register (register c id).0 other).0 id approved).0.buffers
            (register (register c id).0 other).1
          ≡ some none)
unfolding resolve register
resolve_isolated c id other approved ne =
    let ch = length c.buffers in
    let made = c.buffers ++ none ∷ [] in
    let grown : length made ≡ suc ch = omega (arith, length-append c.buffers (none ∷ [])) in
    let later = lookup-insert other other (length made) (insert id ch c.pending) in
    let between = lookup-insert other id (length made) (insert id ch c.pending) in
    let earlier = lookup-insert id id ch c.pending in
    let empty : buffer (made ++ none ∷ []) ch ≡ some none =
      buffer-append made ch none (omega (arith, grown)) ∙ buffer_fresh c.buffers in
    let apart : text_eq other id ≡ false = text_eq_comm other id ∙ ne in
    (
      omega (arith, grown),
      ground (arith, later, text_eq_refl other),
      ground (
        arith,
        later,
        text_eq_refl other,
        buffer-send_self (made ++ none ∷ []) (length made) approved (buffer_fresh made),
      ),
      ground (
        arith,
        later,
        text_eq_refl other,
        buffer-send_ne (made ++ none ∷ []) (length made) ch approved (omega (arith, grown)),
        empty,
      ),
      ground (arith, between, apart, earlier, text_eq_refl id),
      ground (
        arith,
        between,
        apart,
        earlier,
        text_eq_refl id,
        buffer-send_self (made ++ none ∷ []) ch approved empty,
      ),
      ground (
        arith,
        between,
        apart,
        earlier,
        text_eq_refl id,
        buffer-send_ne (made ++ none ∷ []) ch (length made) approved (omega (arith, grown)),
        buffer_fresh made,
      ),
    )

-- Once a request is unregistered, resolving its id reports false and changes nothing, and another id is
-- answered and delivered as before.
pub resolve-unregister :
    (c : Coordinator) (id other : Text) (approved : Bool)
    → text_eq id other ≡ false
    → (resolve (unregister c id) id approved ≡ (unregister c id, false))
      × ((resolve (unregister c id) other approved).1 ≡ (resolve c other approved).1)
      × ((resolve (unregister c id) other approved).0.buffers
          ≡ (resolve c other approved).0.buffers)
unfolding resolve unregister
resolve-unregister c id other approved ne =
    let gone = lookup-delete id id c.pending in
    let same = lookup-delete id other c.pending in
    (ground (arith, gone, text_eq_refl id), ground (arith, same), ground (arith, same))
