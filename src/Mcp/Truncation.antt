-- ===== src/Mcp/Truncation.antt =====
-- The bound on what a remote server returns, `TruncateMcpText` of internal/domain/mcp_connection.go.
use agent_workspace.Prelude.{
  ℕ, zero, suc, ◌+◌, ◌≡◌, ◌≤◌, ◌<◌, ◌⊎◌, inl, inr, refl, sym, ap, ◌∙◌, subst, true, false, ◌||◌,
  List, [], ◌∷◌, ◌++◌, arith, length, length-append, take, leb, if◌then◌else◌, pos, Bool-cases,
}
use agent_workspace.Mcp.{byte_at, is_continuation, back_up, truncated_mark, truncate_mcp_text}

back_up_below : (s : List ℕ) (cut : ℕ) → back_up s cut ≤ cut
unfolding back_up
back_up_below s zero = omega arith
back_up_below s (suc cut) = ground (arith, back_up_below s cut)

back_up_boundary :
    (s : List ℕ) (cut : ℕ)
    → (back_up s cut ≡ 0) ⊎ (is_continuation (byte_at s (back_up s cut)) ≡ false)
back_up_boundary s zero = inl (unfold back_up in refl)
back_up_boundary s (suc cut) = elim (Bool-cases (is_continuation (byte_at s (suc cut)))) [
  | inl inside ↦
      let went : back_up s (suc cut) ≡ back_up s cut = back_up_lem ∙ rw inside in
      subst (λ c. (c ≡ 0) ⊎ (is_continuation (byte_at s c) ≡ false)) (sym went)
        (back_up_boundary s cut)
  | inr outside ↦
      let stopped : back_up s (suc cut) ≡ suc cut = back_up_lem ∙ rw outside in
      inr (ap (λ c. is_continuation (byte_at s c)) stopped ∙ outside)
]
  where
    back_up_lem :
        back_up s (suc cut)
        ≡ (if is_continuation (byte_at s (suc cut)) then back_up s cut else suc cut)
    back_up_lem = unfold back_up in refl

length-take : (n : ℕ) (s : List ℕ) → length (take n s) ≤ n
length-take zero s = omega arith
length-take (suc n) [] = omega arith
length-take (suc n) (x ∷ xs) = omega (arith, length-take n xs)

-- A text that is over a positive cap is cut within the cap, where no rune is cut in two, and the mark is put
-- behind; the result is at most the mark's 14 bytes over the cap.
pub truncate_mcp_text_lem :
    (s : List ℕ) (max_bytes : ℕ)
    → 1 ≤ max_bytes
    → max_bytes < length s
    → (cut : ℕ) × (truncate_mcp_text s (pos max_bytes) ≡ (take cut s ++ truncated_mark, true))
      × (cut ≤ max_bytes)
      × ((cut ≡ 0) ⊎ (is_continuation (byte_at s cut) ≡ false))
      × (length (truncate_mcp_text s (pos max_bytes)).0 ≤ max_bytes + 14)
truncate_mcp_text_lem s max_bytes positive over = (
  back_up s max_bytes,
  cut,
  back_up_below s max_bytes,
  back_up_boundary s max_bytes,
  subst (λ r. length r.0 ≤ max_bytes + 14) (sym cut)
      (omega (
        arith,
        length-append (take (back_up s max_bytes) s) truncated_mark,
        length-take (back_up s max_bytes) s,
        back_up_below s max_bytes,
      )),
)
  where
    long : (leb max_bytes 0 || leb (length s) max_bytes) ≡ false
    long = ground arith

    opened : truncate_mcp_text s (pos max_bytes) ≡ (
        if leb max_bytes 0 || leb (length s) max_bytes
        then (s, false)
        else (take (back_up s max_bytes) s ++ truncated_mark, true))
    opened = unfold truncate_mcp_text in refl

    cut :
        truncate_mcp_text s (pos max_bytes) ≡ (take (back_up s max_bytes) s ++ truncated_mark, true)
    cut = opened ∙ rw long
