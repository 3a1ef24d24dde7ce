-- ===== src/History/Summaries.antt =====
-- What a compaction keeps, `CompactChatHistory` of internal/application/chat_compaction.go.
use agent_workspace.Prelude.{
  ℕ, zero, suc, ◌+◌, ◌-◌, ◌%◌, ◌==◌, ◌≡◌, ◌≤◌, ◌⊎◌, inl, inr, refl, sym, ap, ◌∙◌, subst, true, ◌&&◌,
  [], ◌∷◌, ◌++◌, Text, arith, length, take, trim_space, trim_left, trim_right, ltb, leb,
  if◌then◌else◌, ℤ, pos, negsuc, sub_ℕ, Bool-cases, length-append, codes,
}
use agent_workspace.History.Compaction.{
  limit_or, make_even, compact_recent_count, trim_char_left, trim_char_right,
  sanitize_compact_summary,
}

limit_or_positive : (default : ℕ) (n : ℤ) → 1 ≤ default → 1 ≤ limit_or default n
unfolding limit_or
limit_or_positive default (pos n) h = ground arith
limit_or_positive default (negsuc n) h = h

make_even_lem :
    (k : ℕ) → 1 ≤ k → (r : ℕ) × (make_even (pos k) ≡ pos r) × (r ≤ k) × ((r % 2 ≡ 0) ⊎ (r ≡ 1))
make_even_lem k h = elim (Bool-cases (ltb 2 k && k % 2 == 1)) [
  | inl odd ↦
      let less : make_even (pos k) ≡ pos (k - 1) = opened ∙ rw odd in
      (k - 1, less, omega arith, ground arith)
  | inr even ↦
      let same : make_even (pos k) ≡ pos k = opened ∙ rw even in
      (k, same, omega arith, ground arith)
]
  where
    opened : make_even (pos k) ≡ (if ltb 2 k && k % 2 == 1 then pos (k - 1) else pos k)
    opened = unfold make_even in refl

wanted_count :
    (n recent : ℕ)
    → 4 ≤ n
    → 1 ≤ recent
    → (k : ℕ) × ((if ltb n (recent + 2) then sub_ℕ n 2 else pos recent) ≡ pos k)
      × (1 ≤ k)
      × (k + 2 ≤ n)
wanted_count n recent enough positive = elim (Bool-cases (ltb n (recent + 2))) [
  | inl short ↦
      let two : leb 2 n ≡ true = ground arith in (n - 2, rw (short, two), omega arith, omega arith)
  | inr long ↦ (recent, rw long, positive, ground arith)
]

-- Of a conversation of at least 4 messages, a count is kept, whatever is asked for, that leaves at least 2
-- messages to summarize; it is even, or 1.
pub compact_recent_count_lem :
    (n : ℕ) (requested : ℤ)
    → 4 ≤ n
    → (r : ℕ) × (compact_recent_count n requested ≡ pos r) × (r + 2 ≤ n) × ((r % 2 ≡ 0) ⊎ (r ≡ 1))
compact_recent_count_lem n requested enough =
    let k = wanted_count n recent enough (limit_or_positive 6 requested (omega arith)) in
    let even = make_even_lem k.0 k.2 in
    (even.0, opened ∙ ap make_even k.1 ∙ even.1, omega (arith, even.2, k.3), even.3)
  where
    recent : ℕ
    recent = limit_or 6 requested

    opened :
        compact_recent_count n requested
        ≡ make_even (if ltb n (recent + 2) then sub_ℕ n 2 else pos recent)
    opened = unfold compact_recent_count in refl

length-trim_left : (t : Text) → length (trim_left t) ≤ length t
unfolding trim_left
length-trim_left [] = omega arith
length-trim_left (c ∷ t) = ground (arith, length-trim_left t)

length-trim_right : (t : Text) → length (trim_right t) ≤ length t
unfolding trim_right
length-trim_right [] = omega arith
length-trim_right (c ∷ t) = ground (arith, length-trim_right t)

pub length-take : (n : ℕ) (t : Text) → length (take n t) ≤ n
length-take zero t = omega arith
length-take (suc n) [] = omega arith
length-take (suc n) (x ∷ xs) = omega (arith, length-take n xs)

length-trim_space : (t : Text) → length (trim_space t) ≤ length t
unfolding trim_space
length-trim_space t = omega (arith, length-trim_right (trim_left t), length-trim_left t)

-- The summary that is stored has at most the limit's characters and the three dots.
pub length-sanitize_compact_summary :
    (summary : Text) (max_runes : ℤ)
    → length (sanitize_compact_summary summary max_runes) ≤ limit_or 1800 max_runes + 3
length-sanitize_compact_summary summary max_runes = elim (Bool-cases (ltb limit (length cleaned))) [
  | inl long ↦
      let cut : sanitize_compact_summary summary max_runes
          ≡ trim_space (take limit cleaned) ++ codes "..." =
        opened ∙ rw long in
      subst (λ t. length t ≤ limit + 3) (sym cut)
        (omega (
          arith,
          length-append (trim_space (take limit cleaned)) (codes "..."),
          length-trim_space (take limit cleaned),
          length-take limit cleaned,
        ))
  | inr short ↦
      let whole : sanitize_compact_summary summary max_runes ≡ cleaned = opened ∙ rw short in
      subst (λ t. length t ≤ limit + 3) (sym whole) (ground arith)
]
  where
    limit : ℕ
    limit = limit_or 1800 max_runes

    cleaned : Text
    cleaned = trim_space (trim_char_right b'`' (trim_char_left b'`' (trim_space summary)))

    opened : sanitize_compact_summary summary max_runes ≡ (
        if ltb limit (length cleaned)
        then trim_space (take limit cleaned) ++ codes "..."
        else cleaned)
    opened = unfold sanitize_compact_summary in refl
