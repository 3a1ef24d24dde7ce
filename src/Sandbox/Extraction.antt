-- ===== src/Sandbox/Extraction.antt =====
-- The paths that a shell command names: `ExtractPaths`, `tokenize` and `looksLikePath` of
-- internal/infrastructure/sandbox/extract.go. What the three regular expressions `redirectPattern`,
-- `curlPattern` and `wgetPattern` capture is the argument `Patterns`.
pub mod Candidates
use agent_workspace.Prelude.{
  ℕ, Bool, true, false, not, ◌&&◌, ◌||◌, List, [], ◌∷◌, ◌++◌, Text, codes, text_eq, elem, is_empty,
  has_prefix, to_lower, some_of, leb, ◌==◌, if◌then◌else◌,
}

-- what FindAllStringSubmatch gives as the first group of each match, in order
pub record Patterns : Type 0 where
  pub redirects : Text → List Text
  pub curl_targets : Text → List Text
  pub wget_targets : Text → List Text

abbrev pub single_quote : ℕ
single_quote = 39

abbrev pub double_quote : ℕ
double_quote = 34

abbrev pub backslash : ℕ
backslash = 92

is_quote : ℕ → Bool
is_quote c = c == single_quote || c == double_quote

-- strings.Trim(s, `'"`)
unfoldable pub trim_quotes_left : Text → Text
unfolding is_quote
trim_quotes_left [] = []
trim_quotes_left (c ∷ s) = let rest = trim_quotes_left s in if is_quote c then rest else c ∷ s

unfoldable pub trim_quotes_right : Text → Text
unfolding is_quote is_empty
trim_quotes_right [] = []
trim_quotes_right (c ∷ s) =
    let rest = trim_quotes_right s in if is_quote c && is_empty rest then [] else c ∷ rest

unfoldable pub trim_quotes : Text → Text
unfolding trim_quotes_left trim_quotes_right
trim_quotes s = trim_quotes_right (trim_quotes_left s)

-- the variables of the loop of `tokenize`
pub record Scan : Type 0 where
  pub tokens : List Text
  pub current : Text
  pub in_single : Bool
  pub in_double : Bool
  pub escape : Bool

abbrev pub new_scan : Scan
new_scan = record {
  tokens = [];
  current = [];
  in_single = false;
  in_double = false;
  escape = false;
}

unfoldable pub flush : Scan → Scan
unfolding is_empty
flush s =
    if is_empty s.current then s else record s { tokens = s.tokens ++ s.current ∷ []; current = [] }

abbrev write_rune : Scan → ℕ → Scan
write_rune s ch = record s { current = s.current ++ ch ∷ [] }

-- whitespace and the operators | ; &, which end a token outside quotes
unfoldable pub is_break : ℕ → Bool
is_break ch =
    ch == b' ' || ch == 9 || ch == 10 || ch == 13 || ch == b'|' || ch == b';' || ch == b'&'

-- one round of the loop
unfoldable pub scan_rune : Scan → ℕ → Scan
unfolding flush is_break
scan_rune s ch =
    if s.escape
    then record (write_rune s ch) { escape = false }
    else if ch == backslash
    then record (write_rune s ch) { escape = true }
    else if ch == single_quote && not s.in_double
    then record (write_rune s ch) { in_single = not s.in_single }
    else if ch == double_quote && not s.in_single
    then record (write_rune s ch) { in_double = not s.in_double }
    else if (not s.in_single && not s.in_double) && is_break ch
    then flush s
    else write_rune s ch

unfoldable pub scan_runes : Scan → Text → Scan
unfolding scan_rune
scan_runes s [] = s
scan_runes s (ch ∷ command) = scan_runes (scan_rune s ch) command

unfoldable pub tokenize : Text → List Text
unfolding scan_runes flush
tokenize command = (flush (scan_runes new_scan command)).tokens

-- drivePathPattern: a letter, a colon and a slash or backslash
unfoldable pub is_drive_path : Text → Bool
is_drive_path (l ∷ c ∷ s ∷ rest) =
    (leb b'A' l && leb l b'Z' || leb b'a' l && leb l b'z')
    && (c == b':' && (s == backslash || s == b'/'))
is_drive_path _ = false

-- the rest behind the first backslash
unfoldable pub after_backslash : Text → Text
after_backslash [] = []
after_backslash (c ∷ s) = let rest = after_backslash s in if c == backslash then s else rest

-- the element between backslashes that begins here is not empty
unfoldable pub begins_part : Text → Bool
begins_part [] = false
begins_part (c ∷ s) = not (c == backslash)

unfoldable pub backslash_parts : Text → Bool
unfolding after_backslash begins_part
backslash_parts s = begins_part s && begins_part (after_backslash s)

-- the characters of `strings.ContainsAny(s, " \t\r\n")`
abbrev pub is_blank : ℕ → Bool
is_blank c = c == b' ' || c == 9 || c == 13 || c == 10

module _ (lower_rune : ℕ → ℕ) where
  unfoldable pub looks_like_path : Text → Bool
  unfolding text_eq has_prefix to_lower is_drive_path backslash_parts some_of
  looks_like_path s =
      let lower = to_lower lower_rune s in
      if text_eq s [] || text_eq s (codes "/")
      then false
      else if has_prefix lower (codes "http://") || has_prefix lower (codes "https://")
      then false
      else if has_prefix s (codes "/")
          || has_prefix s (codes "~/")
          || has_prefix s (codes "./")
          || has_prefix s (codes "../")
      then true
      else if is_drive_path s || has_prefix s (backslash ∷ backslash ∷ [])
      then true
      else if some_of (λ c. c == backslash) s && not (some_of is_blank s)
      then backslash_parts s
      else text_eq s (codes "~")

  -- `add`; the keys of `seen` are `paths`
  unfoldable pub add_path : List Text → Text → List Text
  unfolding is_empty elem
  add_path paths path =
      if not (is_empty path) && not (elem path paths) then paths ++ path ∷ [] else paths

  unfoldable pub add_if_path : List Text → Text → List Text
  unfolding add_path looks_like_path trim_quotes
  add_if_path paths path =
      if looks_like_path (trim_quotes path) then add_path paths (trim_quotes path) else paths

  unfoldable pub add_all : List Text → List Text → List Text
  unfolding add_if_path
  add_all paths [] = paths
  add_all paths (t ∷ ts) = add_all (add_if_path paths t) ts

  -- what `ExtractPaths` looks at, in order
  abbrev pub candidates : Patterns → Text → List Text
  candidates patterns command =
      patterns.redirects command
      ++ patterns.curl_targets command
      ++ patterns.wget_targets command
      ++ tokenize command

  unfoldable pub extract_paths : Patterns → Text → List Text
  unfolding add_all tokenize
  extract_paths patterns command =
      let redirected = add_all [] (patterns.redirects command) in
      let downloaded = add_all redirected (patterns.curl_targets command) in
      let fetched = add_all downloaded (patterns.wget_targets command) in
      add_all fetched (tokenize command)
