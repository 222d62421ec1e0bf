-- ===== src/Governance/Tokens.antt =====
-- `estimate_tokens` of governance.py. The character classes of the regular expressions, `\w` and
-- `\s`, are those of Python's `re` and enter as a record.
use flavor_rag.Prelude.{
  ℕ, zero, suc, ◌+◌, ◌*◌, ◌/◌, ◌≤◌, ◌≡◌, Bool, true, false, ◌&&◌, ◌||◌, List, [], ◌∷◌, leb, max,
  if◌then◌else◌, arith, not, map,
}

-- A blank is white space, and no part of a word.
pub record CharClasses : Type 0 where
  pub is_word : ℕ → Bool
  pub is_space : ℕ → Bool
  pub word_blank : is_word 32 ≡ false
  pub space_blank : is_space 32 ≡ true

unfoldable pub is_cjk : ℕ → Bool
is_cjk c = leb 0x3400 c && leb c 0x9fff || leb 0xf900 c && leb c 0xfaff

abbrev count_cjk : List ℕ → ℕ
count_cjk [] = 0
count_cjk (c ∷ cs) = (if is_cjk c then 1 else 0) + count_cjk cs

-- `re.sub(.., " ", text)`
abbrev blank_cjk : ℕ → ℕ
blank_cjk c = if is_cjk c then 32 else c

-- `max(1, (len(group) + 3) // 4)` for a run of word characters, and nothing for no run.
abbrev group_tokens : ℕ → ℕ
group_tokens zero = 0
group_tokens (suc n) = max 1 ((suc n + 3) / 4)

module _ (classes : CharClasses) where
  open classes use {is_word, is_space, word_blank, space_blank}

  -- The groups of `\w+|[^\w\s]` from left to right; `run` is the length of the word so far.
  pub scan_groups : ℕ → List ℕ → ℕ
  scan_groups run [] = group_tokens run
  scan_groups run (c ∷ cs) =
      (if is_word c then 0 else group_tokens run + (if is_space c then 0 else 1))
      + scan_groups (if is_word c then run + 1 else 0) cs

  unfoldable pub estimate_tokens : List ℕ → ℕ
  unfolding scan_groups is_cjk
  estimate_tokens text = count_cjk text + scan_groups 0 (map blank_cjk text)

  -- The characters that are to be read: CJK characters, and all others but white space.
  abbrev pub visible : List ℕ → ℕ
  visible [] = 0
  visible (c ∷ cs) = (if is_cjk c || is_word c || not (is_space c) then 1 else 0) + visible cs

  group_tokens_bounds : (n : ℕ) → (n ≤ 4 * group_tokens n) × (group_tokens n ≤ n)
  group_tokens_bounds zero = (omega arith, omega arith)
  group_tokens_bounds (suc n) = (omega arith, omega arith)

  scan_groups_bounds :
      (run : ℕ) (cs : List ℕ)
      → (run + visible cs ≤ 4 * (count_cjk cs + scan_groups run (map blank_cjk cs)))
        × (count_cjk cs + scan_groups run (map blank_cjk cs) ≤ run + visible cs)
  unfolding scan_groups
  scan_groups_bounds run [] =
      let g = group_tokens_bounds run in (omega (arith, g), omega (arith, g))
  scan_groups_bounds run (c ∷ cs) =
      let g = group_tokens_bounds run in
      let fresh = scan_groups_bounds 0 cs in
      let more = scan_groups_bounds (run + 1) cs in
      (
        ground (arith, g, fresh, more, word_blank, space_blank),
        ground (arith, g, fresh, more, word_blank, space_blank),
      )

  -- The estimate is at most one token for each character that is to be read, and at least one for
  -- four of them; white space costs nothing.
  pub estimate_tokens_bounds :
      (text : List ℕ)
      → (visible text ≤ 4 * estimate_tokens text) × (estimate_tokens text ≤ visible text)
  unfolding estimate_tokens
  estimate_tokens_bounds text =
      let b = scan_groups_bounds 0 text in (omega (arith, b), omega (arith, b))
