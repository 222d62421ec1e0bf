-- ===== src/Chunker/Typed/Patterns.antt =====
-- The patterns of `_BlockAwareChunker` and the operations on texts that it takes from Python.
use flavor_rag.Prelude.{
  is_nil, ℕ, suc, zero, List, Bool, true, false, if◌then◌else◌, ◌&&◌, ◌||◌, eqb, leb, [], ◌∷◌, ◌++◌,
  length,
}
use flavor_rag.Chunker.Chars.{CharTests, one_of}
use flavor_rag.Chunker.Normalize.{skip_while, first_is}
use flavor_rag.Chunker.Structure.Lines.{tail_of}

module _ (chars : CharTests) where
  -- `s.lstrip()` and `s.rstrip()`
  abbrev pub skip_space : List ℕ → List ℕ
  skip_space s = skip_while (λ c. chars.isspace c) s

  unfoldable pub drop_space : List ℕ → List ℕ
  drop_space [] = []
  drop_space (c ∷ cs) =
      let rest = drop_space cs in if is_nil rest && chars.isspace c then [] else c ∷ rest

  unfoldable pub strip : List ℕ → List ℕ
  unfolding drop_space
  strip s = drop_space (skip_space s)

  -- The last character passes the test, and there is one before it.
  abbrev pub ends_behind : (ℕ → Bool) → List ℕ → Bool
  ends_behind p [] = false
  ends_behind p (c ∷ []) = false
  ends_behind p (c ∷ d ∷ []) = p d
  ends_behind p (c ∷ d ∷ e ∷ cs) = ends_behind p (d ∷ e ∷ cs)

  -- `^\s*\|.+\|\s*$`
  unfoldable pub is_table_row : List ℕ → Bool
  unfolding drop_space
  is_table_row s =
      let t = skip_space s in
      first_is (λ c. eqb c 124) t && ends_behind (λ c. eqb c 124) (drop_space (tail_of t))

  abbrev pub is_dash : ℕ → Bool
  is_dash c = one_of c (45 ∷ 58 ∷ [])

  abbrev pub count_while : (ℕ → Bool) → List ℕ → ℕ
  count_while p [] = 0
  count_while p (c ∷ cs) = if p c then suc (count_while p cs) else 0

  -- `\s*[-:]{3,}` at the beginning.
  abbrev pub has_dashes : List ℕ → Bool
  has_dashes s = leb 3 (count_while is_dash (skip_space s))

  -- What follows `\s*[-:]*\s*`.
  abbrev pub behind_dashes : List ℕ → List ℕ
  behind_dashes s = skip_space (skip_while is_dash (skip_space s))

  -- `(\|\s*[-:]{3,}\s*)*\|?\s*$`, on fuel.
  abbrev pub separator_rest : ℕ → List ℕ → Bool
  separator_rest zero s = is_nil s
  separator_rest (suc fuel) [] = true
  separator_rest (suc fuel) (c ∷ cs) =
      let more = separator_rest fuel (behind_dashes cs) in
      eqb c 124 && (if has_dashes cs then more else is_nil (skip_space cs))

  abbrev pub skip_bar : List ℕ → List ℕ
  skip_bar [] = []
  skip_bar (c ∷ cs) = if eqb c 124 then cs else c ∷ cs

  -- `^\s*\|?\s*[-:]{3,}\s*(\|\s*[-:]{3,}\s*)+\|?\s*$`
  unfoldable pub is_table_separator : List ℕ → Bool
  is_table_separator s =
      let t = skip_bar (skip_space s) in
      let u = behind_dashes t in
      has_dashes t && has_dashes (tail_of u) && separator_rest (length u) u

  -- `^(\d+)[.)、]\s`
  abbrev pub is_numbered : List ℕ → Bool
  is_numbered s =
      let t = skip_while (λ c. chars.isdecimal c) s in
      first_is (λ c. chars.isdecimal c) s
      && first_is (λ c. one_of c (46 ∷ 41 ∷ 0x3001 ∷ [])) t
      && first_is (λ c. chars.isspace c) (tail_of t)

  -- `_is_list_item`: `- `, `* ` or `+ `, or a number.
  unfoldable pub is_list_item : List ℕ → Bool
  is_list_item s =
      first_is (λ c. one_of c (45 ∷ 42 ∷ 43 ∷ [])) s && first_is (λ c. eqb c 32) (tail_of s)
      || is_numbered s

-- A character before parts that a separator divides.
abbrev pub add_char : ℕ → ℕ → List (List ℕ) → List (List ℕ)
add_char sep c [] = [] ∷ []
add_char sep c (part ∷ parts) = if eqb c sep then [] ∷ part ∷ parts else (c ∷ part) ∷ parts

-- `text.split('\n')` and `s.split('|')`
unfoldable pub split_at : ℕ → List ℕ → List (List ℕ)
split_at sep [] = [] ∷ []
split_at sep (c ∷ cs) = add_char sep c (split_at sep cs)

-- `sep.join(parts)`
unfoldable pub join : List ℕ → List (List ℕ) → List ℕ
join sep [] = []
join sep (s ∷ []) = s
join sep (s ∷ t ∷ parts) = s ++ (sep ++ join sep (t ∷ parts))
