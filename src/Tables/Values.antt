-- ===== src/Tables/Values.antt =====
-- `_value_type` and `_looks_like_new_table_caption`. A pattern gives all the rests of a text behind a
-- match at its beginning, so that it can be matched by what follows it.
use flavor_rag.Prelude.{
  is_nil, ℕ, suc, zero, List, Bool, false, if◌then◌else◌, ◌&&◌, ◌||◌, not, any, same_text, [], ◌∷◌,
  ◌++◌, map, concat, length,
}
use flavor_rag.Chunker.Chars.{CharTests, one_of}
use flavor_rag.Chunker.Normalize.{skip_while}

abbrev pub Pattern : Type 0
Pattern = List ℕ → List (List ℕ)

-- A character that passes the test.
abbrev pub char : (ℕ → Bool) → Pattern
char p [] = []
char p (c ∷ cs) = if p c then cs ∷ [] else []

-- Nothing.
abbrev pub empty : Pattern
empty s = s ∷ []

-- One pattern behind another, and one or the other.
abbrev pub then_match : Pattern → Pattern → Pattern
then_match p q s = concat (map q (p s))

abbrev pub either_match : Pattern → Pattern → Pattern
either_match p q s = p s ++ q s

abbrev pub optional : Pattern → Pattern
optional p s = p s ++ s ∷ []

-- `p{lo,lo + more}`
unfoldable pub repeat : ℕ → ℕ → Pattern → Pattern
repeat zero zero p s = s ∷ []
repeat zero (suc more) p s = concat (map (repeat zero more p) (p s)) ++ s ∷ []
repeat (suc lo) more p s = concat (map (repeat lo more p) (p s))

-- `fullmatch`, and a match at the beginning.
abbrev pub full_match : Pattern → List ℕ → Bool
full_match p s = any is_nil (p s)

abbrev pub prefix_match : Pattern → List ℕ → Bool
prefix_match p s = not (is_nil (p s))

pub data ValueType : Type 0 where
  empty_value number date boolean text : ValueType

-- `casefold` is `str.casefold`.
module _ (chars : CharTests) (casefold : List ℕ → List ℕ) where
  abbrev pub digits : ℕ → ℕ → Pattern
  digits lo more = repeat lo more (char chars.isdecimal)

  abbrev pub of : List ℕ → Pattern
  of cs = char (λ c. one_of c cs)

  -- `[+-]?(?:\d{1,3}(?:,\d{3})+|\d+)(?:\.\d+)?%?`; `n` is the length of the text.
  unfoldable pub number_pattern : ℕ → Pattern
  unfolding repeat
  number_pattern n =
      let grouped = then_match (digits 1 2) (repeat 1 n (then_match (of (44 ∷ [])) (digits 3 0))) in
      let fraction = optional (then_match (of (46 ∷ [])) (digits 1 n)) in
      then_match (optional (of (43 ∷ 45 ∷ []))) (
        then_match (either_match grouped (digits 1 n))
          (then_match fraction (optional (of (37 ∷ [])))))

  -- `\d{4}[-/.年]\d{1,2}(?:[-/.月]\d{1,2}日?)?|\d{1,2}[-/.]\d{1,2}[-/.]\d{2,4}`
  unfoldable pub date_pattern : Pattern
  unfolding repeat
  date_pattern =
      let day =
        then_match (of (45 ∷ 47 ∷ 46 ∷ 0x6708 ∷ []))
          (then_match (digits 1 1) (optional (of (0x65e5 ∷ [])))) in
      let sep = of (45 ∷ 47 ∷ 46 ∷ []) in
      either_match
        (then_match (digits 4 0)
          (then_match (of (45 ∷ 47 ∷ 46 ∷ 0x5e74 ∷ [])) (then_match (digits 1 1) (optional day))))
        (then_match (digits 1 1)
          (then_match sep (then_match (digits 1 1) (then_match sep (digits 2 2)))))

  -- `" ".join(value.split())`: the words with one space between them; `inside` is set behind a
  -- character of a word.
  unfoldable pub squeeze : Bool → List ℕ → List ℕ
  squeeze inside [] = []
  squeeze inside (c ∷ cs) =
      let rest = squeeze (not (chars.isspace c)) cs in
      let later = skip_while (λ d. chars.isspace d) cs in
      if not (chars.isspace c)
      then c ∷ rest
      else if inside && not (is_nil later)
      then 32 ∷ rest
      else rest

  -- "true", "false", "yes", "no", "是" and "否"
  abbrev pub boolean_words : List (List ℕ)
  boolean_words =
      (116 ∷ 114 ∷ 117 ∷ 101 ∷ [])
      ∷ (102 ∷ 97 ∷ 108 ∷ 115 ∷ 101 ∷ [])
      ∷ (121 ∷ 101 ∷ 115 ∷ [])
      ∷ (110 ∷ 111 ∷ [])
      ∷ (0x662f ∷ [])
      ∷ (0x5426 ∷ [])
      ∷ []

  unfoldable pub value_type : List ℕ → ValueType
  unfolding squeeze number_pattern date_pattern
  value_type value =
      let normalized = squeeze false value in
      if is_nil normalized
      then empty_value
      else if full_match (number_pattern (length normalized)) normalized
      then number
      else if full_match date_pattern normalized
      then date
      else if any (same_text (casefold normalized)) boolean_words
      then boolean
      else text

  -- `^\s*(?:表|附表|table)\s*[\d一二三四五六七八九十]+(?:[.：:\-\s]|$)`, whatever the case of "table".
  unfoldable pub looks_like_new_table_caption : List ℕ → Bool
  unfolding repeat
  looks_like_new_table_caption value =
      let n = length value in
      let spaces = repeat 0 n (char chars.isspace) in
      let letter = λ (lower upper : ℕ). of (lower ∷ upper ∷ []) in
      let word = then_match (letter 116 84) (
        then_match (letter 97 65)
          (then_match (letter 98 66) (then_match (letter 108 76) (letter 101 69)))) in
      let table_word =
        either_match (of (0x8868 ∷ []))
          (either_match (then_match (of (0x9644 ∷ [])) (of (0x8868 ∷ []))) word) in
      let numeral = λ (c : ℕ).
        chars.isdecimal c
        || one_of c (
            0x4e00 ∷ 0x4e8c ∷ 0x4e09 ∷ 0x56db ∷ 0x4e94 ∷ 0x516d ∷ 0x4e03 ∷ 0x516b ∷ 0x4e5d ∷ 0x5341
            ∷ []) in
      let closing = λ (s : List ℕ).
        if is_nil s
        then s ∷ []
        else char (λ c. one_of c (46 ∷ 0xff1a ∷ 58 ∷ 45 ∷ []) || chars.isspace c) s in
      prefix_match
        (then_match spaces (
          then_match table_word
            (then_match spaces (then_match (repeat 1 n (char numeral)) closing))))
        value
