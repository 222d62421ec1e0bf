-- ===== src/Chunker/Normalize.antt =====
-- `_normalize_text` and its tests on characters. The loop is a step on its variables, repeated on fuel;
-- the character before or after a position is `none` where the source has the empty text.
use flavor_rag.Prelude.{
  ℕ, suc, zero, List, Bool, Option, none, some, true, false, if◌then◌else◌, ◌&&◌, ◌||◌, not, leb,
  ltb, eqb, ◌+◌, ◌-◌, [], ◌∷◌, ◌++◌, drop, filter, get_elem?,
}
use flavor_rag.Prelude.Int.{ℤ, pos, negsuc}
use flavor_rag.Prelude.Optional.{◌>>=◌}
use flavor_rag.Chunker.Chars.{CharTests, one_of, between, slice, is_blank}
use flavor_rag.Chunker.Fixed.{ChunkRecord, chunk_windows}

abbrev pub starts_with : List ℕ → List ℕ → Bool
starts_with [] s = true
starts_with (c ∷ cs) [] = false
starts_with (c ∷ cs) (d ∷ s) = eqb c d && starts_with cs s

-- "http://" and "https://"
abbrev pub http : List ℕ
http = 104 ∷ 116 ∷ 116 ∷ 112 ∷ 58 ∷ 47 ∷ 47 ∷ []

abbrev pub https : List ℕ
https = 104 ∷ 116 ∷ 116 ∷ 112 ∷ 115 ∷ 58 ∷ 47 ∷ 47 ∷ []

unfoldable pub looks_like_url_start : List ℕ → Bool
looks_like_url_start s = starts_with http s || starts_with https s

-- A letter or digit of ASCII, or one of -._~:/?#[]@!$&'()*+,;=%
unfoldable pub is_url_char : ℕ → Bool
is_url_char c =
    between 65 90 c
    || between 97 122 c
    || between 48 57 c
    || one_of c (
        45 ∷ 46 ∷ 95 ∷ 126 ∷ 58 ∷ 47 ∷ 63 ∷ 35 ∷ 91 ∷ 93 ∷ 64 ∷ 33 ∷ 36 ∷ 38 ∷ 39 ∷ 40 ∷ 41 ∷ 42
        ∷ 43 ∷ 44 ∷ 59 ∷ 61 ∷ 37 ∷ [])

-- One of ./?&=-_%
unfoldable pub is_common_url_punct : ℕ → Bool
is_common_url_punct c = one_of c (46 ∷ 47 ∷ 63 ∷ 38 ∷ 61 ∷ 45 ∷ 95 ∷ 37 ∷ [])

unfoldable pub is_cjk_or_fullwidth : ℕ → Bool
is_cjk_or_fullwidth c =
    between 0x4E00 0x9FFF c
    || between 0x3400 0x4DBF c
    || between 0x20000 0x2A6DF c
    || between 0xF900 0xFAFF c
    || between 0xFF00 0xFFEF c

unfoldable pub is_cjk_punctuation : ℕ → Bool
is_cjk_punctuation c =
    between 0x3000 0x303F c
    || between 0x2000 0x206F c
    || one_of c (
        0x3002 ∷ 0xFF0C ∷ 0x3001 ∷ 0xFF1B ∷ 0xFF1A ∷ 0xFF01 ∷ 0xFF1F ∷ 0xFF08 ∷ 0xFF09 ∷ 0x3010
        ∷ 0x3011 ∷ 0x300A ∷ 0x300B ∷ 34 ∷ 183 ∷ [])

abbrev pub skip_while : (ℕ → Bool) → List ℕ → List ℕ
skip_while p [] = []
skip_while p (c ∷ cs) = if p c then skip_while p cs else c ∷ cs

abbrev pub first_is : (ℕ → Bool) → List ℕ → Bool
first_is p [] = false
first_is p (c ∷ cs) = p c

-- A chunk size of -1 makes one chunk of the whole text.
abbrev pub chunk_normalized : CharTests → ℤ → ℤ → List ℕ → Option (List ChunkRecord)
chunk_normalized chars (negsuc zero) overlap_size normalized =
    some (record { content = normalized; chunk_index = 0 } ∷ [])
chunk_normalized chars (negsuc (suc n)) overlap_size normalized =
    chunk_windows chars (negsuc (suc n)) overlap_size normalized
chunk_normalized chars (pos n) overlap_size normalized =
    chunk_windows chars (pos n) overlap_size normalized

module _ (chars : CharTests) where
  unfoldable pub is_cjk_word_char : Option ℕ → Bool
  unfolding is_cjk_or_fullwidth is_cjk_punctuation
  is_cjk_word_char none = false
  is_cjk_word_char (some c) =
      not (chars.isspace c) && is_cjk_or_fullwidth c && not (is_cjk_punctuation c)

  -- Digits after blanks, and a full stop or a closing bracket after the digits.
  unfoldable pub is_list_item_start : List ℕ → Bool
  is_list_item_start s =
      let at_digits = skip_while (λ c. one_of c (32 ∷ 9 ∷ [])) s in
      first_is (λ c. chars.isdigit c) at_digits
      && first_is (λ c. one_of c (46 ∷ 0xFF09 ∷ 41 ∷ []))
          (skip_while (λ c. chars.isdigit c) at_digits)

  abbrev pub holds_of : (ℕ → Bool) → Option ℕ → Bool
  holds_of p none = false
  holds_of p (some c) = p c

  -- `s` is the text from the next character on.
  unfoldable pub should_join_broken_url : Option ℕ → Option ℕ → List ℕ → Bool
  unfolding is_list_item_start
  should_join_broken_url prev next s =
      if is_list_item_start s
      then false
      else if holds_of (λ c. eqb c 46) prev && holds_of (λ c. chars.isalpha c) next
      then true
      else if holds_of (λ c. one_of c (47 ∷ 63 ∷ 38 ∷ 61 ∷ 35 ∷ 37 ∷ 45 ∷ 95 ∷ 58 ∷ [])) prev
      then true
      else holds_of (λ c. one_of c (47 ∷ 63 ∷ 38 ∷ 61 ∷ 35 ∷ [])) next

  -- How many characters of whitespace the text begins with, and how many of them are newlines.
  unfoldable pub scan_spaces : List ℕ → ℕ × ℕ
  scan_spaces [] = (0, 0)
  scan_spaces (c ∷ cs) =
      let (n, newlines) = scan_spaces cs in
      if chars.isspace c then (suc n, (if eqb c 10 then suc newlines else newlines)) else (0, 0)

  abbrev pub is_some : Option ℕ → Bool
  is_some none = false
  is_some (some c) = true

  pub record Scan : Type 0 where
    pub i : ℕ
    pub in_url : Bool
    pub out : List ℕ

  abbrev pub before : List ℕ → ℕ → Option ℕ
  before src zero = none
  before src (suc i) = get_elem? src i

  -- Whitespace at the position, inside a URL.
  unfoldable pub url_space : List ℕ → Scan → Scan
  unfolding scan_spaces should_join_broken_url
  url_space src st =
      let (n, newlines) = scan_spaces (drop st.i src) in
      let j = st.i + n in
      if ltb 0 newlines
        && not (leb 2 newlines)
        && is_some (get_elem? src j)
        && should_join_broken_url (before src st.i) (get_elem? src j) (drop j src)
      then record { i = j - 1; in_url = true; out = st.out }
      else record { i = j - 1; in_url = false; out = st.out ++ slice st.i j src }

  -- One round of the loop at the character `c`.
  unfoldable pub round : List ℕ → Scan → ℕ → Scan
  unfolding looks_like_url_start url_space is_url_char is_common_url_punct is_cjk_word_char
  round src st c =
      if st.in_url || looks_like_url_start (drop st.i src)
      then if chars.isspace c then url_space src (record st { in_url = true }) else record {
        i = st.i + 1;
        in_url = is_url_char c || is_common_url_punct c;
        out = st.out ++ c ∷ [];
      }
      else if eqb c 10
          && is_cjk_word_char (before src st.i)
          && is_cjk_word_char (get_elem? src (st.i + 1))
      then record { i = st.i + 1; in_url = false; out = st.out }
      else record { i = st.i + 1; in_url = false; out = st.out ++ c ∷ [] }

  -- The loop: `none` is that the fuel is used up.
  unfoldable pub scan : ℕ → List ℕ → Scan → Option (List ℕ)
  unfolding round
  scan zero src st = none
  scan (suc fuel) src st = elim (get_elem? src st.i) [
    | none ↦ some st.out
    | some c ↦ scan fuel src (round src st c)
  ]

  abbrev pub without_returns : List ℕ → List ℕ
  without_returns text = filter (λ c. not (eqb c 13)) text

  unfoldable pub normalize_text : ℕ → List ℕ → Option (List ℕ)
  unfolding scan
  normalize_text fuel text =
      scan fuel (without_returns text) (record { i = 0; in_url = false; out = [] })

  -- `chunk` of the fixed-window chunker.
  unfoldable pub fixed_chunk : ℕ → ℤ → ℤ → List ℕ → Option (List ChunkRecord)
  unfolding normalize_text chunk_windows
  fixed_chunk fuel chunk_size overlap_size text = if is_blank chars text then some [] else do
    normalized ← normalize_text fuel text
    chunk_normalized chars chunk_size overlap_size normalized
