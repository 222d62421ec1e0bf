-- ===== src/Chunker/Chars.antt =====
-- Texts as lists of code points, and the tests on characters that the chunker takes from Python.
use flavor_rag.Prelude.{
  ℕ, List, Bool, none, some, false, ◌&&◌, leb, eqb, any, all, get_elem?, take, drop, ◌-◌,
}

-- `str.isspace`, `str.isalpha` and `str.isdigit` on one character; `isdecimal` is also the `\d` of a
-- regular expression, which is narrower than `isdigit`.
pub record CharTests : Type 0 where
  pub isspace : ℕ → Bool
  pub isalpha : ℕ → Bool
  pub isdigit : ℕ → Bool
  pub isdecimal : ℕ → Bool

-- `c in "..."`
abbrev pub one_of : ℕ → List ℕ → Bool
one_of c cs = any (λ d. eqb c d) cs

abbrev pub between : ℕ → ℕ → ℕ → Bool
between a b c = leb a c && leb c b

-- Whether there is a character at the position that passes the test.
unfoldable pub char_is : (ℕ → Bool) → List ℕ → ℕ → Bool
char_is p text i = elim (get_elem? text i) [ none ↦ false | some c ↦ p c ]

-- `text[start:end]`
abbrev pub slice : ℕ → ℕ → List ℕ → List ℕ
slice start end text = take (end - start) (drop start text)

-- `not text.strip()`
abbrev pub is_blank : CharTests → List ℕ → Bool
is_blank chars text = all (λ c. chars.isspace c) text
