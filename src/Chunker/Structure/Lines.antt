-- ===== src/Chunker/Structure/Lines.antt =====
-- The lines of a text with their places, and the patterns that the chunkers match against them.
use flavor_rag.Prelude.{
  is_nil, ℕ, List, Bool, false, if◌then◌else◌, ◌&&◌, ◌||◌, not, eqb, ◌+◌, [], ◌∷◌, map, suc, zero,
}
use flavor_rag.Chunker.Chars.{CharTests, one_of}
use flavor_rag.Chunker.Normalize.{starts_with, skip_while, first_is}

-- `.replace('\r\n', '\n')`
unfoldable pub without_crlf : List ℕ → List ℕ
without_crlf [] = []
without_crlf (c ∷ []) = c ∷ []
without_crlf (c ∷ d ∷ cs) =
    let rest = without_crlf (d ∷ cs) in if eqb c 13 && eqb d 10 then rest else c ∷ rest

-- `.replace('\r\n', '\n').replace('\r', '\n')`
unfoldable pub unify_newlines : List ℕ → List ℕ
unfolding without_crlf
unify_newlines text = map (λ c. if eqb c 13 then 10 else c) (without_crlf text)

-- One round of the loops over the text: the line `text[start:line_end]`, and `line_end_nl`, where the
-- next line starts.
pub record Line : Type 0 where
  pub start : ℕ
  pub next : ℕ
  pub content : List ℕ

-- A character before the lines that follow it, the first of which it begins.
abbrev pub begin_line : ℕ → ℕ → List Line → List Line
begin_line i c [] = record { start = i; next = i + 1; content = c ∷ [] } ∷ []
begin_line i c (l ∷ ls) = record { start = i; next = l.next; content = c ∷ l.content } ∷ ls

-- The lines of the text that starts at position `i`.
unfoldable pub lines_from : ℕ → List ℕ → List Line
lines_from i [] = []
lines_from i (c ∷ cs) =
    let rest = lines_from (i + 1) cs in
    if eqb c 10
    then record { start = i; next = i + 1; content = [] } ∷ rest
    else begin_line i c rest

abbrev pub tail_of : List ℕ → List ℕ
tail_of [] = []
tail_of (c ∷ cs) = cs

-- What follows the first `close`; nothing if there is none.
abbrev pub behind : ℕ → List ℕ → List ℕ
behind close s = tail_of (skip_while (λ c. not (eqb c close)) s)

abbrev pub holds_char : ℕ → List ℕ → Bool
holds_char close [] = false
holds_char close (c ∷ cs) = eqb c close || holds_char close cs

-- `\([^)]+\)` at the beginning, and then `rest`.
abbrev pub target_then : (List ℕ → Bool) → List ℕ → Bool
target_then rest [] = false
target_then rest (c ∷ cs) =
    eqb c 40 && not (first_is (λ d. eqb d 41) cs) && holds_char 41 cs && rest (behind 41 cs)

module _ (chars : CharTests) where
  -- `_trim_right_keep_left` and `_trim_right`
  unfoldable pub trim_right : List ℕ → List ℕ
  trim_right [] = []
  trim_right (c ∷ cs) =
      let rest = trim_right cs in
      if is_nil rest && chars.isspace c && not (one_of c (10 ∷ 13 ∷ [])) then [] else c ∷ rest

  -- `^```.*$`
  unfoldable pub is_code_fence : List ℕ → Bool
  is_code_fence s = starts_with (96 ∷ 96 ∷ 96 ∷ []) s

  -- At most six `#` with whitespace behind them; `most` is how many may still come.
  abbrev pub after_hashes : ℕ → List ℕ → Bool
  after_hashes most [] = false
  after_hashes zero (c ∷ cs) = chars.isspace c
  after_hashes (suc most) (c ∷ cs) = if eqb c 35 then after_hashes most cs else chars.isspace c

  -- `^#{1,6}\s+.*$`
  unfoldable pub is_heading : List ℕ → Bool
  is_heading [] = false
  is_heading (c ∷ cs) = eqb c 35 && after_hashes 5 cs

  -- `(?:\s*"[^"]*")?\s*$`
  abbrev pub ends_with_title : List ℕ → Bool
  ends_with_title s =
      let t = skip_while (λ c. chars.isspace c) s in
      is_nil t
      || first_is (λ c. eqb c 34) t
        && holds_char 34 (tail_of t)
        && is_nil (skip_while (λ c. chars.isspace c) (behind 34 (tail_of t)))

  -- `^!\[[^\]]*\]\([^)]+\)(?:\s*"[^"]*")?\s*$`
  unfoldable pub is_atomic_image : List ℕ → Bool
  is_atomic_image s =
      starts_with (33 ∷ 91 ∷ []) s
      && holds_char 93 (tail_of (tail_of s))
      && target_then ends_with_title (behind 93 (tail_of (tail_of s)))

  -- `^\[[^\]]+\]\([^)]+\)\s*$`
  unfoldable pub is_atomic_link : List ℕ → Bool
  is_atomic_link s =
      starts_with (91 ∷ []) s
      && not (first_is (λ c. eqb c 93) (tail_of s))
      && holds_char 93 (tail_of s)
      && target_then (λ t. is_nil (skip_while (λ c. chars.isspace c) t)) (behind 93 (tail_of s))
