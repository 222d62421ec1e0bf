-- ===== src/Chunker/Fixed.antt =====
-- `_FixedSizeChunker`: `_adjust_to_boundary` and the loop of `chunk`. The loop runs on fuel; `none` is
-- that the fuel is used up.
use flavor_rag.Prelude.{
  ℕ, suc, zero, List, Bool, Option, none, some, false, if◌then◌else◌, ◌&&◌, ◌||◌, not, leb, ltb,
  eqb, ◌+◌, ◌-◌, min, max, length, [], ◌∷◌,
}
use flavor_rag.Prelude.Int.{ℤ, pos, negsuc}
use mathlib.Core.Option
use flavor_rag.Chunker.Chars.{CharTests, one_of, char_is, slice, is_blank}

pub record ChunkRecord : Type 0 where
  pub content : List ℕ
  pub chunk_index : ℕ

pub record Window : Type 0 where
  pub start : ℕ
  pub end : ℕ

-- The three loops backwards from the target: at most `n` positions before `limit`, none at or before
-- `start`; the position after the first that passes the test.
unfoldable pub look_back : (ℕ → Bool) → ℕ → ℕ → ℕ → Option ℕ
look_back test start limit zero = none
look_back test start limit (suc n) =
    let rest = look_back test start (limit - 1) n in
    if leb (limit - 1) start then none else if test (limit - 1) then some (limit - 1 + 1) else rest

abbrev pub is_newline : ℕ → Bool
is_newline c = eqb c 10

-- The ideographic full stop, and the full-width exclamation and question marks.
abbrev pub ends_cjk : ℕ → Bool
ends_cjk c = one_of c (12290 ∷ 65281 ∷ 65311 ∷ [])

abbrev pub ends_english : ℕ → Bool
ends_english c = one_of c (46 ∷ 33 ∷ 63 ∷ [])

abbrev pub first_of : Option ℕ → ℕ → ℕ
first_of none d = d
first_of (some i) d = i

module _ (chars : CharTests) (text : List ℕ) where
  abbrev pub english_end : ℕ → Bool
  english_end i =
      char_is ends_english text i
      && (leb (length text) (i + 1) || char_is (λ c. chars.isspace c) text (i + 1))

  unfoldable pub adjust_to_boundary : ℕ → ℕ → ℕ → ℕ
  unfolding look_back char_is
  adjust_to_boundary start target_end overlap =
      if leb target_end start
      then target_end
      else let n = min overlap (target_end - start) in
        if leb n 0
        then target_end
        else first_of (look_back (char_is is_newline text) start target_end n) (
            first_of (look_back (char_is ends_cjk text) start target_end n)
              (first_of (look_back english_end start target_end n) target_end))

  -- `end <= last_end`, where `none` is the -1 before the first window.
  abbrev pub not_past : ℕ → Option ℕ → Bool
  not_past end none = false
  not_past end (some last_end) = leb end last_end

  module _ (chunk_size overlap : ℕ) where
    -- Where the window from `start` ends.
    unfoldable pub window_end : ℕ → Option ℕ → ℕ
    unfolding adjust_to_boundary
    window_end start last_end =
        let target_end = min (start + chunk_size) (length text) in
        let end = adjust_to_boundary start target_end overlap in
        if leb end start || not_past end last_end then target_end else end

    unfoldable pub next_start : ℕ → ℕ → ℕ
    next_start start end = if leb (end - overlap) start then end else end - overlap

    unfoldable pub windows : ℕ → ℕ → Option ℕ → Option (List Window)
    unfolding window_end next_start
    windows zero start last_end = none
    windows (suc fuel) start last_end =
        let end = window_end start last_end in
        let window : Window = record { start = start; end = end } in
        let rest = windows fuel (next_start start end) (some end) in
        if not (ltb start (length text))
        then some []
        else if leb (length text) end
        then some (window ∷ [])
        else Option.map (◌∷◌ window) rest

  -- The windows with something to read in them become the chunks, numbered from `index` on.
  unfoldable pub records : ℕ → List Window → List ChunkRecord
  records index [] = []
  records index (w ∷ ws) =
      let content = slice w.start w.end text in
      if is_blank chars content
      then records index ws
      else record { content = content; chunk_index = index } ∷ records (index + 1) ws

abbrev pub size_of : ℤ → ℕ
size_of (pos n) = max 1 n
size_of (negsuc n) = 1

abbrev pub overlap_of : ℕ → ℤ → ℕ
overlap_of chunk_size (pos n) = if ltb 1 chunk_size then min n (chunk_size - 1) else 0
overlap_of chunk_size (negsuc n) = 0

-- `chunk` after the normalisation, for a chunk size other than -1.
unfoldable pub chunk_windows : CharTests → ℤ → ℤ → List ℕ → Option (List ChunkRecord)
unfolding windows records
chunk_windows chars chunk_size overlap_size normalized = Option.map (records chars normalized 0) (
    windows chars normalized (size_of chunk_size) (overlap_of (size_of chunk_size) overlap_size)
      (length normalized + 1) 0 none)
