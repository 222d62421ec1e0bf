-- ===== src/Chunker/Typed/Sentences.antt =====
-- The windows of `_chunk_paragraph`: the loop ends, and the windows hold the text.
use flavor_rag.Prelude.{
  is_nil, ℕ, suc, zero, List, Bool, Option, none, some, true, false, ◌&&◌, not, leb, ltb, eqb, ◌+◌,
  ◌-◌, ◌≤◌, ◌<◌, ◌≡◌, inl, inr, min, max, [], ◌∷◌, ◌++◌, length, map, filter, drop, concat, All,
  arith, Bool-cases, refl, sym, ◌∙◌, ap, leb→le, length-take, take-append-drop, filter-append,
  append_nil,
}
use flavor_rag.Chunker.Chars.{CharTests, slice, char_is, is_blank}
use flavor_rag.Chunker.Fixed.{Window}
use flavor_rag.Chunker.Structure.Packing.{window}
use flavor_rag.Chunker.Typed.Patterns.{skip_space, drop_space, strip}
use flavor_rag.Chunker.Typed.Parts.{BlockAwareOptions, TypedChunk, plain_chunk}
use flavor_rag.Chunker.Typed.Paragraphs.{
  is_sentence_end, first_position, find_sentence_boundary, paragraph_end, paragraph_windows,
  paragraph_records, chunk_paragraph, boundary_of,
}

first_position-bounds :
    (p : ℕ → Bool) (i count j : ℕ)
    → first_position p i count ≡ some j
    → (i ≤ j) × (j < i + count) × (p j ≡ true)
unfolding first_position
first_position-bounds p i zero j h = cc
first_position-bounds p i (suc count) j h = elim (Bool-cases (p i)) [
  | inl e ↦
      let same : some i ≡ some j = rw e at h in
      let at_i : i ≡ j = cc same in (omega (arith, at_i), omega (arith, at_i), rw (sym at_i) e)
  | inr e ↦
      let b = first_position-bounds p (i + 1) count j (rw e at h) in
      (omega (arith, b.0), omega (arith, b.1), b.2)
]

abbrev Within : ℕ → ℕ → ℕ → ℕ → Type 0
Within start n limit e = (start < e) × (e ≤ n) × (e ≤ limit)

boundary_of-bounds :
    (o newline : Option ℕ) (start te n limit : ℕ)
    → Within start n limit te
    → ((i : ℕ) → o ≡ some i → Within start n limit i)
    → ((i : ℕ) → newline ≡ some i → Within start n limit (i + 1))
    → Within start n limit (boundary_of o newline te)
boundary_of-bounds (some i) newline start te n limit h f g = f i refl
boundary_of-bounds none (some i) start te n limit h f g = g i refl
boundary_of-bounds none none start te n limit h f g = h

module _ (chars : CharTests) (isupper : ℕ → Bool) (text : List ℕ) where
  boundary-bounds :
      (start target_end max_chars : ℕ)
      → start < target_end
      → target_end ≤ length text
      → (start < find_sentence_boundary chars isupper text start target_end max_chars)
        × (find_sentence_boundary chars isupper text start target_end max_chars ≤ length text)
        × (find_sentence_boundary chars isupper text start target_end max_chars
            ≤ max target_end (start + max_chars))
  unfolding find_sentence_boundary
  boundary-bounds start te m lt le =
      let count = min (start + m) (length text) - te in
      let p = λ (i : ℕ). ltb start i && is_sentence_end chars isupper text i in
      let q = λ (i : ℕ). char_is (λ c. eqb c 10) text i in
      boundary_of-bounds (first_position p te count) (first_position q te count) start te
        (length text) (max te (start + m)) (lt, le, omega arith)
        (λ i e.
          let b = first_position-bounds p te count i e in
          (omega (arith, b.0, lt), omega (arith, b.0, b.1), omega (arith, b.0, b.1)))
        (λ i e.
          let b = first_position-bounds q te count i e in
          (omega (arith, b.0, lt), omega (arith, b.0, b.1), omega (arith, b.0, b.1)))

  module _ (options : BlockAwareOptions) (some_target : 1 ≤ options.target_chars) where
    abbrev widest : ℕ
    widest = max options.target_chars options.max_chars

    -- The windows stand one behind the other from `a` to the end; none is empty or wider than allowed.
    abbrev Parted : ℕ → List Window → Type 0
    Parted a [] = a ≡ length text
    Parted a (w ∷ ws) = (w.start ≡ a) × (a < w.end) × (w.end ≤ a + widest) × Parted w.end ws

    paragraph_end-bounds :
        (start : ℕ)
        → start < length text
        → (start < paragraph_end chars isupper text options start)
          × (paragraph_end chars isupper text options start ≤ length text)
          × (paragraph_end chars isupper text options start ≤ start + widest)
    unfolding paragraph_end
    paragraph_end-bounds start lt =
        let te = min (start + options.target_chars) (length text) in
        let b = boundary-bounds start te options.max_chars (omega arith) (omega arith) in
        let end = find_sentence_boundary chars isupper text start te options.max_chars in
        let behind : leb end start ≡ false = ground (arith, b.0) in
        rw behind (b.0, b.1, omega (arith, b.2))

    paragraph_windows-Parted :
        (fuel start : ℕ)
        → start ≤ length text
        → length text < start + fuel
        → (ws : List Window) × (paragraph_windows chars isupper text options fuel start ≡ some ws)
          × Parted start ws
    unfolding paragraph_windows
    paragraph_windows-Parted zero start le lt = absurd (omega (arith, le, lt))
    paragraph_windows-Parted (suc fuel) start le lt = elim (Bool-cases (leb (length text) start)) [
      | inl e ↦ ([], rw e refl, omega (arith, le, leb→le (length text) start e))
      | inr e ↦
          let b = paragraph_end-bounds start (ground (arith, e)) in
          let end = paragraph_end chars isupper text options start in
          let (ws, found, parted) =
            paragraph_windows-Parted fuel end b.1 (omega (arith, b.0, lt)) in
          (window start end ∷ ws, rw (e, found) refl, (refl, b.0, b.2, parted))
    ]

-- What of a text is not whitespace.
abbrev pub visible : CharTests → List ℕ → List ℕ
visible chars s = filter (λ c. not (chars.isspace c)) s

drop_nil : (n : ℕ) → drop {A = ℕ} n [] ≡ []
drop_nil zero = refl
drop_nil (suc n) = refl

drop-drop : (m n : ℕ) (xs : List ℕ) → drop m (drop n xs) ≡ drop (n + m) xs
drop-drop m zero xs = rw (the_sum m) refl
  where
    the_sum : (k : ℕ) → 0 + k ≡ k
    the_sum k = omega arith
drop-drop m (suc n) [] = drop_nil m ∙ sym (drop_nil (suc n + m))
drop-drop m (suc n) (x ∷ xs) =
    let more : suc n + m ≡ suc (n + m) = omega arith in rw more (drop-drop m n xs)

slice-append-drop : (a e : ℕ) (text : List ℕ) → a ≤ e → slice a e text ++ drop e text ≡ drop a text
slice-append-drop a e text h =
    let split = take-append-drop (e - a) (drop a text) in
    let there : a + (e - a) ≡ e = omega (arith, h) in rw (drop-drop (e - a) a text, there) at split

drop_all : (xs : List ℕ) → drop (length xs) xs ≡ []
drop_all [] = refl
drop_all (x ∷ xs) = drop_all xs

module _ (chars : CharTests) where
  visible-skip_space : (s : List ℕ) → visible chars (skip_space chars s) ≡ visible chars s
  visible-skip_space [] = refl
  visible-skip_space (c ∷ cs) = elim (Bool-cases (chars.isspace c)) [
    | inl e ↦ rw e (visible-skip_space cs)
    | inr e ↦ ground (arith, e)
  ]

  visible-drop_space : (s : List ℕ) → visible chars (drop_space chars s) ≡ visible chars s
  unfolding drop_space
  visible-drop_space [] = refl
  visible-drop_space (c ∷ cs) = ground (arith, visible-drop_space cs)

  length-drop_space : (s : List ℕ) → length (drop_space chars s) ≤ length s
  unfolding drop_space
  length-drop_space [] = omega arith
  length-drop_space (c ∷ cs) = ground (arith, length-drop_space cs)

  length-skip_space : (s : List ℕ) → length (skip_space chars s) ≤ length s
  length-skip_space [] = omega arith
  length-skip_space (c ∷ cs) = elim (Bool-cases (chars.isspace c)) [
    | inl e ↦ rw e (omega (arith, length-skip_space cs))
    | inr e ↦ rw e (omega arith)
  ]

  visible-strip : (s : List ℕ) → visible chars (strip chars s) ≡ visible chars s
  unfolding strip
  visible-strip s = visible-drop_space (skip_space chars s) ∙ visible-skip_space s

  length-strip : (s : List ℕ) → length (strip chars s) ≤ length s
  unfolding strip
  length-strip s = omega (arith, length-drop_space (skip_space chars s), length-skip_space s)

  visible-blank : (s : List ℕ) → is_blank chars s ≡ true → visible chars s ≡ []
  visible-blank [] h = refl
  visible-blank (c ∷ cs) h = ground (arith, visible-blank cs)

abbrev pub contents : List TypedChunk → List ℕ
contents rs = concat (map (λ (r : TypedChunk). r.content) rs)

-- The content is no longer than the larger of the target and the maximum.
abbrev pub Fits : BlockAwareOptions → TypedChunk → Type 0
Fits options r = length r.content ≤ max options.target_chars options.max_chars

module _ (chars : CharTests) (isupper : ℕ → Bool) (text : List ℕ) (options : BlockAwareOptions)
    (some_target : 1 ≤ options.target_chars) where
  nothing_visible : (s : List ℕ) → is_nil (strip chars s) ≡ true → visible chars s ≡ []
  nothing_visible s h =
      sym (visible-strip chars s) ∙ ap (visible chars) (none_left (strip chars s) h)
    where
      none_left : (t : List ℕ) → is_nil t ≡ true → t ≡ []
      none_left [] e = refl
      none_left (c ∷ t) e = cc

  paragraph_records-visible :
      (index a : ℕ) (ws : List Window)
      → Parted chars isupper text options some_target a ws
      → visible chars (contents (paragraph_records chars isupper text index ws))
        ≡ visible chars (drop a text)
  unfolding paragraph_records
  paragraph_records-visible index a [] h = rw (h, drop_all text) refl
  paragraph_records-visible index a (w ∷ ws) (e, lt, le, rest) =
      let p = λ (c : ℕ). not (chars.isspace c) in
      let body = slice w.start w.end text in
      let whole : visible chars body ++ visible chars (drop w.end text)
          ≡ visible chars (drop a text) =
        sym (filter-append p body (drop w.end text))
        ∙ ap (visible chars) (rw e (slice-append-drop a w.end text (omega (arith, lt)))) in
      elim (Bool-cases (is_nil (strip chars body))) [
        | inl f ↦ rw f (
            paragraph_records-visible index w.end ws rest
            ∙ sym (ap (λ z. z ++ visible chars (drop w.end text)) (nothing_visible body f))
            ∙ whole)
        | inr f ↦ rw f (
            filter-append p (strip chars body)
              (contents (paragraph_records chars isupper text (index + 1) ws))
            ∙ ap
                (λ z.
                  z
                  ++ visible chars (contents (paragraph_records chars isupper text (index + 1) ws)))
                (visible-strip chars body)
            ∙ ap (λ z. visible chars body ++ z)
                (paragraph_records-visible (index + 1) w.end ws rest)
            ∙ whole)
      ]

  paragraph_records-Fits :
      (index a : ℕ) (ws : List Window)
      → Parted chars isupper text options some_target a ws
      → All (Fits options) (paragraph_records chars isupper text index ws)
  unfolding paragraph_records
  paragraph_records-Fits index a [] h = tt
  paragraph_records-Fits index a (w ∷ ws) (e, lt, le, rest) =
      let body = slice w.start w.end text in
      let fits : length (strip chars body) ≤ max options.target_chars options.max_chars = omega (
        arith,
        length-strip chars body,
        length-take (w.end - w.start) (drop w.start text),
        e,
        le,
      ) in
      elim (Bool-cases (is_nil (strip chars body))) [
        | inl f ↦ rw f (paragraph_records-Fits index w.end ws rest)
        | inr f ↦ rw f (fits, paragraph_records-Fits (index + 1) w.end ws rest)
      ]

  -- With a target of at least one character, `_chunk_paragraph` returns; the contents of its chunks,
  -- in order, have the characters of the paragraph that are not whitespace, each once; and none is
  -- longer than the larger of the target and the maximum.
  pub chunk_paragraph_lem :
      (out : List TypedChunk) × (chunk_paragraph chars isupper text options ≡ some out)
      × (visible chars (contents out) ≡ visible chars text)
      × All (Fits options) out
  unfolding chunk_paragraph
  chunk_paragraph_lem = elim (Bool-cases (is_blank chars text)) [
    | inl e ↦ ([], rw e refl, sym (visible-blank chars text e), tt)
    | inr e ↦ elim (Bool-cases (leb (length text) options.max_chars)) [
      | inl f ↦ (
        plain_chunk text 0 ∷ [],
        rw (e, f) refl,
        ap (visible chars) (append_nil text),
        (omega (arith, leb→le (length text) options.max_chars f), tt),
      )
      | inr f ↦
          let (ws, found, parted) =
            paragraph_windows-Parted chars isupper text options some_target (length text + 1) 0
              (omega arith) (omega arith) in
          (
            paragraph_records chars isupper text 0 ws,
            rw (e, f, found, chunk_paragraph) refl,
            paragraph_records-visible 0 0 ws parted,
            paragraph_records-Fits 0 0 ws parted,
          )
    ]
  ]
