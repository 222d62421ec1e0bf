-- ===== src/Chunker/Plain.antt =====
-- The normalisation of a text without URLs, and the chunks of such a text.
use flavor_rag.Prelude.{
  ℕ, suc, zero, List, none, some, true, false, ◌&&◌, not, eqb, ◌+◌, ◌≤◌, ◌<◌, ◌≡◌, length, [], ◌∷◌,
  ◌++◌, drop, filter, get_elem?, Bool-cases, inl, inr, arith, refl, ◌∙◌, sym, ap, Option-cases,
  Member, Member→filter, Member-filter, Member→get_elem?, ◌⊎◌, append_assoc, filter-append,
}
use flavor_rag.Chunker.Chars.{CharTests, is_blank}
use flavor_rag.Prelude.{eqb→eq, All-member, all→All, subst}
use flavor_rag.Prelude.Int.{ℤ, pos}
use flavor_rag.Chunker.Fixed.{ChunkRecord}
use flavor_rag.Chunker.Coverage.{chunk_windows_lem}
use flavor_rag.Chunker.Normalize.{
  Scan, before, round, scan, looks_like_url_start, is_cjk_word_char, normalize_text,
  without_returns, fixed_chunk,
}

-- Nowhere in the text does a URL begin.
abbrev pub NoUrl : List ℕ → Type 0
NoUrl src = (i : ℕ) → looks_like_url_start (drop i src) ≡ false

-- The text without its line breaks.
abbrev pub unbroken : List ℕ → List ℕ
unbroken text = filter (λ c. not (eqb c 10)) text

append_nil : (xs : List ℕ) → xs ++ [] ≡ xs
append_nil [] = refl
append_nil (x ∷ xs) = ap (◌∷◌ x) (append_nil xs)

drop-get-none : (i : ℕ) (xs : List ℕ) → get_elem? xs i ≡ none → drop i xs ≡ []
drop-get-none zero [] h = refl
drop-get-none (suc i) [] h = refl
drop-get-none zero (x ∷ xs) h = cc h
drop-get-none (suc i) (x ∷ xs) h = drop-get-none i xs h

drop-get-some : (i c : ℕ) (xs : List ℕ) → get_elem? xs i ≡ some c → drop i xs ≡ c ∷ drop (suc i) xs
drop-get-some i c [] h = cc h
drop-get-some zero c (x ∷ xs) h = ap (λ y. y ∷ xs) (ground (arith, h))
drop-get-some (suc i) c (x ∷ xs) h = drop-get-some i c xs h

get-lt : (i c : ℕ) (xs : List ℕ) → get_elem? xs i ≡ some c → i < length xs
get-lt i c [] h = cc h
get-lt zero c (x ∷ xs) h = omega arith
get-lt (suc i) c (x ∷ xs) h = omega (arith, get-lt i c xs h)

module _ (chars : CharTests) (src : List ℕ) (plain : NoUrl src) where
  abbrev outside : ℕ → List ℕ → Scan chars
  outside i out = record { i = i; in_url = false; out = out }

  -- A round takes one character, or leaves it out if it is a line break.
  round-outside :
      (i c : ℕ) (out : List ℕ)
      → (round chars src (outside i out) c ≡ outside (i + 1) (out ++ c ∷ []))
        ⊎ ((round chars src (outside i out) c ≡ outside (i + 1) out) × (c ≡ 10))
  unfolding round
  round-outside i c out =
      rw (plain i)
        (elim (Bool-cases (
          eqb c 10
          && is_cjk_word_char chars (before chars src i)
          && is_cjk_word_char chars (get_elem? src (i + 1)))) [
            | inl e ↦ inr (rw e refl, ground arith)
            | inr e ↦ inl (rw e refl)
          ])

  unbroken_newline :
      (i c : ℕ)
      → get_elem? src i ≡ some c
      → c ≡ 10
      → unbroken (drop i src) ≡ unbroken (drop (i + 1) src)
  unbroken_newline i c at e =
      let plus : i + 1 ≡ suc i = omega arith in rw (drop-get-some i c src at, plus, e) refl

  unbroken_next :
      (i c : ℕ) (out : List ℕ)
      → get_elem? src i ≡ some c
      → unbroken (out ++ c ∷ []) ++ unbroken (drop (i + 1) src)
        ≡ unbroken out ++ unbroken (drop i src)
  unbroken_next i c out at =
      let plus : i + 1 ≡ suc i = omega arith in
      rw (drop-get-some i c src at, plus, filter-append (λ c. not (eqb c 10)) out (c ∷ []))
        (append_assoc (unbroken out) (unbroken (c ∷ [])) (unbroken (drop (suc i) src))
          ∙ ap (λ z. unbroken out ++ z)
              (sym (filter-append (λ c. not (eqb c 10)) (c ∷ []) (drop (suc i) src))))

  scan-outside :
      (fuel i : ℕ) (out : List ℕ)
      → i ≤ length src
      → length src < i + fuel
      → (final : List ℕ) × (scan chars fuel src (outside i out) ≡ some final)
        × (unbroken final ≡ unbroken out ++ unbroken (drop i src))
  unfolding scan
  scan-outside zero i out le enough = absurd (omega arith)
  scan-outside (suc fuel) i out le enough = elim (Option-cases (get_elem? src i)) [
    | inl e ↦ (out, rw (e, scan) refl, rw (drop-get-none i src e) (sym (append_nil (unbroken out))))
    | inr (c, e) ↦ elim (round-outside i c out) [
      | inl r ↦
          let (final, runs, same) =
            scan-outside fuel (i + 1) (out ++ c ∷ []) (omega (arith, get-lt i c src e))
              (omega arith) in
          (final, rw (e, scan, r) runs, same ∙ unbroken_next i c out e)
      | inr (r, newline) ↦
          let (final, runs, same) =
            scan-outside fuel (i + 1) out (omega (arith, get-lt i c src e)) (omega arith) in
          (
            final,
            rw (e, scan, r) runs,
            same ∙ ap (λ z. unbroken out ++ z) (sym (unbroken_newline i c e newline)),
          )
    ]
  ]

-- On a text in which no URL begins the normalisation ends, in at most one round more than the text has
-- characters, and takes nothing but line breaks away; carriage returns are removed before.
pub normalize_text-NoUrl :
    (chars : CharTests) (text : List ℕ)
    → NoUrl (without_returns chars text)
    → (out : List ℕ) × (normalize_text chars (length (without_returns chars text) + 1) text
        ≡ some out)
      × (unbroken out ≡ unbroken (without_returns chars text))
unfolding normalize_text
normalize_text-NoUrl chars text plain =
    let (out, runs, same) =
      scan-outside chars (without_returns chars text) plain
        (length (without_returns chars text) + 1) 0 [] (omega arith) (omega arith) in
    (out, runs, same)

not_equal : (c d : ℕ) → (c ≡ d → ⊥) → not (eqb c d) ≡ true
not_equal c d h = elim (Bool-cases (eqb c d)) [
  | inl e ↦ absurd (h (eqb→eq c d e))
  | inr e ↦ rw e refl
]

normalized-keeps :
    (chars : CharTests) (text out : List ℕ) (c : ℕ)
    → unbroken out ≡ unbroken (without_returns chars text)
    → chars.isspace 10 ≡ true
    → chars.isspace 13 ≡ true
    → chars.isspace c ≡ false
    → Member c text
    → Member c out
normalized-keeps chars text out c same nl cr visible m =
    let a = Member→filter (λ c. not (eqb c 13)) c text m (not_equal c 13 (λ e. cc)) in
    let b =
      Member→filter (λ c. not (eqb c 10)) c (without_returns chars text) a
        (not_equal c 10 (λ e. cc)) in
    Member-filter (λ c. not (eqb c 10)) c out (subst (Member c) (sym same) b)

-- The chunker as a whole, on a text in which no URL begins and for a chunk size that is not negative: it
-- returns, and every character of the text that is not whitespace is in one of the chunks.
pub fixed_chunk-NoUrl :
    (chars : CharTests) (n : ℕ) (overlap_size : ℤ) (text : List ℕ)
    → chars.isspace 10 ≡ true
    → chars.isspace 13 ≡ true
    → NoUrl (without_returns chars text)
    → (out : List ChunkRecord) × (fixed_chunk chars
          (length (without_returns chars text) + 1)
          (pos n)
          overlap_size
          text
        ≡ some out)
      × ((c : ℕ)
          → Member c text
          → chars.isspace c ≡ false
          → (r : ChunkRecord) × Member r out × ((k : ℕ) × (get_elem? r.content k ≡ some c)))
unfolding fixed_chunk
fixed_chunk-NoUrl chars n overlap_size text nl cr plain = elim (Bool-cases (is_blank chars text)) [
  | inl e ↦ ([], rw e refl, λ c m v. absurd (cc (blank_member c m e)))
  | inr e ↦
      let (normalized, runs, same) = normalize_text-NoUrl chars text plain in
      let (out, cut, numbered, sized, holds) =
        chunk_windows_lem chars (pos n) overlap_size normalized in
      (
        out,
        rw (e, runs) cut,
        λ c m v.
            let (i, h) =
              Member→get_elem? c normalized
                (normalized-keeps chars text normalized c same nl cr v m) in
            holds i c h v,
      )
]
  where
    blank_member : (c : ℕ) → Member c text → is_blank chars text ≡ true → chars.isspace c ≡ true
    blank_member c m e =
        All-member (λ c. chars.isspace c ≡ true) text (all→All (λ c. chars.isspace c) text e) c m
