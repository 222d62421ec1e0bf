-- ===== src/Chunker/Coverage.antt =====
-- The chunks that the windows become: nothing to be read is lost, and no chunk is too long.
use flavor_rag.Prelude.{
  ℕ, suc, zero, List, none, some, true, false, ltb, ◌+◌, ◌-◌, ◌≤◌, ◌<◌, ◌≡◌, length, length-take,
  [], ◌∷◌, take, drop, get_elem?, All, Member, arith, Bool-cases, inl, inr, refl, ◌∙◌, sym, ap,
}
use flavor_rag.Prelude.Int.{ℤ, pos, negsuc}
use flavor_rag.Chunker.Chars.{CharTests, slice, is_blank}
use flavor_rag.Chunker.Fixed.{
  Window, ChunkRecord, records, windows, size_of, overlap_of, chunk_windows,
}
use flavor_rag.Chunker.Windows.{Tiles, windows-Tiles}

module _ {A : Type 0} where
  get_elem?-drop : (n k : ℕ) (xs : List A) → get_elem? (drop n xs) k ≡ get_elem? xs (n + k)
  get_elem?-drop zero k xs = let n : k ≡ 0 + k = omega arith in ap (get_elem? xs) n
  get_elem?-drop (suc n) k [] = refl
  get_elem?-drop (suc n) k (x ∷ xs) =
      let m : suc (n + k) ≡ suc n + k = omega arith in
      get_elem?-drop n k xs ∙ ap (get_elem? (x ∷ xs)) m

  get_elem?-take : (n k : ℕ) (xs : List A) → k < n → get_elem? (take n xs) k ≡ get_elem? xs k
  get_elem?-take zero k xs h = absurd (omega arith)
  get_elem?-take (suc n) k [] h = refl
  get_elem?-take (suc n) zero (x ∷ xs) h = refl
  get_elem?-take (suc n) (suc k) (x ∷ xs) h = get_elem?-take n k xs (omega arith)

  get_elem?-lt : (xs : List A) (k : ℕ) (x : A) → get_elem? xs k ≡ some x → k < length xs
  get_elem?-lt [] k x h = cc h
  get_elem?-lt (y ∷ xs) zero x h = omega arith
  get_elem?-lt (y ∷ xs) (suc k) x h = omega (arith, get_elem?-lt xs k x h)

get_elem?-slice :
    (s e i : ℕ) (text : List ℕ)
    → s ≤ i
    → i < e
    → get_elem? (slice s e text) (i - s) ≡ get_elem? text i
get_elem?-slice s e i text h k =
    let n : s + (i - s) ≡ i = omega arith in
    get_elem?-take (e - s) (i - s) (drop s text) (omega arith)
    ∙ get_elem?-drop s (i - s) text
    ∙ ap (get_elem? text) n

-- The chunks are numbered one after the other.
abbrev pub Numbered : ℕ → List ChunkRecord → Type 0
Numbered index [] = Unit
Numbered index (r ∷ rs) = (r.chunk_index ≡ index) × Numbered (index + 1) rs

module _ (chars : CharTests) where
  all_blank :
      (text : List ℕ) (k c : ℕ)
      → is_blank chars text ≡ true
      → get_elem? text k ≡ some c
      → chars.isspace c ≡ true
  all_blank [] k c h g = cc g
  all_blank (d ∷ text) zero c h g = ground (arith, g)
  all_blank (d ∷ text) (suc k) c h g = all_blank text k c (ground arith) g

  module _ (text : List ℕ) where
    records-Numbered : (index : ℕ) (ws : List Window) → Numbered index (records chars text index ws)
    unfolding records
    records-Numbered index [] = tt
    records-Numbered index (w ∷ ws) =
        elim (Bool-cases (is_blank chars (slice w.start w.end text))) [
          | inl e ↦ rw e (records-Numbered index ws)
          | inr e ↦ rw e (refl, records-Numbered (index + 1) ws)
        ]

    abbrev pub Holds : List ChunkRecord → ℕ → Type 0
    Holds out c = (r : ChunkRecord) × Member r out × ((k : ℕ) × (get_elem? r.content k ≡ some c))

    records-Holds :
        (index : ℕ) (ws : List Window) (w : Window) (k c : ℕ)
        → Member w ws
        → get_elem? (slice w.start w.end text) k ≡ some c
        → chars.isspace c ≡ false
        → Holds (records chars text index ws) c
    unfolding records
    records-Holds index [] w k c m g visible = absurd m
    records-Holds index (v ∷ ws) w k c (inl same) g visible =
        elim (Bool-cases (is_blank chars (slice v.start v.end text))) [
          | inl e ↦ absurd (cc (all_blank (slice w.start w.end text) k c (rw same e) g))
          | inr e ↦ rw e (
            record { content = slice v.start v.end text; chunk_index = index },
            inl refl,
            (k, rw (sym same) g),
          )
        ]
    records-Holds index (v ∷ ws) w k c (inr m) g visible =
        elim (Bool-cases (is_blank chars (slice v.start v.end text))) [
          | inl e ↦ rw e (records-Holds index ws w k c m g visible)
          | inr e ↦
              let (r, n, h) = records-Holds (index + 1) ws w k c m g visible in rw e (r, inr n, h)
        ]

    module _ (chunk_size overlap : ℕ) (smaller : overlap < chunk_size) where
      abbrev pub Sized : ChunkRecord → Type 0
      Sized r = (length r.content ≤ chunk_size) × (is_blank chars r.content ≡ false)

      records-Sized :
          (index start covered : ℕ) (ws : List Window)
          → Tiles chars text chunk_size overlap smaller start covered ws
          → All Sized (records chars text index ws)
      unfolding records
      records-Sized index start covered [] t = tt
      records-Sized index start covered (w ∷ ws) (a, b, c, d, within, f, rest) =
          elim (Bool-cases (is_blank chars (slice w.start w.end text))) [
            | inl e ↦ rw e (records-Sized index (w.start + 1) w.end ws rest)
            | inr e ↦ rw e (
              (omega (arith, length-take (w.end - w.start) (drop w.start text)), e),
              records-Sized (index + 1) (w.start + 1) w.end ws rest,
            )
          ]

      covering :
          (start covered i : ℕ) (ws : List Window)
          → Tiles chars text chunk_size overlap smaller start covered ws
          → covered ≤ i
          → i < length text
          → (w : Window) × Member w ws × (w.start ≤ i) × (i < w.end)
      covering start covered i [] t h k = absurd (omega arith)
      covering start covered i (w ∷ ws) (a, b, c, d, e, f, rest) h k =
          elim (Bool-cases (ltb i w.end)) [
            | inl e ↦ (w, inl refl, omega arith, ground arith)
            | inr e ↦
                let (v, m, x, y) = covering (w.start + 1) w.end i ws rest (ground arith) k in
                (v, inr m, x, y)
          ]

overlap-lt-size :
    (chunk_size overlap_size : ℤ)
    → overlap_of (size_of chunk_size) overlap_size < size_of chunk_size
overlap-lt-size (pos n) (pos m) = ground arith
overlap-lt-size (pos n) (negsuc m) = ground arith
overlap-lt-size (negsuc n) (pos m) = omega arith
overlap-lt-size (negsuc n) (negsuc m) = omega arith

pub chunk_windows_lem :
    (chars : CharTests) (chunk_size overlap_size : ℤ) (text : List ℕ)
    → (out : List ChunkRecord) × (chunk_windows chars chunk_size overlap_size text ≡ some out)
      × Numbered 0 out
      × All (λ r. (length r.content ≤ size_of chunk_size) × (is_blank chars r.content ≡ false)) out
      × ((i c : ℕ)
          → get_elem? text i ≡ some c
          → chars.isspace c ≡ false
          → (r : ChunkRecord) × Member r out × ((k : ℕ) × (get_elem? r.content k ≡ some c)))
unfolding chunk_windows windows records
chunk_windows_lem chars chunk_size overlap_size [] = ([], refl, tt, tt, λ i c h v. cc h)
chunk_windows_lem chars chunk_size overlap_size (x ∷ xs) =
    let text = x ∷ xs in
    let smaller = overlap-lt-size chunk_size overlap_size in
    let overlap = overlap_of (size_of chunk_size) overlap_size in
    let (ws, runs, tiles) =
      windows-Tiles chars text (size_of chunk_size) overlap smaller (length text + 1) 0 0 none refl
        (omega arith) (omega arith) (omega arith) (omega arith) in
    (
      records chars text 0 ws,
      rw (chunk_windows, runs) refl,
      records-Numbered chars text 0 ws,
      records-Sized chars text (size_of chunk_size) overlap smaller 0 0 0 ws tiles,
      λ i c h visible.
          let (w, m, a, b) =
            covering chars text (size_of chunk_size) overlap smaller 0 0 i ws tiles (omega arith)
              (get_elem?-lt text i c h) in
          records-Holds chars text 0 ws w (i - w.start) c m
            (get_elem?-slice w.start w.end i text a b ∙ h) visible,
    )
