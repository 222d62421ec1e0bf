-- ===== src/Chunker/Windows.antt =====
-- The windows of the loop: it ends, and where the windows lie.
use flavor_rag.Prelude.{
  ℕ, suc, zero, List, Bool, Option, none, some, true, false, if◌then◌else◌, leb, ◌+◌, ◌-◌, ◌≤◌, ◌<◌,
  ◌≡◌, min, length, [], ◌∷◌, arith, Bool-cases, inl, inr, refl, ◌||◌, lt→ltb, leb→le,
}
use flavor_rag.Chunker.Chars.{CharTests, char_is}
use flavor_rag.Chunker.Fixed.{
  Window, look_back, first_of, is_newline, ends_cjk, english_end, adjust_to_boundary, not_past,
  window_end, next_start, windows,
}

look_back_bounds :
    (test : ℕ → Bool) (start limit n i : ℕ)
    → look_back test start limit n ≡ some i
    → (start < i) × (i ≤ limit)
unfolding look_back
look_back_bounds test start limit zero i h = cc
look_back_bounds test start limit (suc n) i h = elim (Bool-cases (leb (limit - 1) start)) [
  | inl e ↦ cc (rw e at h)
  | inr e ↦ elim (Bool-cases (test (limit - 1))) [
    | inl f ↦
        let found : some (limit - 1 + 1) ≡ some i = rw (e, f) at h in
        (ground (arith, found), ground (arith, found))
    | inr f ↦
        let b = look_back_bounds test start (limit - 1) n i (rw (e, f) at h) in
        (b.0, omega (arith, b))
  ]
]

gt→leb : (a b : ℕ) → b < a → leb a b ≡ false
gt→leb a b h = ground arith

either :
    {start limit a b : ℕ} (c : Bool)
    → (start < b) × (b ≤ limit)
    → (start < a) × (a ≤ limit)
    → (start < (if c then a else b)) × ((if c then a else b) ≤ limit)
either true h k = k
either false h k = h

module _ (chars : CharTests) (text : List ℕ) where
  first_of_bounds :
      (o : Option ℕ) (d start limit : ℕ)
      → ((i : ℕ) → o ≡ some i → (start < i) × (i ≤ limit))
      → (start < d) × (d ≤ limit)
      → (start < first_of o d) × (first_of o d ≤ limit)
  first_of_bounds none d start limit f h = h
  first_of_bounds (some i) d start limit f h = f i refl

  adjust_bounds :
      (start target overlap : ℕ)
      → start < target
      → (start < adjust_to_boundary chars text start target overlap)
        × (adjust_to_boundary chars text start target overlap ≤ target)
  unfolding adjust_to_boundary
  adjust_bounds start target overlap h =
      let n = min overlap (target - start) in
      let at_target : (start < target) × (target ≤ target) = (h, omega arith) in
      let english =
        first_of_bounds (look_back (english_end chars text) start target n) target start target
          (look_back_bounds (english_end chars text) start target n) at_target in
      let cjk =
        first_of_bounds (look_back (char_is ends_cjk text) start target n) _ start target
          (look_back_bounds (char_is ends_cjk text) start target n) english in
      let newline =
        first_of_bounds (look_back (char_is is_newline text) start target n) _ start target
          (look_back_bounds (char_is is_newline text) start target n) cjk in
      rw (gt→leb target start h) (either (leb n 0) newline at_target)

  module _ (chunk_size overlap : ℕ) (smaller : overlap < chunk_size) where
    -- The windows of a text that is covered up to `covered`, the next of them at `start` or later: each
    -- begins after the one before it and where the text is covered, at most the overlap before the end of
    -- the covered part; it reaches further, stays in the text and has at most the chunk size; and at the
    -- end the whole text is covered.
    abbrev pub Tiles : ℕ → ℕ → List Window → Type 0
    Tiles start covered [] = length text ≤ covered
    Tiles start covered (w ∷ ws) =
        (start ≤ w.start)
        × (w.start ≤ covered)
        × (covered ≤ w.start + overlap)
        × (covered < w.end)
        × (w.end ≤ w.start + chunk_size)
        × (w.end ≤ length text)
        × Tiles (w.start + 1) w.end ws

    -- The end of the last window, where -1 counts as 0.
    abbrev pub Ends : Option ℕ → ℕ → Type 0
    Ends none covered = covered ≡ 0
    Ends (some e) covered = covered ≡ e

    chosen :
        (start covered target e : ℕ) (last_end : Option ℕ)
        → Ends last_end covered
        → start ≤ covered
        → covered < target
        → (start < e) × (e ≤ target)
        → let r = if leb e start || not_past chars text e last_end then target else e in
          (start < r) × (covered < r) × (r ≤ target)
    chosen start covered target e none ends le ahead b = ground (arith, b)
    chosen start covered target e (some l) ends le ahead b = ground (arith, b)

    le_trans : {a b c : ℕ} → a ≤ b → b ≤ c → a ≤ c
    le_trans h k = omega (arith, h, k)

    window_end_bounds :
        (start covered : ℕ) (last_end : Option ℕ)
        → Ends last_end covered
        → start ≤ covered
        → covered ≤ start + overlap
        → covered < length text
        → (start < window_end chars text chunk_size overlap start last_end)
          × (covered < window_end chars text chunk_size overlap start last_end)
          × (window_end chars text chunk_size overlap start last_end ≤ start + chunk_size)
          × (window_end chars text chunk_size overlap start last_end ≤ length text)
    unfolding window_end
    window_end_bounds start covered last_end ends le near more =
        let target = min (start + chunk_size) (length text) in
        let ahead : covered < target = omega (arith, smaller) in
        let b = adjust_bounds start target overlap (omega arith) in
        let r =
          chosen start covered target (adjust_to_boundary chars text start target overlap) last_end
            ends le ahead b in
        (r.0, r.1, le_trans r.2 (omega arith), le_trans r.2 (omega arith))

    next_start_bounds :
        (start end : ℕ)
        → start < end
        → (start < next_start chars text chunk_size overlap start end)
          × (next_start chars text chunk_size overlap start end ≤ end)
          × (end ≤ next_start chars text chunk_size overlap start end + overlap)
    unfolding next_start
    next_start_bounds start end h = ground arith

    Tiles-later :
        (start later covered : ℕ) (ws : List Window)
        → start ≤ later
        → Tiles later covered ws
        → Tiles start covered ws
    Tiles-later start later covered [] h t = t
    Tiles-later start later covered (w ∷ ws) h (a, b, c, d, e, f, g) =
        (le_trans h a, b, c, d, e, f, g)

    pub windows-Tiles :
        (fuel start covered : ℕ) (last_end : Option ℕ)
        → Ends last_end covered
        → start ≤ covered
        → covered ≤ start + overlap
        → covered < length text
        → length text ≤ start + fuel
        → (ws : List Window) × (windows chars text chunk_size overlap fuel start last_end ≡ some ws)
          × Tiles start covered ws
    unfolding windows next_start
    windows-Tiles zero start covered last_end ends le near more enough = absurd (omega arith)
    windows-Tiles (suc fuel) start covered last_end ends le near more enough =
        let end = window_end chars text chunk_size overlap start last_end in
        let b = window_end_bounds start covered last_end ends le near more in
        elim (Bool-cases (leb (length text) end)) [
          | inl e ↦ (
            record { start = start; end = end } ∷ [],
            rw (lt→ltb start (length text) (omega arith), e) refl,
            (omega arith, le, near, b.1, b.2, b.3, leb→le _ _ e),
          )
          | inr e ↦
              let n = next_start_bounds start end b.0 in
              let (ws, runs, tiles) =
                windows-Tiles fuel (next_start chars text chunk_size overlap start end) end
                  (some end) refl n.1 n.2 (ground (arith, e)) (omega (arith, n.0)) in
              (
                record { start = start; end = end } ∷ ws,
                rw (lt→ltb start (length text) (omega arith), e, runs) refl,
                (
                  omega arith,
                  le,
                  near,
                  b.1,
                  b.2,
                  b.3,
                  Tiles-later _ _ end ws (omega (arith, n.0)) tiles,
                ),
              )
        ]

    -- The loop on a text that is not empty ends within as many rounds as the text has characters. Its
    -- windows cover the text from the first character to the last, in order and without a gap; each is
    -- not empty, has at most the chunk size, begins after the one before it and overlaps the covered
    -- text by at most the overlap, which is smaller than the chunk size.
    pub windows_lem :
        0 < length text
        → (ws : List Window) × (windows chars text chunk_size overlap (length text) 0 none
            ≡ some ws)
          × Tiles 0 0 ws
    windows_lem more =
        windows-Tiles (length text) 0 0 none refl (omega arith) (omega arith) more (omega arith)
