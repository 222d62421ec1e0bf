-- ===== src/Chunker/Stuck.antt =====
-- When the normalisation ends: never on a URL that it wants to join, always on a text without URLs.
use flavor_rag.Prelude.{
  ℕ, suc, zero, List, none, some, true, false, ◌+◌, ◌-◌, ◌≡◌, [], ◌∷◌, drop, get_elem?, arith, refl,
  ap,
}
use flavor_rag.Chunker.Chars.{CharTests}
use flavor_rag.Chunker.Normalize.{
  Scan, before, round, scan, scan_spaces, url_space, should_join_broken_url,
}

module _ (chars : CharTests) (src : List ℕ) where
  -- At the position is a line break, and the next line goes on with a URL that stands before it.
  pub record Broken (i : ℕ) : Type 0 where
    pub after : List ℕ
    pub next : ℕ
    pub here : drop i src ≡ 10 ∷ next ∷ after
    pub breaks : chars.isspace 10 ≡ true
    pub goes_on : chars.isspace next ≡ false
    pub joins : should_join_broken_url chars (before chars src i) (some next) (next ∷ after) ≡ true

  -- The scan at the position, inside a URL.
  abbrev pub in_url_at : ℕ → List ℕ → Scan chars
  in_url_at i out = record { i = i; in_url = true; out = out }

  get-drop :
      (i : ℕ) (c : ℕ) (s : List ℕ) (xs : List ℕ) → drop i xs ≡ c ∷ s → get_elem? xs i ≡ some c
  get-drop zero c s [] h = cc h
  get-drop zero c s (x ∷ xs) h = cc h
  get-drop (suc i) c s [] h = cc h
  get-drop (suc i) c s (x ∷ xs) h = get-drop i c s xs h

  drop-suc : (i : ℕ) (c : ℕ) (s : List ℕ) (xs : List ℕ) → drop i xs ≡ c ∷ s → drop (suc i) xs ≡ s
  drop-suc zero c s [] h = cc h
  drop-suc zero c s (x ∷ xs) h = cc h
  drop-suc (suc i) c s [] h = cc h
  drop-suc (suc i) c s (x ∷ xs) h = drop-suc i c s xs h

  scan_spaces-Broken : (i : ℕ) (b : Broken i) → scan_spaces chars (drop i src) ≡ (1, 1)
  unfolding scan_spaces
  scan_spaces-Broken i b = rw (b.here, b.breaks, b.goes_on) refl

  url_space-Broken :
      (i : ℕ) (out : List ℕ) → Broken i → url_space chars src (in_url_at i out) ≡ in_url_at i out
  unfolding url_space
  url_space-Broken i out b =
      let plus : i + 1 ≡ suc i = omega arith in
      let rest : drop (i + 1) src ≡ b.next ∷ b.after =
        rw plus (drop-suc i 10 (b.next ∷ b.after) src b.here) in
      let next_at : get_elem? src (i + 1) ≡ some b.next =
        rw plus
          (get-drop (suc i) b.next b.after src (drop-suc i 10 (b.next ∷ b.after) src b.here)) in
      let back : i + 1 - 1 ≡ i = omega arith in
      rw (scan_spaces-Broken i b, next_at, rest, b.joins) (ap (λ k. in_url_at k out) back)

  round-Broken :
      (i : ℕ) (out : List ℕ) → Broken i → round chars src (in_url_at i out) 10 ≡ in_url_at i out
  unfolding round
  round-Broken i out b = rw b.breaks (url_space-Broken i out b)

  -- A scan that comes to a line break inside a URL, which it joins with the next line, stays there: it
  -- never ends, however long it runs.
  pub scan-Broken :
      (fuel i : ℕ) (out : List ℕ) → Broken i → scan chars fuel src (in_url_at i out) ≡ none
  unfolding scan
  scan-Broken zero i out b = refl
  scan-Broken (suc fuel) i out b =
      rw (get-drop i 10 (b.next ∷ b.after) src b.here, scan, round-Broken i out b)
        (scan-Broken fuel i out b)
