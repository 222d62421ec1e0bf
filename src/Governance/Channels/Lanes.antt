-- ===== src/Governance/Channels/Lanes.antt =====
-- One round of the loop that shares the candidate budget among the channels: what it grants, and how
-- the lanes stand after it.
use flavor_rag.Prelude.{
  ℕ, zero, suc, ◌+◌, ◌-◌, ◌≤◌, ◌<◌, ◌≡◌, refl, ap, true, false, List, [], ◌∷◌, ◌++◌, map, some,
  String, get_elem?, length, take, arith, All, ◌⊎◌, inl, inr, Bool-cases, length-take,
  length-append,
}
use flavor_rag.Governance.Channels.Defs.{Lane, grant, can_grant, sweep}

module _ {A : Type 0} where
  -- The lane has been given its first `r` results, or all of them.
  abbrev pub Level : ℕ → Lane A → Type 0
  Level r lane = lane.bounded ≡ take r lane.results

  -- Some lanes in front have had one turn more than the others.
  abbrev pub Staggered : ℕ → List (Lane A) → Type 0
  Staggered r [] = Unit
  Staggered r (lane ∷ lanes) =
      (Level (suc r) lane × Staggered r lanes) ⊎ All (Level r) (lane ∷ lanes)

  abbrev pub granted : List (Lane A) → ℕ
  granted [] = 0
  granted (lane ∷ lanes) = length lane.bounded + granted lanes

  abbrev pub supply : List (String × List A) → ℕ
  supply [] = 0
  supply ((name, results) ∷ lanes) = length results + supply lanes

  abbrev pub source : Lane A → String × List A
  source lane = (lane.name, lane.results)

  take_next :
      (xs : List A) (r : ℕ) (x : A)
      → get_elem? xs r ≡ some x
      → take (suc r) xs ≡ take r xs ++ x ∷ []
  take_next [] r x h = absurd (cc)
  take_next (y ∷ ys) zero x h = ground arith
  take_next (y ∷ ys) (suc r) x h = ap (◌∷◌ y) (take_next ys r x h)

  take_end : (xs : List A) (r : ℕ) → length xs ≤ r → take (suc r) xs ≡ take r xs
  take_end [] zero h = refl
  take_end [] (suc r) h = refl
  take_end (y ∷ ys) zero h = absurd (omega arith)
  take_end (y ∷ ys) (suc r) h = ap (◌∷◌ y) (take_end ys r (omega arith))

  get_elem?_within : (xs : List A) (r : ℕ) → r < length xs → (x : A) × (get_elem? xs r ≡ some x)
  get_elem?_within [] r h = absurd (omega arith)
  get_elem?_within (y ∷ ys) zero h = (y, refl)
  get_elem?_within (y ∷ ys) (suc r) h = get_elem?_within ys r (omega arith)

  grant-Level :
      (r : ℕ) (lane : Lane A)
      → r < length lane.results
      → (Level r lane → Level (suc r) (grant r lane))
        × (length (grant r lane).bounded ≡ suc (length lane.bounded))
        × (source (grant r lane) ≡ source lane)
  unfolding grant
  grant-Level r lane h =
      let (x, e) = get_elem?_within lane.results r h in
      (
        λ l. ground (arith, take_next lane.results r x e),
        ground (arith, length-append lane.bounded (x ∷ [])),
        ground arith,
      )

  module _ (rank : ℕ) where
    pub sweep-counted :
        (remaining : ℕ) (lanes : List (Lane A))
        → granted (sweep rank remaining lanes).0 + (sweep rank remaining lanes).1
          ≡ granted lanes + remaining
    unfolding sweep
    sweep-counted remaining [] = refl
    sweep-counted remaining (lane ∷ lanes) = ground (
      arith,
      sweep-counted remaining lanes,
      sweep-counted (remaining - 1) lanes,
      grant-Level rank lane,
    )

    pub sweep-source :
        (remaining : ℕ) (lanes : List (Lane A))
        → map source (sweep rank remaining lanes).0 ≡ map source lanes
    unfolding sweep
    sweep-source remaining [] = refl
    sweep-source remaining (lane ∷ lanes) = ground (
      arith,
      sweep-source remaining lanes,
      sweep-source (remaining - 1) lanes,
      grant-Level rank lane,
    )

    -- With the budget spent the rest of a round changes nothing.
    sweep_spent : (lanes : List (Lane A)) → sweep rank 0 lanes ≡ (lanes, 0, false)
    unfolding sweep
    sweep_spent [] = refl
    sweep_spent (lane ∷ lanes) = ground (arith, sweep_spent lanes)

    pub sweep-added :
        (remaining : ℕ) (lanes : List (Lane A))
        → ((sweep rank remaining lanes).2 ≡ true → (sweep rank remaining lanes).1 < remaining)
          × ((sweep rank remaining lanes).2 ≡ false → (sweep rank remaining lanes).1 ≡ remaining)
    unfolding sweep
    sweep-added remaining [] = (λ h. absurd (cc), λ h. refl)
    sweep-added remaining (lane ∷ lanes) =
        let a = sweep-added remaining lanes in
        let b = sweep-added (remaining - 1) lanes in
        (λ h. ground (arith, a.0, b.0, a.1, b.1), λ h. ground (arith, a.1, b.1))

    sweep-le : (remaining : ℕ) (lanes : List (Lane A)) → (sweep rank remaining lanes).1 ≤ remaining
    sweep-le remaining lanes =
        ground (arith, sweep-added remaining lanes, Bool-cases (sweep rank remaining lanes).2)

    sweep_give :
        (remaining : ℕ) (lane : Lane A) (lanes : List (Lane A))
        → can_grant rank remaining lane ≡ true
        → let (rest, left, added) = sweep rank (remaining - 1) lanes in
          sweep rank remaining (lane ∷ lanes) ≡ (grant rank lane ∷ rest, left, true)
    unfolding sweep
    sweep_give remaining lane lanes e = rw e

    sweep_skip :
        (remaining : ℕ) (lane : Lane A) (lanes : List (Lane A))
        → can_grant rank remaining lane ≡ false
        → let (rest, left, added) = sweep rank remaining lanes in
          sweep rank remaining (lane ∷ lanes) ≡ (lane ∷ rest, left, added)
    unfolding sweep
    sweep_skip remaining lane lanes e = rw e

    pub sweep-Level :
        (remaining : ℕ) (lanes : List (Lane A))
        → All (Level rank) lanes
        → 0 < (sweep rank remaining lanes).1
        → All (Level (suc rank)) (sweep rank remaining lanes).0
    sweep-Level remaining [] h k = unfold sweep in tt
    sweep-Level remaining (lane ∷ lanes) h k = elim (Bool-cases (can_grant rank remaining lane)) [
      | inl e ↦
          let g = sweep_give remaining lane lanes e in
          rw g (
            (grant-Level rank lane (ground arith)).0 h.0,
            sweep-Level (remaining - 1) lanes h.1 (rw g at k),
          )
      | inr e ↦
          let g = sweep_skip remaining lane lanes e in
          let le = sweep-le remaining lanes in
          let k' = rw g at k in
          rw g (ground (arith, take_end lane.results rank), sweep-Level remaining lanes h.1 k')
    ]

    pub sweep-Staggered :
        (remaining : ℕ) (lanes : List (Lane A))
        → All (Level rank) lanes
        → Staggered rank (sweep rank remaining lanes).0
    sweep-Staggered remaining [] h = unfold sweep in tt
    sweep-Staggered zero (lane ∷ lanes) h = rw (sweep_spent (lane ∷ lanes)) (inr h)
    sweep-Staggered (suc remaining) (lane ∷ lanes) h =
        elim (Bool-cases (can_grant rank (suc remaining) lane)) [
          | inl e ↦ rw (sweep_give (suc remaining) lane lanes e) (
              inl (
                (grant-Level rank lane (ground arith)).0 h.0,
                sweep-Staggered (suc remaining - 1) lanes h.1,
              ))
          | inr e ↦ rw (sweep_skip (suc remaining) lane lanes e) (
              inl (
                ground (arith, take_end lane.results rank),
                sweep-Staggered (suc remaining) lanes h.1,
              ))
        ]

    -- A round that grants nothing has found every channel exhausted.
    pub sweep_exhausted :
        (remaining : ℕ) (lanes : List (Lane A))
        → 0 < remaining
        → (sweep rank remaining lanes).2 ≡ false
        → All (λ lane. length lane.results ≤ rank) lanes × ((sweep rank remaining lanes).0 ≡ lanes)
    sweep_exhausted remaining [] h k = (tt, unfold sweep in refl)
    sweep_exhausted remaining (lane ∷ lanes) h k =
        elim (Bool-cases (can_grant rank remaining lane)) [
          | inl e ↦ absurd (cc (sweep_give remaining lane lanes e))
          | inr e ↦
              let g = sweep_skip remaining lane lanes e in
              let (ends, same) = sweep_exhausted remaining lanes h (rw g at k) in
              ((ground arith, ends), rw g (ap (◌∷◌ lane) same))
        ]

  pub Level-Staggered : (r : ℕ) (lanes : List (Lane A)) → All (Level r) lanes → Staggered r lanes
  Level-Staggered r [] h = tt
  Level-Staggered r (lane ∷ lanes) h = inr h

  Level-le : (r : ℕ) (lane : Lane A) → Level r lane → length lane.bounded ≤ length lane.results
  Level-le r lane h = omega (arith, ap length h, length-take r lane.results)

  pub granted-le-Level :
      (r : ℕ) (lanes : List (Lane A))
      → All (Level r) lanes
      → granted lanes ≤ supply (map source lanes)
  granted-le-Level r [] h = omega arith
  granted-le-Level r (lane ∷ lanes) h =
      omega (arith, Level-le r lane h.0, granted-le-Level r lanes h.1)

  pub granted-le :
      (r : ℕ) (lanes : List (Lane A))
      → Staggered r lanes
      → granted lanes ≤ supply (map source lanes)
  granted-le r [] h = omega arith
  granted-le r (lane ∷ lanes) (inl h) =
      omega (arith, Level-le (suc r) lane h.0, granted-le r lanes h.1)
  granted-le r (lane ∷ lanes) (inr h) = granted-le-Level r (lane ∷ lanes) h

  pub granted_exhausted :
      (r : ℕ) (lanes : List (Lane A))
      → All (Level r) lanes
      → All (λ lane. length lane.results ≤ r) lanes
      → granted lanes ≡ supply (map source lanes)
  granted_exhausted r [] h k = refl
  granted_exhausted r (lane ∷ lanes) h k =
      omega
        (arith, ap length h.0, length-take r lane.results, k.0, granted_exhausted r lanes h.1 k.1)
