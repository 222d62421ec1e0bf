-- ===== src/Pipelines/Chains.antt =====
-- The search of `validate_pipeline_graph` is passed exactly where every chain of nodes ends.
use flavor_rag.Prelude.Distinct.{Distinct, Distinct-le}
use flavor_rag.Pipelines.Nodes.{visit, visit_all, Marks, leave, enter}
use flavor_rag.Prelude.{
  Option, ℕ, List, ◌≡◌, Member, ◌≤◌, none, ◌<◌, length, inr, suc, ◌∷◌, some, inl, Bool-cases,
  Sum-cases, arith, in_list, zero, [], ap, in_list→Member, Option-cases, refl, false, ◌∙◌, filter,
  not, ◌==◌, eq_refl,
}
use Prim.Native.String.{String}

module _ (next : String → Option String) where
  -- The chain from a node ends behind so many links.
  abbrev pub Ends : ℕ → String → Type 0
  Ends zero x = next x ≡ none
  Ends (suc k) x = (y : String) × (next x ≡ some y) × Ends k y

  pub Ends-unique : (j k : ℕ) (x : String) → Ends j x → Ends k x → j ≡ k
  Ends-unique zero zero x h g = refl
  Ends-unique zero (suc k) x h (y, e, g) = cc
  Ends-unique (suc j) zero x (y, e, h) g = cc
  Ends-unique (suc j) (suc k) x (y, e, h) (z, f, g) =
      let same : z ≡ y = cc in ap suc (Ends-unique j k y h (rw (← same) g))

  -- The chains from the nodes end.
  abbrev pub Ranked : List String → Type 0
  Ranked xs = (x : String) → Member x xs → (k : ℕ) × Ends k x

  Ranked-cons : (x : String) (xs : List String) (k : ℕ) → Ranked xs → Ends k x → Ranked (x ∷ xs)
  Ranked-cons x xs k ranked ends y (inl e) = (k, rw e ends)
  Ranked-cons x xs k ranked ends y (inr m) = ranked y m

  -- What a search leaves visited.
  record Visits (x : String) (before after : List String) : Type 0 where
    ranked : Ranked after
    reached : Member x after
    kept : (y : String) → Member y before → Member y after

  visit-Visits :
      (depth : ℕ) (m m' : Marks) (x : String)
      → visit next depth m x ≡ inr m'
      → Ranked m.visited
      → Visits x m.visited m'.visited
  unfolding visit
  visit-Visits zero m m' x h ranked = absurd (cc)
  visit-Visits (suc depth) m m' x h ranked = elim (Bool-cases (in_list x m.visiting)) [
    | inl e ↦ absurd (cc (rw e at h))
    | inr e ↦ elim (Bool-cases (in_list x m.visited)) [
      | inl f ↦
          let same : m ≡ m' = cc (rw (e, f) at h) in
          rw (← same)
            (record { ranked = ranked; reached = in_list→Member x m.visited f; kept = λ y k. k })
      | inr f ↦ elim (Option-cases (next x)) [
        | inl g ↦
            let same : leave x (enter x m) ≡ m' = cc (rw (e, f, g) at h) in
            rw (← same) (record {
              ranked = Ranked-cons x m.visited 0 ranked g;
              reached = inl refl;
              kept = λ y k. inr k;
            })
        | inr (y, g) ↦ elim (Sum-cases (visit next depth (enter x m) y)) [
          | inl (err, s) ↦ absurd (cc (rw (e, f, g, s) at h))
          | inr (n, s) ↦
              let same : leave x n ≡ m' = cc (rw (e, f, g, s) at h) in
              let v = visit-Visits depth (enter x m) n y s ranked in
              let (k, ends) = v.ranked y v.reached in
              rw (← same) (record {
                ranked = Ranked-cons x n.visited (suc k) v.ranked (y, g, ends);
                reached = inl refl;
                kept = λ z i. inr (v.kept z i);
              })
        ]
      ]
    ]
  ]

  pub visit_all-Ranked :
      (depth : ℕ) (m m' : Marks) (xs : List String)
      → visit_all next depth m xs ≡ inr m'
      → Ranked m.visited
      → Ranked m'.visited
        × ((y : String) → Member y m.visited → Member y m'.visited)
        × ((y : String) → Member y xs → Member y m'.visited)
  unfolding visit_all
  visit_all-Ranked depth m m' [] h ranked =
      let same : m ≡ m' = cc in rw (← same) (ranked, λ y k. k, λ y k. absurd k)
  visit_all-Ranked depth m m' (x ∷ xs) h ranked = elim (Sum-cases (visit next depth m x)) [
    | inl (err, s) ↦ absurd (cc (rw (s, visit_all) at h))
    | inr (n, s) ↦
        let v = visit-Visits depth m n x s ranked in
        let (all_ranked, kept, reached) =
          visit_all-Ranked depth n m' xs (rw (s, visit_all) at h) v.ranked in
        (
          all_ranked,
          λ y k. kept y (v.kept y k),
          λ y k. elim k [ inl e ↦ rw e (kept x v.reached) | inr i ↦ reached y i ],
        )
  ]

  -- The nodes whose visit has not returned lie before the node, with longer chains.
  abbrev Above : ℕ → List String → Type 0
  Above k xs = (x : String) → Member x xs → (j : ℕ) × (k < j) × Ends j x

  not-Above : (k : ℕ) (x : String) (xs : List String) → Ends k x → Above k xs → in_list x xs ≡ false
  not-Above k x xs ends above = elim (Bool-cases (in_list x xs)) [
    | inl e ↦
        let (j, lt, h) = above x (in_list→Member x xs e) in
        let same : k ≡ j = Ends-unique k j x ends h in absurd (omega arith)
    | inr e ↦ e
  ]

  -- Without the node that has just been entered, the nodes that are visited are those of before.
  removed :
      (x : String) (xs : List String) → in_list x xs ≡ false → filter (λ k. not (x == k)) xs ≡ xs
  removed x [] h = refl
  removed x (y ∷ xs) h = ground (arith, removed x xs)

  left_lem :
      (x : String) (xs : List String)
      → in_list x xs ≡ false
      → filter (λ k. not (x == k)) (x ∷ xs) ≡ xs
  left_lem x xs h = rw (eq_refl x) (removed x xs h)

  visit-accepts :
      (depth k : ℕ) (m : Marks) (x : String)
      → k < depth
      → Ends k x
      → Above k m.visiting
      → (m' : Marks) × (visit next depth m x ≡ inr m') × (m'.visiting ≡ m.visiting)
  unfolding visit
  visit-accepts zero k m x lt ends above = absurd (omega arith)
  visit-accepts (suc depth) zero m x lt ends above =
      let fresh = not-Above zero x m.visiting ends above in
      elim (Bool-cases (in_list x m.visited)) [
        | inl e ↦ (m, rw (fresh, e) refl, refl)
        | inr e ↦ (leave x (enter x m), rw (fresh, e, ends) refl, left_lem x m.visiting fresh)
      ]
  visit-accepts (suc depth) (suc j) m x lt (y, g, rest) above =
      let fresh = not-Above (suc j) x m.visiting (y, g, rest) above in
      let (n, s, same) = visit-accepts depth j (enter x m) y (omega arith) rest (λ z i. elim i [
        | inl p ↦ (suc j, omega arith, rw p (y, g, rest))
        | inr i' ↦ let (l, gt, h) = above z i' in (l, omega arith, h)
      ]) in
      elim (Bool-cases (in_list x m.visited)) [
        | inl e ↦ (m, rw (fresh, e) refl, refl)
        | inr e ↦ (
          leave x n,
          rw (fresh, e, g, s) refl,
          ap (filter (λ k. not (x == k))) same ∙ left_lem x m.visiting fresh,
        )
      ]

  pub visit_all-accepts :
      (depth : ℕ) (m : Marks) (xs : List String)
      → m.visiting ≡ []
      → ((x : String) → Member x xs → (k : ℕ) × (k < depth) × Ends k x)
      → (m' : Marks) × (visit_all next depth m xs ≡ inr m')
  unfolding visit_all
  visit_all-accepts depth m [] h ends = (m, refl)
  visit_all-accepts depth m (x ∷ xs) h ends =
      let (k, lt, e) = ends x (inl refl) in
      let (n, s, same) = visit-accepts depth k m x lt e (λ y i. absurd (rw h at i)) in
      let (m', t) = visit_all-accepts depth n xs (same ∙ h) (λ y i. ends y (inr i)) in
      (m', rw (s, visit_all) t)

  module _ (ids : List String) (linked : (x y : String) → next x ≡ some y → Member y ids) where
    -- The nodes of a chain differ, since each has a chain of another length.
    record Chain (k : ℕ) : Type 0 where
      members : List String
      counted : length members ≡ suc k
      differing : Distinct members
      within : (z : String) → Member z members → Member z ids × (j : ℕ) × (j ≤ k) × Ends j z

    chain : (k : ℕ) (x : String) → Member x ids → Ends k x → Chain k
    chain zero x m ends = record {
      members = x ∷ [];
      counted = refl;
      differing = (refl, tt);
      within = λ z i. elim i [ inl e ↦ (rw e m, 0, omega arith, rw e ends) | inr i' ↦ absurd i' ];
    }
    chain (suc k) x m (y, g, ends) =
        let c = chain k y (linked x y g) ends in
        record {
          members = x ∷ c.members;
          counted = ap suc c.counted;
          differing = (first_differs c, c.differing);
          within = λ z i. elim i [
            | inl e ↦ (rw e m, suc k, omega arith, rw e (y, g, ends))
            | inr i' ↦ let (n, j, le, h) = c.within z i' in (n, j, omega arith, h)
          ];
        }
      where
        first_differs : (c : Chain k) → in_list x c.members ≡ false
        first_differs c = elim (Bool-cases (in_list x c.members)) [
          | inl e ↦
              let (n, j, le, h) = c.within x (in_list→Member x c.members e) in
              let same : j ≡ suc k = Ends-unique j (suc k) x h (y, g, ends) in absurd (omega arith)
          | inr e ↦ e
        ]

    pub Ends-lt : (k : ℕ) (x : String) → Member x ids → Ends k x → k < length ids
    Ends-lt k x m ends =
        let c = chain k x m ends in
        omega (arith, c.counted, Distinct-le c.members ids c.differing (λ z i. (c.within z i).0))
