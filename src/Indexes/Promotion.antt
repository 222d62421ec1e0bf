-- ===== src/Indexes/Promotion.antt =====
-- What a build leaves behind: one active generation at most, and an index that stays in service.
use flavor_rag.Prelude.{
  ℕ, String, List, [], ◌∷◌, Bool, true, false, some, ◌⊎◌, inl, inr, ◌≡◌, if◌then◌else◌, ◌==◌, ◌&&◌,
  not, length, map, Member, Bool-cases, arith, eq_iff, refl, sym, ◌∙◌, take, ap, subst, ◌≢◌,
  eq_refl, Option-cases,
}
use flavor_rag.Jobs.Store.{find?, update_where}
use flavor_rag.Indexes.Lifecycle.{
  Generation, active, failed, is_active, KbIndex, Indexes, BuildError, Backend, chunks_of, build,
  promote, promote_row, set_expected, mark_failed, build_and_promote,
}
use flavor_rag.Indexes.Consistency.{
  IsConsistent, Serves, Member-map, update_where-map, mapped-IsConsistent,
  set_expected-IsConsistent, mark_failed-IsConsistent, find?-lem,
}

module _ (row : Generation) (dim actual now : ℕ) (s : Indexes) (c : IsConsistent s)
    (here : Member row s.generations) where
  abbrev changed : Generation → Generation
  changed = promote_row row.id row.kb_id dim actual now

  -- A promoted row is the given one, or was active in another base and is as it was.
  promoted :
      (g : Generation)
      → Member g s.generations
      → (changed g).status ≡ active
      → (g ≡ row) ⊎ ((changed g ≡ g) × (g.status ≡ active) × (g.kb_id ≢ row.kb_id))
  unfolding promote_row
  promoted g m a = elim (Bool-cases (g.id == row.id)) [
    | inl e ↦ inl (c.apart g row m here ((eq_iff g.id row.id).0 e))
    | inr e ↦ elim (Bool-cases (g.kb_id == row.kb_id && is_active g.status)) [
      | inl f ↦ absurd (cc (rw (e, f) at a))
      | inr f ↦
          let was : g.status ≡ active = rw (e, f) at a in
          inr (
            rw (e, f) refl,
            was,
            λ same.
                let bad : (g.kb_id == row.kb_id && is_active g.status) ≡ true =
                  rw (same, was, eq_refl row.kb_id) refl in
                cc (sym f ∙ bad),
          )
    ]
  ]

  changed_same :
      (g : Generation)
      → ((changed g).id ≡ g.id)
        × ((changed g).kb_id ≡ g.kb_id)
        × ((changed g).generation ≡ g.generation)
        × ((changed g).collection_name ≡ g.collection_name)
  unfolding promote_row
  changed_same g = (ground arith, ground arith, ground arith, ground arith)

  one_promoted :
      (g h : Generation)
      → Member g s.generations
      → Member h s.generations
      → (changed g).status ≡ active
      → (changed h).status ≡ active
      → (changed g).kb_id ≡ (changed h).kb_id
      → g.id ≡ h.id
  one_promoted g h m n ga ha same =
      let bases : g.kb_id ≡ h.kb_id = sym (changed_same g).1 ∙ same ∙ (changed_same h).1 in
      elim (promoted g m ga) [
        | inl gr ↦ elim (promoted h n ha) [
          | inl hr ↦ ap (λ x. x.id) (gr ∙ sym hr)
          | inr (hs, was, other) ↦ absurd (other (sym bases ∙ ap (λ x. x.kb_id) gr))
        ]
        | inr (gs, was, other) ↦ elim (promoted h n ha) [
          | inl hr ↦ absurd (other (bases ∙ ap (λ x. x.kb_id) hr))
          | inr (hs, also, third) ↦ c.one_active g h m n was also bases
        ]
      ]

  abbrev served : KbIndex → KbIndex
  served k = record k {
    active_collection_name = row.collection_name;
    active_index_generation = row.generation;
  }

  Serves-promoted :
      (g : Generation) (k : KbIndex)
      → Member g s.generations
      → Member k (map (λ k. if k.id == row.kb_id then served k else k) s.kbs)
      → (changed g).status ≡ active
      → k.id ≡ (changed g).kb_id
      → Serves (changed g) k
  Serves-promoted g k m n ga of_kb =
      let (k0, km, ke) = Member-map (λ k. if k.id == row.kb_id then served k else k) k s.kbs n in
      let (i, b, gen, col) = changed_same g in
      elim (Bool-cases (k0.id == row.kb_id)) [
        | inl e ↦
            let now_is : k ≡ served k0 = rw e at ke in
            let base : row.kb_id ≡ g.kb_id =
              sym ((eq_iff k0.id row.kb_id).0 e) ∙ ap (λ x. x.id) (sym now_is) ∙ of_kb ∙ b in
            elim (promoted g m ga) [
              | inl gr ↦ (
                ap (λ x. x.active_index_generation) now_is
                    ∙ ap (λ x. x.generation) (sym gr)
                    ∙ sym gen,
                ap (λ x. x.active_collection_name) now_is
                    ∙ ap (λ x. x.collection_name) (sym gr)
                    ∙ sym col,
              )
              | inr (gs, was, other) ↦ absurd (other (sym base))
            ]
        | inr e ↦
            let now_is : k ≡ k0 = rw e at ke in
            elim (promoted g m ga) [
              | inl gr ↦
                  let base : k0.id ≡ row.kb_id =
                    ap (λ x. x.id) (sym now_is) ∙ of_kb ∙ b ∙ ap (λ x. x.kb_id) gr in
                  absurd (cc (sym e ∙ (eq_iff k0.id row.kb_id).1 base))
              | inr (gs, was, other) ↦
                  let (x, y) =
                    c.in_service g k0 m km was (ap (λ x. x.id) (sym now_is) ∙ of_kb ∙ b) in
                  (
                    ap (λ x. x.active_index_generation) now_is ∙ x ∙ sym gen,
                    ap (λ x. x.active_collection_name) now_is ∙ y ∙ sym col,
                  )
            ]
      ]

  promote-IsConsistent : IsConsistent (promote row dim actual now s)
  unfolding promote
  promote-IsConsistent =
      mapped-IsConsistent changed s _ refl (λ g. (changed_same g).0) one_promoted
        (λ g k m n ga of_kb.
          Serves-promoted g k m
            (subst (Member k) (update_where-map (λ k. k.id == row.kb_id) served s.kbs) n) ga of_kb)
        c

Member-update_where :
    {A : Type 0} (p : A → Bool) (f : A → A) (x : A) (xs : List A)
    → Member x xs
    → Member (if p x then f x else x) (update_where p f xs)
unfolding update_where
Member-update_where p f x [] m = m
Member-update_where p f x (y ∷ xs) (inl e) = inl (ap (λ z. if p z then f z else z) e)
Member-update_where p f x (y ∷ xs) (inr m) = inr (Member-update_where p f x xs m)

-- A row that the test holds for is changed, another one is still there.
Member-updated :
    {A : Type 0} (b : Bool) (p : A → Bool) (f : A → A) (x : A) (xs : List A)
    → p x ≡ b
    → Member x xs
    → Member (if b then f x else x) (update_where p f xs)
Member-updated b p f x xs h m =
    subst (λ b. Member (if b then f x else x) (update_where p f xs)) h
      (Member-update_where p f x xs m)

module _ (backend : Backend) (now : ℕ) (generation_id : String) (s : Indexes) where
  abbrev wanted : Generation → Bool
  wanted g = g.id == generation_id && not g.deleted

  abbrev base_of : Generation → KbIndex → Bool
  base_of row k = k.id == row.kb_id && not k.deleted

  -- The store with the number of chunks written to the row, before the build.
  abbrev begun : KbIndex → Indexes
  begun kb = set_expected generation_id (length (chunks_of kb.id s.chunks)) s

  promoted-IsConsistent :
      (row : Generation) (kb : KbIndex) (dim actual : ℕ)
      → Member row s.generations
      → wanted row ≡ true
      → IsConsistent s
      → IsConsistent (promote row dim actual now (begun kb))
  unfolding set_expected promote
  promoted-IsConsistent row kb dim actual m is c =
      let n = length (chunks_of kb.id s.chunks) in
      let named : (row.id == generation_id) ≡ true = ground arith in
      let here : Member (record row { expected_chunks = n }) (begun kb).generations =
        Member-updated true (λ (g : Generation). g.id == generation_id)
          (λ g. record g { expected_chunks = n }) row s.generations named m in
      promote-IsConsistent (record row { expected_chunks = n }) dim actual now (begun kb)
        (set_expected-IsConsistent generation_id n s c) here

  -- A build, however it ends, keeps the rows consistent: no base gets a second active generation, and
  -- each base that has one serves its index.
  pub build_and_promote-IsConsistent :
      IsConsistent s → IsConsistent (build_and_promote backend now generation_id s).0
  unfolding build_and_promote
  build_and_promote-IsConsistent c = elim (Option-cases (find? wanted s.generations)) [
    | inl e ↦ rw (e, build_and_promote) c
    | inr (row, e) ↦ elim (Option-cases (find? (base_of row) s.kbs)) [
      | inl f ↦ rw (e, build_and_promote, f) c
      | inr (kb, f) ↦
          by_build row kb (build backend row.collection_name (chunks_of kb.id s.chunks)) e f refl
    ]
  ]
    where
      by_build :
          (row : Generation) (kb : KbIndex) (o : BuildError ⊎ (ℕ × ℕ))
          → find? wanted s.generations ≡ some row
          → find? (base_of row) s.kbs ≡ some kb
          → build backend row.collection_name (chunks_of kb.id s.chunks) ≡ o
          → IsConsistent (build_and_promote backend now generation_id s).0
      by_build row kb (inl error) e f b =
          rw (e, build_and_promote, f, b)
            (mark_failed-IsConsistent generation_id (backend.str error) (begun kb)
              (set_expected-IsConsistent generation_id (length (chunks_of kb.id s.chunks)) s c))
      by_build row kb (inr (dim, actual)) e f b =
          let (m, is) = find?-lem wanted s.generations row e in
          rw (e, build_and_promote, f, b) (promoted-IsConsistent row kb dim actual m is c)

  -- A build that fails leaves every base with the index that it served before, and leaves every
  -- generation but the one that it was to build as it was.
  pub build_and_promote-failed :
      (error : BuildError)
      → (build_and_promote backend now generation_id s).1 ≡ some error
      → ((build_and_promote backend now generation_id s).0.kbs ≡ s.kbs)
        × ((g : Generation)
            → Member g s.generations
            → (g.id ≢ generation_id)
            → Member g (build_and_promote backend now generation_id s).0.generations)
  unfolding build_and_promote mark_failed set_expected
  build_and_promote-failed error h = elim (Option-cases (find? wanted s.generations)) [
    | inl e ↦ rw (e, build_and_promote) (refl, λ g m d. m)
    | inr (row, e) ↦ elim (Option-cases (find? (base_of row) s.kbs)) [
      | inl f ↦ rw (e, build_and_promote, f) (refl, λ g m d. m)
      | inr (kb, f) ↦
          by_build row kb (build backend row.collection_name (chunks_of kb.id s.chunks)) e f refl h
    ]
  ]
    where
      untouched :
          (g : Generation) (p : List ℕ) (kb : KbIndex)
          → Member g s.generations
          → (g.id ≢ generation_id)
          → Member g (mark_failed generation_id p (begun kb)).generations
      untouched g p kb m d =
          let other : (g.id == generation_id) ≡ false = elim (Bool-cases (g.id == generation_id)) [
            | inl e ↦ absurd (d ((eq_iff g.id generation_id).0 e))
            | inr e ↦ e
          ] in
          Member-updated false (λ (g : Generation). g.id == generation_id)
            (λ g. record g { status = failed; error_message = take 2000 p }) g
            (begun kb).generations other
            (Member-updated false (λ (g : Generation). g.id == generation_id)
              (λ g. record g { expected_chunks = length (chunks_of kb.id s.chunks) }) g
              s.generations other m)

      by_build :
          (row : Generation) (kb : KbIndex) (o : BuildError ⊎ (ℕ × ℕ))
          → find? wanted s.generations ≡ some row
          → find? (base_of row) s.kbs ≡ some kb
          → build backend row.collection_name (chunks_of kb.id s.chunks) ≡ o
          → (build_and_promote backend now generation_id s).1 ≡ some error
          → ((build_and_promote backend now generation_id s).0.kbs ≡ s.kbs)
            × ((g : Generation)
                → Member g s.generations
                → (g.id ≢ generation_id)
                → Member g (build_and_promote backend now generation_id s).0.generations)
      by_build row kb (inl error) e f b h =
          rw (e, build_and_promote, f, b) (refl, λ g m d. untouched g (backend.str error) kb m d)
      by_build row kb (inr (dim, actual)) e f b h = cc (rw (e, build_and_promote, f, b) at h)
