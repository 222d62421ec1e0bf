-- ===== src/Repairs/Client.antt =====
-- What the operations of MilvusSearchChannel do to the identifiers in a collection.
use flavor_rag.Prelude.{
  Option, none, some, ℕ, String, List, true, false, ◌≡◌, ◌↔◌, ◌⊎◌, inl, inr, [], ◌∷◌, map, concat,
  batches, Member, Member-filter, Member-filter_test, Member→filter, Member-append, Bool-cases,
  refl, sym, ◌∙◌, ap, subst, truthy, Option, some, length,
}
use flavor_rag.Repairs.Vectors.{
  Client, IsClient, existing_chunk_ids, all_chunk_ids, delete_by_ids, insert, dims_differ,
}

module _ {V Vector : Type 0} (client : Client V Vector) (law : IsClient client) where
  query-Member_some :
      (v : V) (name x : String) (bs : List (List String))
      → Member x (concat (map (λ batch. client.query v name batch (length batch)) bs))
      → Member x (client.iterate v name)
  query-Member_some v name x [] m = absurd m
  query-Member_some v name x (b ∷ bs) m =
      elim (Member-append x (client.query v name b (length b))
        (concat (map (λ batch. client.query v name batch (length batch)) bs)) m) [
          | inl h ↦ (law.query-Member v name b (length b) x h).1
          | inr h ↦ query-Member_some v name x bs h
        ]

  -- What is found of the identifiers stands in the collection.
  pub existing→Member_all :
      (v : V) (name x : String) (ids : List String)
      → Member x (existing_chunk_ids client v name ids)
      → Member x (all_chunk_ids client v name)
  unfolding existing_chunk_ids all_chunk_ids
  existing→Member_all v name x ids m = elim (Bool-cases (client.has_collection v name)) [
    | inr e ↦ absurd (rw e at m)
    | inl e ↦
        let found = rw e at m in
        let parts =
          concat (map (λ batch. client.query v name batch (length batch)) (batches 500 ids)) in
        rw e (
          Member→filter truthy x (client.iterate v name)
            (query-Member_some v name x (batches 500 ids) (Member-filter truthy x parts found))
            (Member-filter_test truthy x parts found))
  ]

  all_chunk_ids-found :
      (v : V) (name x : String)
      → client.has_collection v name ≡ true
      → Member x (all_chunk_ids client v name)
        ↔ (Member x (client.iterate v name) × (truthy x ≡ true))
  unfolding all_chunk_ids
  all_chunk_ids-found v name x e = (
    λ m.
        let found = rw e at m in
        (
          Member-filter truthy x (client.iterate v name) found,
          Member-filter_test truthy x (client.iterate v name) found,
        ),
    λ (m, t). rw e (Member→filter truthy x (client.iterate v name) m t),
  )

  all_chunk_ids-absent :
      (v : V) (name x : String)
      → client.has_collection v name ≡ false
      → Member x (all_chunk_ids client v name)
      → ⊥
  unfolding all_chunk_ids
  all_chunk_ids-absent v name x e m = rw e at m

  right_same : (v w : V) → Path (List ℕ ⊎ V) (inr v) (inr w) → v ≡ w
  right_same v w h = cc h

  -- The collection without the identifiers.
  pub delete_by_ids-Member :
      (v w : V) (name : String) (ids : List String)
      → delete_by_ids client v name ids ≡ inr w
      → (x : String)
      → Member x (all_chunk_ids client w name)
        ↔ (Member x (all_chunk_ids client v name) × (Member x ids → ⊥))
  unfolding delete_by_ids
  delete_by_ids-Member v w name [] h x =
      let same : v ≡ w = right_same v w h in
      subst
        (λ u.
          Member x (all_chunk_ids client u name)
          ↔ (Member x (all_chunk_ids client v name) × (⊥ → ⊥)))
        same (λ m. (m, λ n. n), λ m. m.0)
  delete_by_ids-Member v w name (i ∷ ids) h x = elim (Bool-cases (client.has_collection v name)) [
    | inr e ↦
        let same : v ≡ w = right_same v w (rw e at h) in
        (
          λ m. absurd (
              all_chunk_ids-absent v name x e
                (subst (λ u. Member x (all_chunk_ids client u name)) (sym same) m)),
          λ m. absurd (all_chunk_ids-absent v name x e m.0),
        )
    | inl e ↦
        let deleted : client.delete v name (i ∷ ids) ≡ inr w = rw e at h in
        let (still, rows) = law.delete-Member v w name (i ∷ ids) deleted in
        let before = all_chunk_ids-found v name x e in
        let after = all_chunk_ids-found w name x (still ∙ e) in
        (
          λ m. let (n, t) = after.0 m in let (old, out) = (rows x).0 n in (before.1 (old, t), out),
          λ (m, out). let (n, t) = before.0 m in after.1 ((rows x).1 (n, out), t),
        )
  ]

  pub delete_by_ids-has_collection :
      (v w : V) (name : String) (ids : List String)
      → delete_by_ids client v name ids ≡ inr w
      → client.has_collection w name ≡ client.has_collection v name
  unfolding delete_by_ids
  delete_by_ids-has_collection v w name [] h =
      ap (λ u. client.has_collection u name) (sym (right_same v w h))
  delete_by_ids-has_collection v w name (i ∷ ids) h =
      elim (Bool-cases (client.has_collection v name)) [
        | inr e ↦ ap (λ u. client.has_collection u name) (sym (right_same v w (rw e at h)))
        | inl e ↦ (law.delete-Member v w name (i ∷ ids) (rw e at h)).0
      ]

  -- The collection with the identifiers that are not empty, when there is one.
  pub insert-Member :
      (v w : V) (name : String) (ids docs contents : List String) (vectors : List Vector)
      → client.has_collection v name ≡ true
      → insert client v name ids docs contents vectors ≡ inr w
      → (x : String) → truthy x ≡ true
      → Member x (all_chunk_ids client w name)
        ↔ (Member x (all_chunk_ids client v name) ⊎ Member x ids)
  unfolding insert
  insert-Member v w name ids docs contents vectors e h x t =
      by_dims (dims_differ client (client.collection_dim v name) vectors) refl
    where
      by_dims :
          (d : Option (ℕ × ℕ))
          → dims_differ client (client.collection_dim v name) vectors ≡ d
          → Member x (all_chunk_ids client w name)
            ↔ (Member x (all_chunk_ids client v name) ⊎ Member x ids)
      by_dims (some (a, b)) f = absurd (cc (rw (e, f, insert) at h))
      by_dims none f =
          let inserted : client.insert v name ids docs contents vectors ≡ inr w =
            rw (e, f, insert) at h in
          let (still, rows) = law.insert-Member v w name ids docs contents vectors inserted in
          let before = all_chunk_ids-found v name x e in
          let after = all_chunk_ids-found w name x (still ∙ e) in
          (
            λ m. elim ((rows x).0 ((after.0 m).0)) [
              | inl old ↦ inl (before.1 (old, t))
              | inr new ↦ inr new
            ],
            λ m. elim m [
              | inl old ↦ after.1 ((rows x).1 (inl ((before.0 old).0)), t)
              | inr new ↦ after.1 ((rows x).1 (inr new), t)
            ],
          )
