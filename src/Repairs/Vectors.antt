-- ===== src/Repairs/Vectors.antt =====
-- flavorag-server/app/rag/search/vector.py: MilvusSearchChannel on the identifiers of chunks. The Milvus
-- client is a parameter; `V` is the state of its server. An exception is a text.
use flavor_rag.Prelude.{
  is_nil, ℕ, String, List, Bool, Option, none, some, if◌then◌else◌, not, eqb, truthy, ◌≡◌, ◌⊎◌, inl,
  inr, ◌↔◌, [], ◌∷◌, map, filter, concat, batches, Member, ◌||◌, length,
}

pub record Client (V Vector : Type 0) : Type 0 where
  -- `get_collection(name) is not None`
  pub has_collection : V → String → Bool
  -- The number of components of the collection's vectors, and of a vector.
  pub collection_dim : V → String → Option ℕ
  pub size : Vector → ℕ
  -- `chunk_id` of the rows that `query` with `chunk_id in [..]` gives, at most so many rows, and of those
  -- that the iterator gives.
  pub query : V → String → List String → ℕ → List String
  pub iterate : V → String → List String
  pub delete : V → String → List String → List ℕ ⊎ V
  pub insert : V → String → List String → List String → List String → List Vector → List ℕ ⊎ V
  -- The text of `EmbeddingDimensionMismatch`.
  pub mismatch : String → ℕ → ℕ → List ℕ

module _ {V Vector : Type 0} (client : Client V Vector) where
  unfoldable pub existing_chunk_ids : V → String → List String → List String
  existing_chunk_ids v name ids =
      if client.has_collection v name
      then filter truthy
          (concat (map (λ batch. client.query v name batch (length batch)) (batches 500 ids)))
      else []

  unfoldable pub all_chunk_ids : V → String → List String
  all_chunk_ids v name =
      if client.has_collection v name then filter truthy (client.iterate v name) else []

  unfoldable pub delete_by_ids : V → String → List String → List ℕ ⊎ V
  delete_by_ids v name ids =
      if is_nil ids || not (client.has_collection v name) then inr v else client.delete v name ids

  -- The dimensions of the schema and of the first vector, if they differ.
  abbrev pub dims_differ : Option ℕ → List Vector → Option (ℕ × ℕ)
  dims_differ none vectors = none
  dims_differ (some dim) [] = none
  dims_differ (some dim) (x ∷ vectors) =
      if eqb dim (client.size x) then none else some (dim, client.size x)

  unfoldable pub insert :
      V → String → List String → List String → List String → List Vector → List ℕ ⊎ V
  insert v name ids docs contents vectors =
      if not (client.has_collection v name)
      then inr v
      else elim (dims_differ (client.collection_dim v name) vectors) [
        | some (schema, actual) ↦ inl (client.mismatch name schema actual)
        | none ↦ client.insert v name ids docs contents vectors
      ]

  -- What Milvus documents of these operations, for the identifiers in the collections. A query with a
  -- limit need not give all rows that match.
  pub record IsClient : Type 0 where
    pub query-Member :
        (v : V) (name : String) (ids : List String) (limit : ℕ) (x : String)
        → Member x (client.query v name ids limit)
        → Member x ids × Member x (client.iterate v name)
    pub delete-Member :
        (v w : V) (name : String) (ids : List String)
        → client.delete v name ids ≡ inr w
        → (client.has_collection w name ≡ client.has_collection v name)
          × ((x : String)
              → Member x (client.iterate w name)
                ↔ (Member x (client.iterate v name) × (Member x ids → ⊥)))
    pub insert-Member :
        (v w : V) (name : String) (ids docs contents : List String) (vectors : List Vector)
        → client.insert v name ids docs contents vectors ≡ inr w
        → (client.has_collection w name ≡ client.has_collection v name)
          × ((x : String)
              → Member x (client.iterate w name)
                ↔ (Member x (client.iterate v name) ⊎ Member x ids))
