-- ===== src/Repairs/Success.antt =====
-- What a repair of the vector index does, whichever way it ends.
use flavor_rag.Prelude.{
  ℕ, String, List, Option, none, some, true, ◌+◌, take, ◌≡◌, ◌↔◌, ◌⊎◌, Member, truthy, ◌≤◌, ◌<◌,
  false,
}
use flavor_rag.Repairs.Vectors.{Client, IsClient, all_chunk_ids}
use flavor_rag.Repairs.Store.{success, RepairJob, dead, retry, StoredChunk}
use flavor_rag.Repairs.Worker.{or_five}

module _ {V Vector : Type 0} (client : Client V Vector) (law : IsClient client) where
  -- The rows of other chunks stay as they are; without an exception the chunks are in the collection.
  abbrev pub Replaced : V → V → String → List String → Option (List ℕ) → Type 0
  Replaced v u name ids o =
      (x : String)
      → truthy x ≡ true
      → ((Member x ids → ⊥)
          → Member x (all_chunk_ids client u name) ↔ Member x (all_chunk_ids client v name))
        × (o ≡ none → Member x ids → Member x (all_chunk_ids client u name))

  -- The two ways in which a failed job goes on.
  abbrev pub Failed : ℕ → List ℕ → RepairJob → RepairJob → Type 0
  Failed now e j settled =
      (settled.last_error ≡ some (take 2000 e))
      × (((settled.status ≡ dead) × (or_five j.max_attempts ≤ j.attempts))
          ⊎ ((settled.status ≡ retry)
              × (j.attempts < or_five j.max_attempts)
              × ((t : ℕ) × (settled.next_retry_time ≡ some t) × (now < t) × (t ≤ now + 900))))

  -- An active chunk of the job's document and generation has this identifier.
  abbrev pub Wanted : RepairJob → List StoredChunk → String → Type 0
  Wanted j chunks x =
      (c : StoredChunk) × Member c chunks
      × (c.id ≡ x)
      × (c.doc_id ≡ j.doc_id)
      × (c.generation ≡ j.generation)
      × (c.index_status ≡ "ACTIVE")
      × (c.deleted ≡ false)

  -- What the operation leaves in the collection of the job's knowledge base.
  abbrev pub Repaired : V → V → String → RepairJob → List StoredChunk → Option (List ℕ) → Type 0
  Repaired v u name j chunks o =
      (x : String)
      → truthy x ≡ true
      → ((Wanted j chunks x → ⊥)
          → Member x (all_chunk_ids client u name) ↔ Member x (all_chunk_ids client v name))
        × (o ≡ none → Wanted j chunks x → Member x (all_chunk_ids client u name))

  -- The row of a job that succeeded.
  abbrev pub Succeeded : RepairJob → RepairJob → Type 0
  Succeeded j settled =
      (settled.status ≡ success)
      × (settled.last_error ≡ none)
      × (settled.next_retry_time ≡ none)
      × (settled.id ≡ j.id)
      × (settled.attempts ≡ j.attempts)

  -- How a job of the vector index is settled: it is SUCCESS when the collection has the active chunks of
  -- its document and generation; otherwise the exception is recorded, and the job is DEAD when its
  -- attempts are used up and else waits at most a quarter of an hour for the next one.
  abbrev pub Settled : ℕ → V → V → String → List StoredChunk → RepairJob → RepairJob → Type 0
  Settled now v u name chunks j settled =
      (o : Option (List ℕ)) × Repaired v u name j chunks o
      × (((o ≡ none) × Succeeded j settled)
          ⊎ ((e : List ℕ) × (o ≡ some e) × Failed now e j settled))
