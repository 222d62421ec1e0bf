-- ===== src/Repairs/Drift.antt =====
-- What a round of the reconciliation leaves behind.
use flavor_rag.Repairs.Client.{delete_by_ids-Member, existing→Member_all}
use flavor_rag.Prelude.{
  is_nil, ℕ, String, List, Bool, true, false, if◌then◌else◌, not, eq_iff, in_list, in_list→Member,
  Member→in_list, ◌+◌, ◌≤◌, ◌≡◌, ◌↔◌, ◌⊎◌, inl, inr, [], ◌∷◌, ◌++◌, length, filter, All, Member,
  Member-filter_test, Member→filter, filter-append, arith, Bool-cases, refl, sym, ◌∙◌, ap, eq_refl,
  length-append, All-member,
}
use flavor_rag.Indexes.Lifecycle.{KbIndex}
use flavor_rag.Repairs.Vectors.{Client, IsClient, existing_chunk_ids, all_chunk_ids, delete_by_ids}
use flavor_rag.Repairs.Store.{
  RepairJob, StoredChunk, RepairStatus, queued, running, retry, success, dead, is_open,
}
use flavor_rag.Repairs.Reconcile.{
  collection_of, active_chunks, ids_of_chunks, DocKey, same_key, chunk_key, doc_keys, is_pending,
  new_repair, queue_missing, missing_ids, orphan_ids, reconcile_kb,
}

same_key→eq : (a b : DocKey) → same_key a b ≡ true → a ≡ b
same_key→eq (a, b) (c, d) h =
    let left : a ≡ c = (eq_iff a c).0 (ground arith) in
    let right : b ≡ d = (eq_iff b d).0 (ground arith) in rw (left, right) refl

same_key_refl : (a : DocKey) → same_key a a ≡ true
same_key_refl (a, b) = rw (eq_refl a, eq_refl b) refl

doc_keys-Member :
    (c : StoredChunk) (chunks : List StoredChunk)
    → Member c chunks
    → Member (chunk_key c) (doc_keys chunks)
unfolding doc_keys
doc_keys-Member c [] m = absurd m
doc_keys-Member c (d ∷ chunks) (inl e) = inl (ap chunk_key e)
doc_keys-Member c (d ∷ chunks) (inr m) = elim (Bool-cases (same_key (chunk_key c) (chunk_key d))) [
  | inl e ↦ inl (same_key→eq (chunk_key c) (chunk_key d) e)
  | inr e ↦ inr (
      Member→filter (λ k. not (same_key k (chunk_key d))) (chunk_key c) (doc_keys chunks)
        (doc_keys-Member c chunks m) (rw e refl))
]

doc_keys_nil :
    (chunks : List StoredChunk) (k : DocKey) → is_nil chunks ≡ true → Member k (doc_keys chunks) → ⊥
unfolding doc_keys
doc_keys_nil [] k h m = m
doc_keys_nil (c ∷ chunks) k h m = cc h

-- A document and generation has at most one open job for the vector index.
abbrev pub AtMostOne : List RepairJob → Type 0
AtMostOne jobs = (k : DocKey) → length (filter (is_pending k) jobs) ≤ 1

abbrev pub HasPending : DocKey → List RepairJob → Type 0
HasPending k jobs = 1 ≤ length (filter (is_pending k) jobs)

-- A job that is not deleted, is QUEUED, RUNNING or RETRY, and is for the vector index and for this
-- document and generation.
abbrev pub HasOpen : DocKey → List RepairJob → Type 0
HasOpen k jobs =
    (j : RepairJob) × Member j jobs
    × (j.doc_id ≡ k.0)
    × (j.generation ≡ k.1)
    × (j.channel ≡ "milvus")
    × ((j.status ≡ queued) ⊎ (j.status ≡ running) ⊎ (j.status ≡ retry))
    × (j.deleted ≡ false)

is_open-cases : (s : RepairStatus) → is_open s ≡ true → (s ≡ queued) ⊎ (s ≡ running) ⊎ (s ≡ retry)
is_open-cases queued h = inl refl
is_open-cases running h = inr (inl refl)
is_open-cases retry h = inr (inr refl)
is_open-cases success h = absurd (cc)
is_open-cases dead h = absurd (cc)

HasPending→HasOpen : (k : DocKey) (jobs : List RepairJob) → HasPending k jobs → HasOpen k jobs
unfolding is_pending
HasPending→HasOpen k [] h = absurd (omega arith)
HasPending→HasOpen k (j ∷ jobs) h = elim (Bool-cases (is_pending k j)) [
  | inl e ↦
      let (doc, gen) = opened k j e in
      (
        j,
        inl refl,
        doc,
        gen,
        (eq_iff j.channel "milvus").0 (ground arith),
        is_open-cases j.status (ground arith),
        ground arith,
      )
  | inr e ↦
      let (i, m, doc, gen, milvus, open_status, live) = HasPending→HasOpen k jobs (rw e at h) in
      (i, inr m, doc, gen, milvus, open_status, live)
]
  where
    opened :
        (k : DocKey) (j : RepairJob)
        → is_pending k j ≡ true
        → (j.doc_id ≡ k.0) × (j.generation ≡ k.1)
    opened k j e =
        ((eq_iff j.doc_id k.0).0 (ground arith), (eq_iff j.generation k.1).0 (ground arith))

module _ (gen_id : ℕ → String) (now : ℕ) where
  is_pending-new_repair :
      (id kb_id : String) (k j : DocKey) → is_pending j (new_repair id now kb_id k) ≡ same_key k j
  unfolding is_pending new_repair
  is_pending-new_repair id kb_id k j = ground arith

  pending-append :
      (id kb_id : String) (k j : DocKey) (jobs : List RepairJob)
      → length (filter (is_pending j) (jobs ++ new_repair id now kb_id k ∷ []))
        ≡ length (filter (is_pending j) jobs) + (if same_key k j then 1 else 0)
  pending-append id kb_id k j jobs =
      let row = new_repair id now kb_id k in
      let split = ap length (filter-append (is_pending j) jobs (row ∷ [])) in
      let sizes = length-append (filter (is_pending j) jobs) (filter (is_pending j) (row ∷ [])) in
      let one : length (filter (is_pending j) (row ∷ [])) ≡ (if same_key k j then 1 else 0) =
        one_row (is_pending j row) (same_key k j) (is_pending-new_repair id kb_id k j) in
      split ∙ sizes ∙ ap (λ n. length (filter (is_pending j) jobs) + n) one
    where
      one_row :
          (b c : Bool)
          → b ≡ c
          → length (if b then new_repair id now kb_id k ∷ [] else []) ≡ (if c then 1 else 0)
      one_row true c e = rw (sym e) refl
      one_row false c e = rw (sym e) refl

  -- The jobs only become more, and every key has an open job.
  abbrev Queued : List DocKey → List RepairJob → List RepairJob → Type 0
  Queued keys jobs more =
      AtMostOne more
      × ((k : DocKey) → HasPending k jobs → HasPending k more)
      × All (λ k. HasPending k more) keys

  AtMostOne-append :
      (id kb_id : String) (k : DocKey) (jobs : List RepairJob)
      → AtMostOne jobs
      → filter (is_pending k) jobs ≡ []
      → AtMostOne (jobs ++ new_repair id now kb_id k ∷ [])
  AtMostOne-append id kb_id k jobs once e j =
      let size = pending-append id kb_id k j jobs in
      elim (Bool-cases (same_key k j)) [
        | inl f ↦
            let same : length (filter (is_pending j) jobs) ≡ 0 =
              ap (λ i. length (filter (is_pending i) jobs)) (sym (same_key→eq k j f))
              ∙ ap length e in
            omega (arith, rw f at size, same)
        | inr f ↦ omega (arith, rw f at size, once j)
      ]

  HasPending-append :
      (id kb_id : String) (k j : DocKey) (jobs : List RepairJob)
      → HasPending j jobs
      → HasPending j (jobs ++ new_repair id now kb_id k ∷ [])
  HasPending-append id kb_id k j jobs h = omega (arith, pending-append id kb_id k j jobs, h)

  HasPending-new :
      (id kb_id : String) (k : DocKey) (jobs : List RepairJob)
      → HasPending k (jobs ++ new_repair id now kb_id k ∷ [])
  HasPending-new id kb_id k jobs =
      let size = pending-append id kb_id k k jobs in omega (arith, rw (same_key_refl k) at size)

  abbrev Step : String → List DocKey → List RepairJob → Type 0
  Step kb_id keys jobs =
      (more : List RepairJob) × (queue_missing gen_id now kb_id keys jobs ≡ inr more)
      × Queued keys jobs more

  queue_missing_lem :
      (kb_id : String) (keys : List DocKey) (jobs : List RepairJob)
      → AtMostOne jobs
      → Step kb_id keys jobs
  unfolding queue_missing
  queue_missing_lem kb_id [] jobs once = (jobs, refl, (once, λ k h. h, tt))
  queue_missing_lem kb_id (k ∷ keys) jobs once =
      by_pending (filter (is_pending k) jobs) refl (queue_missing_lem kb_id keys)
    where
      by_pending :
          (pending : List RepairJob)
          → filter (is_pending k) jobs ≡ pending
          → ((js : List RepairJob) → AtMostOne js → Step kb_id keys js)
          → Step kb_id (k ∷ keys) jobs
      by_pending [] e later =
          let id = gen_id (length jobs) in
          let (more, found, (once_more, kept, queued_keys)) =
            later (jobs ++ new_repair id now kb_id k ∷ [])
              (AtMostOne-append id kb_id k jobs once e) in
          (
            more,
            rw (e, queue_missing) found,
            (
              once_more,
              λ j h. kept j (HasPending-append id kb_id k j jobs h),
              (kept k (HasPending-new id kb_id k jobs), queued_keys),
            ),
          )
      by_pending (p ∷ []) e later =
          let (more, found, (once_more, kept, queued_keys)) = later jobs once in
          (
            more,
            rw (e, queue_missing) found,
            (once_more, kept, (kept k (omega (arith, ap length e)), queued_keys)),
          )
      by_pending (p ∷ q ∷ rest) e later = absurd (omega (arith, once k, ap length e))

  module _ {V Vector : Type 0} (client : Client V Vector) (law : IsClient client) where
    -- After the round for a knowledge base: what the collection holds, and what has a job.
    abbrev pub Reconciled : V → V → KbIndex → List StoredChunk → List RepairJob → Type 0
    Reconciled v w kb active more =
        ((x : String)
          → Member x (all_chunk_ids client w (collection_of kb)) ↔ (
              Member x (all_chunk_ids client v (collection_of kb))
              × Member x (ids_of_chunks active)))
        × ((c : StoredChunk)
            → Member c active
            → Member c.id (all_chunk_ids client w (collection_of kb)) ⊎ HasOpen (chunk_key c) more)

    no_orphans :
        (v w : V) (kb : KbIndex) (active : List StoredChunk)
        → delete_by_ids client v (collection_of kb) (orphan_ids gen_id now client v kb active)
          ≡ inr w
        → (x : String)
        → Member x (all_chunk_ids client w (collection_of kb))
          ↔ (Member x (all_chunk_ids client v (collection_of kb)) × Member x (ids_of_chunks active))
    no_orphans v w kb active h x =
        let name = collection_of kb in
        let all = all_chunk_ids client v name in
        let p = λ (y : String). not (in_list y (ids_of_chunks active)) in
        let rows =
          delete_by_ids-Member client law v w name (orphan_ids gen_id now client v kb active) h x in
        (
          λ m.
              let (old, kept) = rows.0 m in
              (
                old,
                elim (Bool-cases (in_list x (ids_of_chunks active))) [
                  | inl e ↦ in_list→Member x (ids_of_chunks active) e
                  | inr e ↦ absurd (kept (Member→filter p x all old (rw e refl)))
                ],
              ),
          λ (old, m). rows.1 (
            old,
            λ n.
                let out = Member-filter_test p x all n in
                cc (rw (Member→in_list x (ids_of_chunks active) m) at out),
          ),
        )

    Member-ids_of_chunks :
        (c : StoredChunk) (active : List StoredChunk)
        → Member c active
        → Member c.id (ids_of_chunks active)
    Member-ids_of_chunks c [] m = absurd m
    Member-ids_of_chunks c (d ∷ active) (inl e) = inl (ap (λ (i : StoredChunk). i.id) e)
    Member-ids_of_chunks c (d ∷ active) (inr m) = inr (Member-ids_of_chunks c active m)

    -- A chunk that the collection has not, or has.
    found_or_missing :
        (v w : V) (kb : KbIndex) (active : List StoredChunk)
        → delete_by_ids client v (collection_of kb) (orphan_ids gen_id now client v kb active)
          ≡ inr w
        → (c : StoredChunk) → Member c active
        → Member c.id (all_chunk_ids client w (collection_of kb))
          ⊎ Member (chunk_key c) (doc_keys (missing_ids gen_id now client v kb active))
    found_or_missing v w kb active h c m =
        let name = collection_of kb in
        let existing = existing_chunk_ids client v name (ids_of_chunks active) in
        elim (Bool-cases (in_list c.id existing)) [
          | inl e ↦ inl (
              (no_orphans v w kb active h c.id).1 (
                existing→Member_all client law v name c.id (ids_of_chunks active)
                    (in_list→Member c.id existing e),
                Member-ids_of_chunks c active m,
              ))
          | inr e ↦ inr (
              doc_keys-Member c (missing_ids gen_id now client v kb active)
                (Member→filter (λ d. not (in_list d.id existing)) c active m (rw e refl)))
        ]

    -- Under the stated laws of the client, and when no document and generation has two open jobs: if the
    -- deletion of the orphans succeeds, the round for a knowledge base does not raise; its collection then
    -- holds exactly those of its identifiers that active chunks have; every active chunk is in the
    -- collection, or a live job of its document and generation for the vector index is recorded as QUEUED,
    -- RUNNING or RETRY; and still no document and generation has two such jobs.
    pub reconcile_kb_lem :
        (v w : V) (kb : KbIndex) (chunks : List StoredChunk) (jobs : List RepairJob)
        → AtMostOne jobs
        → delete_by_ids client v
            (collection_of kb)
            (orphan_ids gen_id now client v kb (active_chunks kb chunks))
          ≡ inr w
        → (more : List RepairJob) × (reconcile_kb gen_id now client v kb chunks jobs
            ≡ (w, inr more))
          × AtMostOne more
          × Reconciled v w kb (active_chunks kb chunks) more
    unfolding reconcile_kb
    reconcile_kb_lem v w kb chunks jobs once h =
        let active = active_chunks kb chunks in
        let missing = missing_ids gen_id now client v kb active in
        let exact = no_orphans v w kb active h in
        let either = found_or_missing v w kb active h in
        elim (Bool-cases (is_nil missing)) [
          | inl e ↦ (
            jobs,
            rw (h, e, reconcile_kb) refl,
            once,
            (
              exact,
              λ c m. elim (either c m) [
                | inl found ↦ inl found
                | inr key ↦ absurd (doc_keys_nil missing (chunk_key c) e key)
              ],
            ),
          )
          | inr e ↦
              let (more, found, (once_more, kept, queued_keys)) =
                queue_missing_lem kb.id (doc_keys missing) jobs once in
              (
                more,
                rw (h, e, found, reconcile_kb) refl,
                once_more,
                (
                  exact,
                  λ c m. elim (either c m) [
                    | inl there ↦ inl there
                    | inr key ↦ inr (
                        HasPending→HasOpen (chunk_key c) more (
                          All-member (λ k. HasPending k more) (doc_keys missing) queued_keys
                            (chunk_key c) key))
                  ],
                ),
              )
        ]
