-- ===== src/Repairs/Stuck.antt =====
-- A repair job whose worker stopped while it ran.
use flavor_rag.Prelude.{
  ℕ, List, Bool, Option, none, some, true, false, if◌then◌else◌, not, ◌==◌, eq_iff, in_list, ◌≡◌,
  inl, inr, [], ◌∷◌, map, filter, All, Member, All-of_Member, All-filter_given, All-filter,
  All-take, arith, Bool-cases, Option-cases, refl, sym, ◌∙◌, ap, subst, All-of_map, leb,
}
use flavor_rag.Prelude.Sort.{sort, All-sort}
use flavor_rag.Jobs.Store.{find?, update_where}
use flavor_rag.Indexes.Lifecycle.{KbIndex}
use flavor_rag.Repairs.Vectors.{Client}
use flavor_rag.Repairs.Store.{RepairJob, running, StoredChunk}
use flavor_rag.Repairs.Worker.{
  Answers, is_claimable, due_repairs, start_repair, settle_repair, fail_repair, process_repair,
  process_repairs, run_repairs, repair_channel, job_chunks,
}

-- The row is there, and no other row has its identifier.
abbrev pub Alone : RepairJob → List RepairJob → Type 0
Alone j jobs = Member j jobs × ((i : RepairJob) → Member i jobs → i.id ≡ j.id → i ≡ j)

Member-update_where :
    (p : RepairJob → Bool) (f : RepairJob → RepairJob) (i : RepairJob) (jobs : List RepairJob)
    → Member i (update_where p f jobs)
    → (o : RepairJob) × Member o jobs × (i ≡ (if p o then f o else o))
unfolding update_where
Member-update_where p f i [] m = absurd m
Member-update_where p f i (o ∷ jobs) (inl e) = (o, inl refl, e)
Member-update_where p f i (o ∷ jobs) (inr m) =
    let (q, k, e) = Member-update_where p f i jobs m in (q, inr k, e)

Member-update_where_kept :
    (p : RepairJob → Bool) (f : RepairJob → RepairJob) (j : RepairJob) (jobs : List RepairJob)
    → Member j jobs
    → p j ≡ false
    → Member j (update_where p f jobs)
unfolding update_where
Member-update_where_kept p f j [] m h = m
Member-update_where_kept p f j (o ∷ jobs) (inl e) h = inl (rw (sym e, h) refl)
Member-update_where_kept p f j (o ∷ jobs) (inr m) h = inr (Member-update_where_kept p f j jobs m h)

Alone-update_where :
    (p : RepairJob → Bool) (f : RepairJob → RepairJob) (j : RepairJob) (jobs : List RepairJob)
    → Alone j jobs
    → p j ≡ false
    → ((i : RepairJob) → p i ≡ true → (f i).id ≡ i.id)
    → Alone j (update_where p f jobs)
Alone-update_where p f j jobs (there, only) h same = (
  Member-update_where_kept p f j jobs there h,
  λ i m e.
      let (o, k, q) = Member-update_where p f i jobs m in
      elim (Bool-cases (p o)) [
        | inr g ↦
            let at_o : i ≡ o = rw g at q in
            at_o ∙ only o k (sym (ap (λ (r : RepairJob). r.id) at_o) ∙ e)
        | inl g ↦
            let changed : i ≡ f o = rw g at q in
            let id : o.id ≡ j.id =
              sym (same o g) ∙ sym (ap (λ (r : RepairJob). r.id) changed) ∙ e in
            let hit : p j ≡ true = subst (λ r. p r ≡ true) (only o k id) g in
            absurd (cc (sym h ∙ hit))
      ],
)

settle_repair-id :
    (now : ℕ) (o : Option (List ℕ)) (j : RepairJob) → (settle_repair now o j).id ≡ j.id
unfolding fail_repair
settle_repair-id now none j = refl
settle_repair-id now (some e) j = ground arith

module _ {V Vector : Type 0} (client : Client V Vector) where
  process_repair-id :
      (answers : Answers client) (now : ℕ) (kbs : List KbIndex) (chunks : List StoredChunk)
      (v w : V) (j settled : RepairJob)
      → process_repair client answers now kbs chunks v j ≡ some (w, settled)
      → settled.id ≡ j.id
  unfolding process_repair
  process_repair-id answers now kbs chunks v w j settled h =
      elim (Option-cases (find? (λ (k : KbIndex). k.id == j.kb_id) kbs)) [
        | inl e ↦ cc (rw (e, process_repair) at h)
        | inr (kb, e) ↦
            let r = repair_channel client answers v kb j (job_chunks j chunks) in
            let both : some (r.0, settle_repair now r.1 j) ≡ some (w, settled) =
              rw (e, process_repair) at h in
            let same : settle_repair now r.1 j ≡ settled =
              ap (λ (x : V × RepairJob). x.1) (some_eq both) in
            sym (ap (λ (x : RepairJob). x.id) same) ∙ settle_repair-id now r.1 j
      ]
    where
      some_eq : {a b : V × RepairJob} → some a ≡ some b → a ≡ b
      some_eq h = cc h

  process_repairs-Alone :
      (answers : Answers client) (now : ℕ) (kbs : List KbIndex) (chunks : List StoredChunk) (v : V)
      (j : RepairJob) (jobs claimed : List RepairJob)
      → Alone j jobs
      → All (λ c. (c.id == j.id) ≡ false) claimed
      → Alone j ((process_repairs client answers now kbs chunks v jobs claimed).1)
  unfolding process_repairs
  process_repairs-Alone answers now kbs chunks v j jobs [] h others = h
  process_repairs-Alone answers now kbs chunks v j jobs (c ∷ claimed) h others =
      elim (Option-cases (process_repair client answers now kbs chunks v c)) [
        | inl e ↦ rw (e, process_repairs) h
        | inr (r, e) ↦
            let settled = r.1 in
            let id = process_repair-id answers now kbs chunks v r.0 c settled e in
            rw (e, process_repairs)
              (process_repairs-Alone answers now kbs chunks r.0 j
                (update_where (λ i. i.id == c.id) (λ i. settled) jobs) claimed
                (Alone-update_where (λ i. i.id == c.id) (λ i. settled) j jobs h (other_way others.0)
                  (λ i g. id ∙ sym ((eq_iff i.id c.id).0 g)))
                others.1)
      ]
    where
      other_way : (c.id == j.id) ≡ false → (j.id == c.id) ≡ false
      other_way h = ground (arith, eq_iff c.id j.id, eq_iff j.id c.id, h)

  due_repairs-others :
      (now : ℕ) (locked : RepairJob → Bool) (j : RepairJob) (jobs : List RepairJob)
      → Alone j jobs
      → j.status ≡ running
      → All (λ d. (d.id == j.id) ≡ false) (due_repairs now locked jobs)
  unfolding due_repairs
  due_repairs-others now locked j jobs (there, only) h =
      let P = λ (d : RepairJob). (d.id == j.id) ≡ false in
      let by_create = λ (a b : RepairJob). leb a.create_time b.create_time in
      let waiting = filter (is_claimable now) jobs in
      let others : All P waiting =
        All-filter_given (λ d. Member d jobs) P (is_claimable now) jobs
          (λ d claimable m. apart d claimable m)
          (All-of_Member (λ d. Member d jobs) jobs (λ d m. m)) in
      All-take P 4 (filter (λ d. not (locked d)) (sort by_create waiting)) (
        All-filter P (λ d. not (locked d)) (sort by_create waiting)
          (All-sort by_create P waiting others))
    where
      not_running : (r : RepairJob) → r.status ≡ running → is_claimable now r ≡ true → ⊥
      not_running r e c = elim (Bool-cases r.deleted) [
        | inl d ↦ cc (rw (e, d, is_claimable) at c)
        | inr d ↦ cc (rw (e, d, is_claimable) at c)
      ]

      apart : (d : RepairJob) → is_claimable now d ≡ true → Member d jobs → (d.id == j.id) ≡ false
      apart d claimable m = elim (Bool-cases (d.id == j.id)) [
        | inr e ↦ e
        | inl e ↦
            let same : d ≡ j = only d m ((eq_iff d.id j.id).0 e) in
            absurd (not_running j h (subst (λ r. is_claimable now r ≡ true) same claimable))
      ]

  -- A repair job that is RUNNING and whose identifier no other row has is the same after any round of the
  -- repair worker, whatever the clock, the locked rows and the answers of the other components.
  pub run_repairs-running :
      (answers : Answers client) (now : ℕ) (locked : RepairJob → Bool) (kbs : List KbIndex)
      (chunks : List StoredChunk) (v : V) (j : RepairJob) (jobs : List RepairJob)
      → Alone j jobs
      → j.status ≡ running
      → Alone j ((run_repairs client answers now locked kbs chunks v jobs).1)
  unfolding run_repairs start_repair
  run_repairs-running answers now locked kbs chunks v j jobs h e =
      let due = due_repairs now locked jobs in
      let others = due_repairs-others now locked j jobs h e in
      let p = λ (r : RepairJob). in_list r.id (map (λ (d : RepairJob). d.id) due) in
      process_repairs-Alone answers now kbs chunks v j (update_where p start_repair jobs)
        (map start_repair due)
        (Alone-update_where p start_repair j jobs h (not_listed due others) (λ i g. refl))
        (All-of_map (λ c. (c.id == j.id) ≡ false) start_repair due others)
    where
      not_listed :
          (ds : List RepairJob)
          → All (λ d. (d.id == j.id) ≡ false) ds
          → in_list j.id (map (λ (d : RepairJob). d.id) ds) ≡ false
      not_listed [] g = refl
      not_listed (d ∷ ds) g =
          ground (arith, eq_iff d.id j.id, eq_iff j.id d.id, not_listed ds g.1, g.0)
