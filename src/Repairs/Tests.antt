-- ===== src/Repairs/Tests.antt =====
-- The workers on a vector server that is a list of identifiers.
use flavor_rag.Prelude.{
  batches, ℕ, String, List, none, some, true, false, not, ◌==◌, in_list, in_list→Member,
  Member→in_list, ◌≡◌, inl, inr, [], ◌∷◌, ◌++◌, filter, Member, Member-filter, Member-filter_test,
  Member→filter, Member-append, Member-append_left, Member-append_right, arith, Bool-cases, refl,
  subst, sym, take, suc, zero,
}
use flavor_rag.Indexes.Lifecycle.{KbIndex}
use flavor_rag.Jobs.Store.{find?}
use flavor_rag.Repairs.Vectors.{Client, IsClient, all_chunk_ids, delete_by_ids}
use flavor_rag.Repairs.Store.{RepairJob, RepairStatus, running, StoredChunk}
use flavor_rag.Repairs.Reconcile.{active_chunks, orphan_ids, reconcile_kb, is_pending, new_repair}
use flavor_rag.Repairs.Worker.{Answers, run_repairs}
use flavor_rag.Repairs.Drift.{AtMostOne, Reconciled, reconcile_kb_lem}
use flavor_rag.Repairs.Stuck.{Alone, run_repairs-running}

Member-take : (n : ℕ) (x : String) (xs : List String) → Member x (take n xs) → Member x xs
Member-take zero x xs m = absurd m
Member-take (suc n) x [] m = absurd m
Member-take (suc n) x (y ∷ xs) (inl e) = inl e
Member-take (suc n) x (y ∷ xs) (inr m) = inr (Member-take n x xs m)

abbrev listed : Client (List String) ℕ
listed = record {
  has_collection = λ v name. true;
  collection_dim = λ v name. some 3;
  size = λ x. x;
  query = λ v name ids limit. take limit (filter (λ i. in_list i v) ids);
  iterate = λ v name. v;
  delete = λ v name ids. inr (filter (λ i. not (in_list i ids)) v);
  insert = λ v name ids docs contents vectors. inr (v ++ ids);
  mismatch = λ name schema actual. [];
}

listed-IsClient : IsClient listed
listed-IsClient = record {
  query-Member = λ v name ids limit x m.
      let found = Member-take limit x (filter (λ i. in_list i v) ids) m in
      (
        Member-filter (λ i. in_list i v) x ids found,
        in_list→Member x v (Member-filter_test (λ i. in_list i v) x ids found),
      );
  delete-Member = λ v w name ids h.
      let same : filter (λ i. not (in_list i ids)) v ≡ w = cc h in
      (
        refl,
        λ x. (
          λ m.
              let n = subst (Member x) (sym same) m in
              (
                Member-filter (λ i. not (in_list i ids)) x v n,
                λ k. cc (
                    rw (Member→in_list x ids k) at
                      (Member-filter_test (λ i. not (in_list i ids)) x v n)),
              ),
          λ (m, out). subst (Member x) same (
              Member→filter (λ i. not (in_list i ids)) x v m
                (elim (Bool-cases (in_list x ids)) [
                  | inl e ↦ absurd (out (in_list→Member x ids e))
                  | inr e ↦ rw e refl
                ])),
        ),
      );
  insert-Member = λ v w name ids docs contents vectors h.
      let same : v ++ ids ≡ w = cc h in
      (
        refl,
        λ x. (
          λ m. Member-append x v ids (subst (Member x) (sym same) m),
          λ m. subst (Member x) same (elim m [
            | inl old ↦ Member-append_left x v ids old
            | inr new ↦ Member-append_right x v ids new
          ]),
        ),
      );
}

abbrev answers : Answers listed
answers = record {
  elasticsearch = λ chunks. none;
  graph = λ kb chunks. none;
  embed_documents = λ model texts. inr (3 ∷ []);
  unknown_channel = λ channel. [];
}

abbrev base : KbIndex
base = record {
  id = "kb";
  collection_name = "c";
  embedding_model = "m";
  active_collection_name = "";
  active_index_generation = "";
  deleted = false;
}

abbrev chunk : String → StoredChunk
chunk id = record {
  id = id;
  kb_id = "kb";
  doc_id = "d";
  generation = "g";
  content = "text";
  embedding_content = "";
  index_status = "ACTIVE";
  deleted = false;
}

abbrev job : RepairStatus → RepairJob
job status = record {
  id = "j1";
  kb_id = "kb";
  doc_id = "d";
  generation = "g";
  channel = "milvus";
  operation = "REPLACE_DOCUMENT";
  status = status;
  attempts = 1;
  max_attempts = 5;
  next_retry_time = none;
  last_error = none;
  create_time = 0;
  deleted = false;
}

-- The server has an orphan and lacks the second chunk.
abbrev chunks : List StoredChunk
chunks = chunk "a" ∷ chunk "b" ∷ []

abbrev server : List String
server = "a" ∷ "old" ∷ []

abbrev gen_id : ℕ → String
gen_id n = "new"

reconcile_kb-missing :
    reconcile_kb gen_id 7 listed server base chunks []
    ≡ ("a" ∷ [], inr (new_repair "new" 7 "kb" ("d", "g") ∷ []))
unfolding reconcile_kb new_repair is_pending batches
reconcile_kb-missing = refl

orphans_deleted :
    delete_by_ids listed server "c"
      (orphan_ids gen_id 7 listed server base (active_chunks base chunks))
    ≡ inr ("a" ∷ [])
unfolding delete_by_ids all_chunk_ids active_chunks
orphans_deleted = refl

found : find? (λ (k : KbIndex). k.id == "kb") (base ∷ []) ≡ some base
unfolding find?
found = refl

alone : Alone (job running) (job running ∷ [])
alone = (inl refl, λ i m e. elim m [ inl h ↦ h | inr h ↦ absurd h ])

reconcile_kb_lem_example :
    (more : List RepairJob) × (reconcile_kb gen_id 7 listed server base chunks []
      ≡ ("a" ∷ [], inr more))
    × AtMostOne more
    × Reconciled gen_id 7 listed listed-IsClient server
        ("a" ∷ [])
        base
        (active_chunks base chunks)
        more
reconcile_kb_lem_example =
    reconcile_kb_lem gen_id 7 listed listed-IsClient server ("a" ∷ []) base chunks []
      (λ k. omega arith) orphans_deleted

run_repairs-running_example :
    Alone
      (job running)
      ((run_repairs listed answers 7 (λ j. false) (base ∷ []) chunks server (job running ∷ [])).1)
run_repairs-running_example =
    run_repairs-running listed answers 7 (λ j. false) (base ∷ []) chunks server (job running)
      (job running ∷ []) alone refl
