-- ===== src/Indexes/Tests.antt =====
-- A build on a small store.
use flavor_rag.Indexes.Polling.{IsAlone, run_polls, next_generation, run_polls_orphan}
use flavor_rag.Prelude.{
  ℕ, [], ◌∷◌, true, false, none, some, inl, inr, ◌≡◌, ◌≢◌, Member, refl, ◌∙◌, ap, sym, ◌==◌, eq_iff,
  ◌&&◌, not,
}
use flavor_rag.Jobs.Store.{find?, update_where}
use flavor_rag.Indexes.Lifecycle.{
  Generation, building, active, KbIndex, Chunk, Indexes, BuildError, Backend, Progress,
  build_and_promote, index_batches, start_progress, chunks_of, set_expected, build, promote,
  promote_row, index_batch, insert_batch,
}
use flavor_rag.Indexes.Consistency.{IsConsistent}
use flavor_rag.Indexes.Promotion.{build_and_promote-IsConsistent, build_and_promote-failed}

abbrev generation : Generation
generation = record {
  id = "r1";
  kb_id = "k1";
  generation = "g_1";
  collection_name = "docs__g_1";
  embedding_model = "m";
  embedding_dim = 0;
  status = building;
  expected_chunks = 0;
  indexed_chunks = 0;
  error_message = [];
  activated_at = none;
  created_by = "u1";
  deleted = false;
}

abbrev base : KbIndex
base = record {
  id = "k1";
  collection_name = "docs";
  embedding_model = "m";
  active_collection_name = "";
  active_index_generation = "v1";
  deleted = false;
}

abbrev chunk : Chunk
chunk = record {
  id = "c1";
  kb_id = "k1";
  doc_id = "d1";
  content = "text";
  embedding_content = "";
  index_status = "ACTIVE";
  enabled = true;
  deleted = false;
}

abbrev indexes : Indexes
indexes = record { generations = generation ∷ []; kbs = base ∷ []; chunks = chunk ∷ [] }

-- A vector store that counts a batch as so many entities.
abbrev backend : ℕ → Backend
backend n = record {
  embed_documents = λ texts. inr (3 ∷ []);
  create_collection = λ name dim. none;
  insert = λ name batch. none;
  str = λ e. 101 ∷ [];
  num_entities = λ name batches. inr n;
}

builds : build_and_promote (backend 1) 9 "r1" indexes ≡ (
  record {
    generations =
        record generation {
          status = active;
          embedding_dim = 3;
          expected_chunks = 1;
          indexed_chunks = 1;
          activated_at = some 9;
        }
        ∷ [];
    kbs =
        record base { active_collection_name = "docs__g_1"; active_index_generation = "g_1" } ∷ [];
    chunks = chunk ∷ [];
  },
  none,
)
unfolding build_and_promote find? update_where chunks_of set_expected build promote promote_row
    index_batches index_batch insert_batch
builds = refl

same_row : (g h : Generation) → Member g (generation ∷ []) → Member h (generation ∷ []) → g ≡ h
same_row g h (inl e) (inl f) = e ∙ sym f
same_row g h (inl e) (inr n) = absurd n
same_row g h (inr m) n = absurd m

indexes-IsConsistent : IsConsistent indexes
indexes-IsConsistent = record {
  apart = λ g h m n e. same_row g h m n;
  one_active = λ g h m n a b e. ap (λ x. x.id) (same_row g h m n);
  in_service =
      λ g k m n a e. absurd (cc (ap (λ x. x.status) (same_row g generation m (inl refl)), a));
}

build_and_promote-IsConsistent_example :
    IsConsistent (build_and_promote (backend 1) 9 "r1" indexes).0
build_and_promote-IsConsistent_example =
    build_and_promote-IsConsistent (backend 1) 9 "r1" indexes indexes-IsConsistent

fails : (build_and_promote (backend 0) 9 "r1" indexes).1 ≡ some (BuildError.validation_failed 1 0)
unfolding build_and_promote find? update_where chunks_of set_expected build promote promote_row
    index_batches index_batch insert_batch
fails = refl

build_and_promote-failed_example :
    ((build_and_promote (backend 0) 9 "r1" indexes).0.kbs ≡ base ∷ [])
    × ((g : Generation)
        → Member g (generation ∷ [])
        → (g.id ≢ "r1")
        → Member g (build_and_promote (backend 0) 9 "r1" indexes).0.generations)
build_and_promote-failed_example =
    build_and_promote-failed (backend 0) 9 "r1" indexes (BuildError.validation_failed 1 0) fails

abbrev progress : Progress
progress = record { resolved_dim = 3; indexed = 1; inserted = ("c1" ∷ []) ∷ [] }

indexed_all : index_batches (backend 1) "docs__g_1" 1 (chunk ∷ []) start_progress ≡ inr progress
unfolding index_batches index_batch insert_batch
indexed_all = refl

-- A generation whose base is not there stands before one that could be built.
abbrev orphaned : Indexes
orphaned = record indexes {
  generations = record generation { id = "r0"; kb_id = "k0" } ∷ generation ∷ [];
}

orphaned-IsAlone : IsAlone (record generation { id = "r0"; kb_id = "k0" }) orphaned
orphaned-IsAlone h (inl e) f = e
orphaned-IsAlone h (inr (inl e)) f =
    absurd (cc ((eq_iff "r1" "r0").1 (sym (ap (λ (g : Generation). g.id) e) ∙ f)))
orphaned-IsAlone h (inr (inr m)) f = absurd m

polls-builds :
    (run_polls
      (backend 1)
      (record { now = 9; granted = true } ∷ record { now = 14; granted = true } ∷ [])
      indexes).1
    ≡ 1
unfolding run_polls find? update_where chunks_of set_expected build promote promote_row
    index_batches index_batch insert_batch next_generation
polls-builds = refl

orphan_next : next_generation orphaned ≡ some (record generation { id = "r0"; kb_id = "k0" })
unfolding next_generation
orphan_next = refl

orphan_base : find? (λ (k : KbIndex). k.id == "k0" && not k.deleted) orphaned.kbs ≡ none
unfolding find?
orphan_base = refl

run_polls_orphan_example :
    run_polls
      (backend 1)
      (record { now = 9; granted = true } ∷ record { now = 9; granted = false } ∷ [])
      orphaned
    ≡ (orphaned, 0)
run_polls_orphan_example =
    run_polls_orphan (backend 1) _ orphaned (record generation { id = "r0"; kb_id = "k0" })
      orphan_next refl orphaned-IsAlone orphan_base
