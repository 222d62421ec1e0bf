-- ===== src/Repairs/Store.antt =====
-- The rows of IndexRepairJob and KnowledgeChunk that the workers read and write.
use flavor_rag.Prelude.{ℕ, String, List, Bool, Option, true, false, ◌&&◌, ◌==◌, not}

pub data RepairStatus : Type 0 where
  queued running retry success dead : RepairStatus

-- `status in ["QUEUED", "RUNNING", "RETRY"]`
abbrev pub is_open : RepairStatus → Bool
is_open queued = true
is_open running = true
is_open retry = true
is_open success = false
is_open dead = false

-- `status in ["QUEUED", "RETRY"]`
abbrev pub is_waiting : RepairStatus → Bool
is_waiting queued = true
is_waiting retry = true
is_waiting _ = false

pub record RepairJob : Type 0 where
  pub id : String
  pub kb_id : String
  pub doc_id : String
  pub generation : String
  pub channel : String
  pub operation : String
  pub status : RepairStatus
  pub attempts : ℕ
  pub max_attempts : ℕ
  pub next_retry_time : Option ℕ
  pub last_error : Option (List ℕ)
  pub create_time : ℕ
  pub deleted : Bool

pub record StoredChunk : Type 0 where
  pub id : String
  pub kb_id : String
  pub doc_id : String
  pub generation : String
  pub content : String
  pub embedding_content : String
  pub index_status : String
  pub deleted : Bool

-- `index_status == "ACTIVE" and deleted == 0`
abbrev pub is_live : StoredChunk → Bool
is_live c = (c.index_status == "ACTIVE") && not c.deleted
