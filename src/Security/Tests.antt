-- ===== src/Security/Tests.antt =====
-- The access code on a small store.
use flavor_rag.Prelude.{
  ℕ, String, List, Bool, true, false, some, none, [], ◌∷◌, ◌≡◌, ◌⊎◌, ◌↔◌, ◌&&◌, ◌||◌, not, ◌==◌,
  Member, refl,
}
use flavor_rag.Prelude.Dict.{get}
use flavor_rag.Search.{SearchResult}
use flavor_rag.Security.Access.{write, Principal, is_allowed}
use flavor_rag.Security.Service.{
  KbRow, DocumentRow, ChunkRow, AclRow, Tables, is_read, kb_access_predicate,
  document_access_predicate, filter_authorized_results, chunk_readable, scope_of, acl_exists,
  acl_matches, permission_names, visible_to_readers, parent_allowed,
}
use flavor_rag.Security.Policy.{kb_access-is_allowed, kb_resource, grants_of}
use flavor_rag.Security.Scope.{document_access-isolated, Parent, filter_authorized_lem, Permits}
use flavor_rag.Security.Approval.{
  transition_all, transition_all-reviewed, transition, can_transition, transitions,
}

abbrev reader : Principal
reader = record { user_id = "u2"; tenant_id = "t1"; department_id = ""; role = "user" }

abbrev kb_row : KbRow
kb_row = record {
  id = "k1";
  tenant_id = "t1";
  department_id = "";
  visibility = "PRIVATE";
  created_by = "u1";
  deleted = false;
}

abbrev doc_row : DocumentRow
doc_row = record {
  id = "d1";
  kb_id = "k1";
  tenant_id = "t1";
  department_id = "";
  visibility = "INHERIT";
  created_by = "u1";
  deleted = false;
}

abbrev acl : AclRow
acl = record {
  tenant_id = "t1";
  subject_type = "USER";
  subject_id = "u2";
  resource_type = "KNOWLEDGE_BASE";
  resource_id = "k1";
  permission = "WRITE";
  deleted = false;
}

abbrev chunk_row : String → Bool → ChunkRow
chunk_row name on = record {
  id = name;
  kb_id = "k1";
  doc_id = "d1";
  tenant_id = "t1";
  enabled = on;
  deleted = false;
}

abbrev tables : Tables
tables = record {
  kbs = kb_row ∷ [];
  docs = doc_row ∷ [];
  chunks = chunk_row "c1" true ∷ chunk_row "c2" false ∷ [];
  acls = acl ∷ [];
}

kb_access-is_allowed_example : kb_access_predicate (acl ∷ []) reader write kb_row ≡ (
    not false
    && (is_allowed reader (kb_resource write kb_row) write (grants_of reader (acl ∷ [])) true
        || (is_read write && "PRIVATE" == "TENANT" && "t1" == "t1")))
kb_access-is_allowed_example = kb_access-is_allowed (acl ∷ []) reader write kb_row refl refl

writes : document_access_predicate tables reader write doc_row ≡ true
unfolding document_access_predicate parent_allowed kb_access_predicate acl_exists acl_matches
    permission_names visible_to_readers
writes = refl

document_access-isolated_example :
    (doc_row.tenant_id ≡ reader.tenant_id) × (false ≡ false) × Parent tables reader write doc_row
document_access-isolated_example = document_access-isolated tables reader write doc_row refl writes

abbrev result : String → SearchResult ℕ
result name = record {
  chunk_id = name;
  content = [];
  score = 1;
  doc_id = "d1";
  doc_name = "manual";
  chunk_index = 0;
  block_type = "";
  page_start = none;
  page_end = none;
  metadata = record {
    kb_id = "k1";
    retrieval_channel = none;
    channel_rank = none;
    raw_score = none;
    channel_scores = none;
    matched_channels = [];
    fusion_score = none;
  };
  file_type = "";
  content_hash = "";
}

abbrev found : List (SearchResult ℕ)
found = result "c1" ∷ result "c2" ∷ result "" ∷ []

-- The disabled chunk and the result without a chunk are left out.
filters_results : filter_authorized_results tables reader found "k1" [] ≡ result "c1" ∷ []
unfolding filter_authorized_results chunk_readable scope_of document_access_predicate parent_allowed
    kb_access_predicate acl_exists acl_matches permission_names visible_to_readers
filters_results = refl

filter_authorized_lem_example :
    Member (result "c1") (filter_authorized_results tables reader found "k1" [])
    ↔ Member (result "c1") found × Permits tables reader found "k1" [] (result "c1")
filter_authorized_lem_example = filter_authorized_lem tables reader found "k1" [] (result "c1")

abbrev same : String → String
same s = s

approves : transition_all same "PENDING_REVIEW" ("APPROVED" ∷ "QUEUED" ∷ []) ≡ some "QUEUED"
unfolding transition_all transition can_transition transitions get
approves = refl

transition_all-reviewed_example :
    (same "QUEUED" ≡ "PENDING_REVIEW")
    ⊎ (same "QUEUED" ≡ "REJECTED")
    ⊎ ((t : String) × (rest : List String) × ("APPROVED" ∷ "QUEUED" ∷ [] ≡ t ∷ rest)
        × (same t ≡ "APPROVED"))
transition_all-reviewed_example =
    transition_all-reviewed same "PENDING_REVIEW" ("APPROVED" ∷ "QUEUED" ∷ []) "QUEUED" (λ t. refl)
      refl approves
