-- ===== src/Security/Service.antt =====
-- flavorag-server/app/security/service.py: the predicates of the queries, as tests on rows, and the
-- operations that run these queries. A nullable text column that is NULL is the empty text here: the
-- code compares such a column only with a text that it has found not to be empty.
use flavor_rag.Prelude.{
  String, List, Bool, true, false, if◌then◌else◌, ◌&&◌, ◌||◌, not, any, filter, map, truthy,
  in_list, ◌==◌, [], ◌∷◌,
}
use flavor_rag.Search.{SearchResult}
use flavor_rag.Security.Access.{Permission, read, write, admin, Principal, is_tenant_admin}

pub record KbRow : Type 0 where
  pub id : String
  pub tenant_id : String
  pub department_id : String
  pub visibility : String
  pub created_by : String
  pub deleted : Bool

pub record DocumentRow : Type 0 where
  pub id : String
  pub kb_id : String
  pub tenant_id : String
  pub department_id : String
  pub visibility : String
  pub created_by : String
  pub deleted : Bool

pub record ChunkRow : Type 0 where
  pub id : String
  pub kb_id : String
  pub doc_id : String
  pub tenant_id : String
  pub enabled : Bool
  pub deleted : Bool

pub record AclRow : Type 0 where
  pub tenant_id : String
  pub subject_type : String
  pub subject_id : String
  pub resource_type : String
  pub resource_id : String
  pub permission : String
  pub deleted : Bool

pub record Tables : Type 0 where
  pub kbs : List KbRow
  pub docs : List DocumentRow
  pub chunks : List ChunkRow
  pub acls : List AclRow

unfoldable pub permission_names : Permission → List String
permission_names admin = "ADMIN" ∷ []
permission_names write = "WRITE" ∷ "ADMIN" ∷ []
permission_names read = "READ" ∷ "WRITE" ∷ "ADMIN" ∷ []

abbrev pub is_read : Permission → Bool
is_read read = true
is_read _ = false

-- Whether the row of the access list gives the principal the permission on the resource.
unfoldable pub acl_matches : Principal → String → String → Permission → AclRow → Bool
unfolding permission_names
acl_matches p resource_type resource_id required a =
    a.tenant_id == p.tenant_id
    && a.resource_type == resource_type
    && a.resource_id == resource_id
    && in_list a.permission (permission_names required)
    && not a.deleted
    && ((a.subject_type == "USER" && a.subject_id == p.user_id)
        || (a.subject_type == "ROLE" && a.subject_id == p.role)
        || (truthy p.department_id
            && a.subject_type == "DEPARTMENT"
            && a.subject_id == p.department_id))

unfoldable pub acl_exists : List AclRow → Principal → String → String → Permission → Bool
unfolding acl_matches
acl_exists acls p resource_type resource_id required =
    any (acl_matches p resource_type resource_id required) acls

-- The clauses on the visibility, which both predicates add when the permission is READ.
unfoldable pub visible_to_readers : Principal → Permission → String → String → Bool
visible_to_readers p required visibility department_id =
    is_read required
    && (visibility == "TENANT"
        || (truthy p.department_id
            && visibility == "DEPARTMENT"
            && department_id == p.department_id))

unfoldable pub kb_access_predicate : List AclRow → Principal → Permission → KbRow → Bool
unfolding acl_exists visible_to_readers
kb_access_predicate acls p required k =
    if p.role == "system_admin"
    then not k.deleted
    else if is_tenant_admin p
    then k.tenant_id == p.tenant_id && not k.deleted
    else k.tenant_id == p.tenant_id
      && not k.deleted
      && (k.created_by == p.user_id
          || acl_exists acls p "KNOWLEDGE_BASE" k.id required
          || visible_to_readers p required k.visibility k.department_id)

unfoldable pub parent_allowed : Tables → Principal → Permission → DocumentRow → Bool
unfolding kb_access_predicate
parent_allowed t p required d =
    any (λ k. k.id == d.kb_id && kb_access_predicate t.acls p required k) t.kbs

unfoldable pub document_access_predicate : Tables → Principal → Permission → DocumentRow → Bool
unfolding parent_allowed acl_exists visible_to_readers
document_access_predicate t p required d =
    if p.role == "system_admin"
    then not d.deleted
    else if is_tenant_admin p
    then d.tenant_id == p.tenant_id && not d.deleted && parent_allowed t p required d
    else d.tenant_id == p.tenant_id
      && not d.deleted
      && parent_allowed t p required d
      && (d.created_by == p.user_id
          || d.visibility == "INHERIT"
          || acl_exists t.acls p "DOCUMENT" d.id required
          || visible_to_readers p required d.visibility d.department_id)

-- The chunk is in the scope, live, and joined to a document that may be read.
unfoldable pub chunk_readable : Tables → Principal → List String → ChunkRow → Bool
unfolding document_access_predicate
chunk_readable t p kb_ids c =
    in_list c.kb_id kb_ids
    && c.tenant_id == p.tenant_id
    && not c.deleted
    && c.enabled
    && any (λ d. d.id == c.doc_id && document_access_predicate t p read d) t.docs

-- `kb_ids or ([kb_id] if kb_id else [])`, without its repetitions, which the query does not see.
unfoldable pub scope_of : String → List String → List String
scope_of kb_id [] = if truthy kb_id then kb_id ∷ [] else []
scope_of kb_id (k ∷ ks) = k ∷ ks

abbrev pub is_empty {ℓ} : {A : Type ℓ} → List A → Bool
is_empty [] = true
is_empty (x ∷ xs) = false

module _ {F : Type 0} where
  abbrev pub chunk_ids : List (SearchResult F) → List String
  chunk_ids results = filter truthy (map (λ (r : SearchResult F). r.chunk_id) results)

  unfoldable pub filter_authorized_results :
      Tables → Principal → List (SearchResult F) → String → List String → List (SearchResult F)
  unfolding chunk_readable scope_of
  filter_authorized_results t p results kb_id kb_ids =
      let scope = scope_of kb_id kb_ids in
      let ids = chunk_ids results in
      if is_empty ids || is_empty scope
      then []
      else let rows = filter (λ c. in_list c.id ids && chunk_readable t p scope c) t.chunks in
        filter (λ r. in_list r.chunk_id (map (λ (c : ChunkRow). c.id) rows)) results
