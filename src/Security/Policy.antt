-- ===== src/Security/Policy.antt =====
-- The policy of access.py and the predicates of service.py compared.
use flavor_rag.Prelude.{
  String, List, Bool, Option, none, some, true, false, if◌then◌else◌, ◌&&◌, ◌||◌, not, any, truthy,
  in_list, ◌==◌, [], ◌∷◌, ◌≡◌, arith, eq_iff, Bool-cases, inl, inr, leb, refl, ◌∙◌, sym,
}
use flavor_rag.Security.Access.{
  Permission, read, write, admin, level, Principal, Resource, AccessGrant, grants_access,
  in_subjects, is_allowed, is_tenant_admin,
}
use flavor_rag.Security.Service.{
  KbRow, AclRow, permission_names, is_read, acl_matches, acl_exists, visible_to_readers,
  kb_access_predicate,
}

eq_comm : (s t : String) → (s == t) ≡ (t == s)
eq_comm s t = ground (arith, eq_iff s t, eq_iff t s)

unfoldable pub permission_of : String → Option Permission
permission_of s =
    if s == "READ"
    then some read
    else if s == "WRITE"
    then some write
    else if s == "ADMIN"
    then some admin
    else none

abbrev pub permits : Permission → Option Permission → Bool
permits required none = false
permits required (some q) = leb (level required) (level q)

abbrev Agrees : Permission → String → Type 0
Agrees required s = in_list s (permission_names required) ≡ permits required (permission_of s)

read-Agrees : (required : Permission) → Agrees required "READ"
unfolding permission_names permission_of
read-Agrees read = refl
read-Agrees write = refl
read-Agrees admin = refl

write-Agrees : (required : Permission) → Agrees required "WRITE"
unfolding permission_names permission_of
write-Agrees read = refl
write-Agrees write = refl
write-Agrees admin = refl

other-Agrees :
    (required : Permission) (s : String)
    → (s == "READ") ≡ false
    → (s == "WRITE") ≡ false
    → Agrees required s
unfolding permission_names permission_of
other-Agrees read s h k = rw (h, k) (ground arith)
other-Agrees write s h k = rw (h, k) (ground arith)
other-Agrees admin s h k = rw (h, k) (ground arith)

-- The names listed for a permission are those of the permissions that are at least as high.
permission_names_lem : (required : Permission) (s : String) → Agrees required s
permission_names_lem required s = elim (Bool-cases (s == "READ")) [
  | inl e ↦ rw ((eq_iff s "READ").0 e) (read-Agrees required)
  | inr e ↦ elim (Bool-cases (s == "WRITE")) [
    | inl h ↦ rw ((eq_iff s "WRITE").0 h) (write-Agrees required)
    | inr h ↦ other-Agrees required s e h
  ]
]

-- The grant that a row of the access list makes, if it is live, of the tenant and of a known permission.
unfoldable pub grants_of : Principal → List AclRow → List AccessGrant
grants_of p [] = []
grants_of p (a ∷ acls) =
    let rest = grants_of p acls in
    if a.tenant_id == p.tenant_id && not a.deleted
    then elim (permission_of a.permission) [
      | none ↦ rest
      | some q ↦
          record {
            subject_type = a.subject_type;
            subject_id = a.subject_id;
            resource_type = a.resource_type;
            resource_id = a.resource_id;
            permission = q;
          }
          ∷ rest
    ]
    else rest

reordered :
    (t y i l n s rest : Bool)
    → (t && y && i && l && n && s || rest) ≡ (if t && n then s && y && i && l || rest else rest)
reordered false y i l n s rest = refl
reordered true y i l true s rest = ground arith
reordered true y i l false s rest = ground arith

any-if :
    {A : Type 0} (c : Bool) (p : A → Bool) (x : A) (xs : List A)
    → any p (if c then x ∷ xs else xs) ≡ (if c then p x || any p xs else any p xs)
any-if true p x xs = refl
any-if false p x xs = refl

none_left :
    {A : Type 0} (c : Bool) (s y i : Bool) (p : A → Bool) (xs : List A)
    → (if c then s && y && i && false || any p xs else any p xs) ≡ any p (if c then xs else xs)
none_left c s y i p xs = ground arith

acl_exists_lem :
    (p : Principal) (r : Resource) (required : Permission) (acls : List AclRow)
    → acl_exists acls p r.resource_type r.resource_id required
      ≡ any (grants_access p r required) (grants_of p acls)
unfolding acl_exists acl_matches grants_of
acl_exists_lem p r required [] = refl
acl_exists_lem p r required (a ∷ acls) =
    rw (permission_names_lem required a.permission, acl_exists_lem p r required acls)
      (by_permission (permission_of a.permission))
  where
    by_permission :
        (o : Option Permission)
        → (a.tenant_id == p.tenant_id
              && a.resource_type == r.resource_type
              && a.resource_id == r.resource_id
              && permits required o
              && not a.deleted
              && in_subjects p a.subject_type a.subject_id
            || any (grants_access p r required) (grants_of p acls))
          ≡ any (grants_access p r required) (
              if a.tenant_id == p.tenant_id && not a.deleted
              then elim o [
                | none ↦ grants_of p acls
                | some q ↦
                    record {
                      subject_type = a.subject_type;
                      subject_id = a.subject_id;
                      resource_type = a.resource_type;
                      resource_id = a.resource_id;
                      permission = q;
                    }
                    ∷ grants_of p acls
              ]
              else grants_of p acls)
    by_permission none =
        reordered (a.tenant_id == p.tenant_id) (a.resource_type == r.resource_type)
          (a.resource_id == r.resource_id) false (not a.deleted)
          (in_subjects p a.subject_type a.subject_id)
          (any (grants_access p r required) (grants_of p acls))
        ∙ none_left (a.tenant_id == p.tenant_id && not a.deleted)
            (in_subjects p a.subject_type a.subject_id) (a.resource_type == r.resource_type)
            (a.resource_id == r.resource_id) (grants_access p r required) (grants_of p acls)
    by_permission (some q) =
        reordered (a.tenant_id == p.tenant_id) (a.resource_type == r.resource_type)
          (a.resource_id == r.resource_id) (leb (level required) (level q)) (not a.deleted)
          (in_subjects p a.subject_type a.subject_id)
          (any (grants_access p r required) (grants_of p acls))
        ∙ sym (
            any-if (a.tenant_id == p.tenant_id && not a.deleted) (grants_access p r required)
              (record {
                subject_type = a.subject_type;
                subject_id = a.subject_id;
                resource_type = a.resource_type;
                resource_id = a.resource_id;
                permission = q;
              })
              (grants_of p acls))

-- A knowledge base as a resource of access.py. Its department counts only for reading, and only if it
-- is shared with the department.
abbrev pub kb_resource : Permission → KbRow → Resource
kb_resource required k = record {
  resource_type = "KNOWLEDGE_BASE";
  resource_id = k.id;
  tenant_id = k.tenant_id;
  owner_id = k.created_by;
  department_id = if is_read required && k.visibility == "DEPARTMENT" then k.department_id else "";
}

truthy_eq : (s t : String) → truthy t ≡ true → (truthy s && s == t) ≡ (s == t)
truthy_eq s t h = elim (Bool-cases (s == t)) [
  | inl e ↦ rw ((eq_iff s t).0 e, h) refl
  | inr e ↦ rw e (ground arith)
]

-- The clause on departments in access.py and in the predicates.
department_clause :
    (c : Bool) (d pd : String)
    → (truthy (if c then d else "") && truthy pd && (if c then d else "") == pd)
      ≡ (c && truthy pd && d == pd)
department_clause false d pd = refl
department_clause true d pd = elim (Bool-cases (truthy pd)) [
  | inl h ↦ ground (arith, truthy_eq d pd h)
  | inr h ↦ rw h (ground arith)
]

combined :
    (sys adm gone t own acl rd vt vd pd de : Bool)
    → (if sys
        then not gone
        else if adm
        then t && not gone
        else t && not gone && (own || acl || rd && (vt || pd && vd && de)))
      ≡ (not gone
          && ((if sys
                then true
                else if false || not t
                then false
                else if false
                then false
                else if adm
                then true
                else if own
                then true
                else if (rd && vd) && pd && de
                then true
                else acl)
              || rd && vt && t))
combined true adm gone t own acl rd vt vd pd de = ground arith
combined false adm true t own acl rd vt vd pd de = ground arith
combined false adm false false own acl rd vt vd pd de = ground arith
combined false true false true own acl rd vt vd pd de = refl
combined false false false true true acl rd vt vd pd de = refl
combined false false false true false acl true vt vd pd de = ground arith
combined false false false true false acl false vt vd pd de = ground arith

-- The query's predicate on a knowledge base is the policy of access.py on the rows of the access list
-- that are live, with two additions: no deleted knowledge base is accessible, and one that is visible
-- to the tenant is readable by all its members. The user's id and tenant are not empty.
pub kb_access-is_allowed :
    (acls : List AclRow) (p : Principal) (required : Permission) (k : KbRow)
    → truthy p.tenant_id ≡ true
    → truthy p.user_id ≡ true
    → kb_access_predicate acls p required k ≡ (
        not k.deleted
        && (is_allowed p (kb_resource required k) required (grants_of p acls) true
            || (is_read required && k.visibility == "TENANT" && p.tenant_id == k.tenant_id)))
unfolding kb_access_predicate is_allowed visible_to_readers
kb_access-is_allowed acls p required k tenant user =
    rw
      (
        acl_exists_lem p (kb_resource required k) required acls,
        eq_comm k.tenant_id p.tenant_id,
        tenant,
        truthy_eq k.created_by p.user_id user,
        department_clause (is_read required && k.visibility == "DEPARTMENT") k.department_id
            p.department_id,
      )
      (combined (p.role == "system_admin") (is_tenant_admin p) k.deleted
        (p.tenant_id == k.tenant_id) (k.created_by == p.user_id)
        (any (grants_access p (kb_resource required k) required) (grants_of p acls))
        (is_read required) (k.visibility == "TENANT") (k.visibility == "DEPARTMENT")
        (truthy p.department_id) (k.department_id == p.department_id))
