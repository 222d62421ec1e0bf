-- ===== src/Security/Access.antt =====
-- flavorag-server/app/security/access.py: the evaluation of one resource.
use flavor_rag.Prelude.{
  ℕ, String, List, Bool, true, false, if◌then◌else◌, ◌&&◌, ◌||◌, not, leb, any, truthy, in_list,
  ◌==◌, [], ◌∷◌,
}

pub data Permission : Type 0 where
  read write admin : Permission

abbrev pub level : Permission → ℕ
level read = 1
level write = 2
level admin = 3

pub record Principal : Type 0 where
  pub user_id : String
  pub tenant_id : String
  pub department_id : String
  pub role : String

pub record Resource : Type 0 where
  pub resource_type : String
  pub resource_id : String
  pub tenant_id : String
  pub owner_id : String
  pub department_id : String

pub record AccessGrant : Type 0 where
  pub subject_type : String
  pub subject_id : String
  pub resource_type : String
  pub resource_id : String
  pub permission : Permission

abbrev pub is_tenant_admin : Principal → Bool
is_tenant_admin p = in_list p.role ("admin" ∷ "tenant_admin" ∷ [])

-- `(subject_type, subject_id) in subjects`
abbrev pub in_subjects : Principal → String → String → Bool
in_subjects p subject_type subject_id =
    (subject_type == "USER" && subject_id == p.user_id)
    || (subject_type == "ROLE" && subject_id == p.role)
    || (truthy p.department_id && subject_type == "DEPARTMENT" && subject_id == p.department_id)

abbrev pub grants_access : Principal → Resource → Permission → AccessGrant → Bool
grants_access p r required g =
    in_subjects p g.subject_type g.subject_id
    && g.resource_type == r.resource_type
    && g.resource_id == r.resource_id
    && leb (level required) (level g.permission)

unfoldable pub is_allowed : Principal → Resource → Permission → List AccessGrant → Bool → Bool
is_allowed p r required grants parent_allowed =
    if p.role == "system_admin"
    then true
    else if not (truthy p.tenant_id) || not (p.tenant_id == r.tenant_id)
    then false
    else if r.resource_type == "DOCUMENT" && not parent_allowed
    then false
    else if is_tenant_admin p
    then true
    else if truthy r.owner_id && r.owner_id == p.user_id
    then true
    else if truthy r.department_id && truthy p.department_id && r.department_id == p.department_id
    then true
    else any (grants_access p r required) grants
