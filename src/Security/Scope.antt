-- ===== src/Security/Scope.antt =====
-- How far the predicates of service.py reach: never past the tenant or past deleted rows, never past
-- the parent, and never further for a higher permission; and what the filter of results keeps.
use flavor_rag.Prelude.{
  String, List, Bool, true, false, ◌&&◌, ◌||◌, any, map, filter, Member, truthy, in_list, ◌==◌, [],
  ◌∷◌, ◌≡◌, ◌≤◌, ◌↔◌, arith, eq_iff, Bool-cases, inl, inr, refl, sym, ap, any→Member, Member-filter,
  subst, Member-filter_test, Member→filter, in_list→Member, Member→in_list, Member→any,
}
use flavor_rag.Search.{SearchResult}
use flavor_rag.Security.Access.{Permission, read, write, admin, level, Principal}
use flavor_rag.Security.Service.{
  KbRow, DocumentRow, ChunkRow, Tables, permission_names, is_read, acl_matches, acl_exists,
  visible_to_readers, kb_access_predicate, parent_allowed, document_access_predicate,
  chunk_readable, scope_of, is_empty, chunk_ids, filter_authorized_results,
}

-- The names that a permission accepts are also accepted by a lower one.
permission_names_mono :
    (low high : Permission) (s : String)
    → level low ≤ level high
    → in_list s (permission_names high) ≡ true
    → in_list s (permission_names low) ≡ true
unfolding permission_names
permission_names_mono read read s h k = k
permission_names_mono read write s h k = ground (arith, k)
permission_names_mono read admin s h k = ground (arith, k)
permission_names_mono write read s h k = absurd (omega arith)
permission_names_mono write write s h k = k
permission_names_mono write admin s h k = ground (arith, k)
permission_names_mono admin read s h k = absurd (omega arith)
permission_names_mono admin write s h k = absurd (omega arith)
permission_names_mono admin admin s h k = k

is_read_mono :
    (low high : Permission) → level low ≤ level high → is_read high ≡ true → is_read low ≡ true
is_read_mono read high h k = refl
is_read_mono write read h k = absurd (omega arith)
is_read_mono write write h k = absurd (cc)
is_read_mono write admin h k = absurd (cc)
is_read_mono admin read h k = absurd (omega arith)
is_read_mono admin write h k = absurd (cc)
is_read_mono admin admin h k = absurd (cc)

any_mono :
    {A : Type 0} (p q : A → Bool) (xs : List A)
    → ((x : A) → p x ≡ true → q x ≡ true)
    → any p xs ≡ true
    → any q xs ≡ true
any_mono p q [] f h = h
any_mono p q (x ∷ xs) f h = ground (arith, f x, any_mono p q xs f)

module _ (t : Tables) (p : Principal) (low high : Permission) (le : level low ≤ level high) where
  acl_exists_mono :
      (resource_type resource_id : String)
      → acl_exists t.acls p resource_type resource_id high ≡ true
      → acl_exists t.acls p resource_type resource_id low ≡ true
  unfolding acl_exists acl_matches
  acl_exists_mono ty i =
      any_mono (acl_matches p ty i high) (acl_matches p ty i low) t.acls
        (λ a h. ground (arith, permission_names_mono low high a.permission le))

  visible_mono :
      (visibility department_id : String)
      → visible_to_readers p high visibility department_id ≡ true
      → visible_to_readers p low visibility department_id ≡ true
  unfolding visible_to_readers
  visible_mono v d h = ground (arith, is_read_mono low high le)

  kb_access_mono :
      (k : KbRow)
      → kb_access_predicate t.acls p high k ≡ true
      → kb_access_predicate t.acls p low k ≡ true
  unfolding kb_access_predicate
  kb_access_mono k h =
      ground
        (arith, acl_exists_mono "KNOWLEDGE_BASE" k.id, visible_mono k.visibility k.department_id)

  parent_mono :
      (d : DocumentRow) → parent_allowed t p high d ≡ true → parent_allowed t p low d ≡ true
  unfolding parent_allowed
  parent_mono d = any_mono _ _ t.kbs (λ k h. ground (arith, kb_access_mono k))

  -- Whoever has a permission on a document has every lower permission on it.
  pub document_access_mono :
      (d : DocumentRow)
      → document_access_predicate t p high d ≡ true
      → document_access_predicate t p low d ≡ true
  unfolding document_access_predicate
  document_access_mono d h = ground (
    arith,
    acl_exists_mono "DOCUMENT" d.id,
    visible_mono d.visibility d.department_id,
    parent_mono d,
  )

module _ (t : Tables) (p : Principal) (required : Permission) where
  -- The knowledge base of the document, if it may be accessed.
  abbrev pub Parent : DocumentRow → Type 0
  Parent d =
      (k : KbRow) × Member k t.kbs
      × (k.id ≡ d.kb_id)
      × (k.tenant_id ≡ p.tenant_id)
      × (k.deleted ≡ false)
      × (kb_access_predicate t.acls p required k ≡ true)

  kb_access-isolated :
      (k : KbRow)
      → (p.role == "system_admin") ≡ false
      → kb_access_predicate t.acls p required k ≡ true
      → (k.tenant_id ≡ p.tenant_id) × (k.deleted ≡ false)
  unfolding kb_access_predicate
  kb_access-isolated k user h = (ground (arith, eq_iff k.tenant_id p.tenant_id), ground arith)

  parent_lem :
      (d : DocumentRow)
      → (p.role == "system_admin") ≡ false
      → parent_allowed t p required d ≡ true
      → Parent d
  unfolding parent_allowed
  parent_lem d user h =
      let (k, m, q) = any→Member _ t.kbs h in
      let same : (k.id == d.kb_id) ≡ true = ground arith in
      let opens : kb_access_predicate t.acls p required k ≡ true = ground arith in
      let (tenant, live) = kb_access-isolated k user opens in
      (k, m, (eq_iff k.id d.kb_id).0 same, tenant, live, opens)

  -- Nobody but a system administrator has a permission on a document of another tenant, on a deleted
  -- document, or on one whose knowledge base is deleted, of another tenant, or closed to the same
  -- permission.
  pub document_access-isolated :
      (d : DocumentRow)
      → (p.role == "system_admin") ≡ false
      → document_access_predicate t p required d ≡ true
      → (d.tenant_id ≡ p.tenant_id) × (d.deleted ≡ false) × Parent d
  unfolding document_access_predicate
  document_access-isolated d user h = (
    ground (arith, eq_iff d.tenant_id p.tenant_id),
    ground arith,
    parent_lem d user (ground arith),
  )

module _ {A : Type 0} where
  Member-map :
      (f : A → String) (s : String) (xs : List A)
      → Member s (map f xs)
      → (a : A) × Member a xs × (s ≡ f a)
  Member-map f s [] m = absurd m
  Member-map f s (x ∷ xs) (inl e) = (x, inl refl, e)
  Member-map f s (x ∷ xs) (inr m) = let (a, k, e) = Member-map f s xs m in (a, inr k, e)

  Member→map : (f : A → String) (a : A) (xs : List A) → Member a xs → Member (f a) (map f xs)
  Member→map f a [] m = m
  Member→map f a (x ∷ xs) (inl e) = inl (ap f e)
  Member→map f a (x ∷ xs) (inr m) = inr (Member→map f a xs m)

  Member-is_empty : (a : A) (xs : List A) → Member a xs → is_empty xs ≡ false
  Member-is_empty a [] m = absurd m
  Member-is_empty a (x ∷ xs) m = refl

module _ {F : Type 0} (t : Tables) (p : Principal) (results : List (SearchResult F))
    (kb_id : String) (kb_ids : List String) where
  -- A chunk that shows that the result may be returned: the result's chunk, of a knowledge base in the
  -- scope and of the principal's tenant, live and enabled, with a document that the principal may read.
  abbrev pub Permits : SearchResult F → Type 0
  Permits r =
      (truthy r.chunk_id ≡ true)
      × ((c : ChunkRow) × Member c t.chunks
          × (c.id ≡ r.chunk_id)
          × Member c.kb_id (scope_of kb_id kb_ids)
          × (c.tenant_id ≡ p.tenant_id)
          × (c.deleted ≡ false)
          × (c.enabled ≡ true)
          × ((d : DocumentRow) × Member d t.docs
              × (d.id ≡ c.doc_id)
              × (document_access_predicate t p read d ≡ true)))

  readable→parts :
      (c : ChunkRow)
      → chunk_readable t p (scope_of kb_id kb_ids) c ≡ true
      → Member c.kb_id (scope_of kb_id kb_ids)
        × (c.tenant_id ≡ p.tenant_id)
        × (c.deleted ≡ false)
        × (c.enabled ≡ true)
        × ((d : DocumentRow) × Member d t.docs
            × (d.id ≡ c.doc_id)
            × (document_access_predicate t p read d ≡ true))
  unfolding chunk_readable
  readable→parts c h =
      let access = λ (d : DocumentRow). d.id == c.doc_id && document_access_predicate t p read d in
      let shown : any access t.docs ≡ true = ground (arith, h) in
      let (d, m, q) = any→Member access t.docs shown in
      let named : (d.id == c.doc_id) ≡ true = ground (arith, q) in
      (
        in_list→Member c.kb_id (scope_of kb_id kb_ids) (ground arith),
        (eq_iff c.tenant_id p.tenant_id).0 (ground arith),
        ground arith,
        ground arith,
        (d, m, (eq_iff d.id c.doc_id).0 named, ground (arith, q)),
      )

  parts→readable :
      (c : ChunkRow) (d : DocumentRow)
      → Member c.kb_id (scope_of kb_id kb_ids)
      → c.tenant_id ≡ p.tenant_id
      → c.deleted ≡ false
      → c.enabled ≡ true
      → Member d t.docs
      → d.id ≡ c.doc_id
      → document_access_predicate t p read d ≡ true
      → chunk_readable t p (scope_of kb_id kb_ids) c ≡ true
  unfolding chunk_readable
  parts→readable c d scoped tenant live enabled m named access =
      let shown =
        Member→any (λ (d : DocumentRow). d.id == c.doc_id && document_access_predicate t p read d)
          t.docs d m (rw ((eq_iff d.id c.doc_id).1 named, access) refl) in
      rw
        (
          Member→in_list c.kb_id (scope_of kb_id kb_ids) scoped,
          (eq_iff c.tenant_id p.tenant_id).1 tenant,
          live,
          enabled,
          shown,
        )
        refl

  scope-nonempty :
      (c : ChunkRow)
      → chunk_readable t p (scope_of kb_id kb_ids) c ≡ true
      → is_empty (scope_of kb_id kb_ids) ≡ false
  unfolding chunk_readable
  scope-nonempty c h =
      Member-is_empty c.kb_id _ (in_list→Member c.kb_id (scope_of kb_id kb_ids) (ground arith))

  abbrev found_rows : List ChunkRow
  found_rows =
      filter (λ c. in_list c.id (chunk_ids results) && chunk_readable t p (scope_of kb_id kb_ids) c)
        t.chunks

  found_row :
      (c : ChunkRow)
      → Member c found_rows
      → (truthy c.id ≡ true) × (chunk_readable t p (scope_of kb_id kb_ids) c ≡ true)
  found_row c m =
      let q = Member-filter_test _ c t.chunks m in
      let listed : in_list c.id (chunk_ids results) ≡ true = ground arith in
      (
        Member-filter_test truthy c.id (map (λ (r : SearchResult F). r.chunk_id) results)
            (in_list→Member c.id (chunk_ids results) listed),
        ground arith,
      )

  named_asked :
      (r : SearchResult F)
      → Member r results
      → truthy r.chunk_id ≡ true
      → Member r.chunk_id (chunk_ids results)
  named_asked r m named =
      Member→filter truthy r.chunk_id _
        (Member→map (λ (r : SearchResult F). r.chunk_id) r results m) named

  kept→Permits :
      (r : SearchResult F)
      → Member r (filter_authorized_results t p results kb_id kb_ids)
      → Member r results × Permits r
  unfolding filter_authorized_results
  kept→Permits r m =
      elim (Bool-cases (is_empty (chunk_ids results) || is_empty (scope_of kb_id kb_ids))) [
        | inl e ↦ absurd (rw e at m)
        | inr e ↦
            let m' : Member r (
                filter (λ r. in_list r.chunk_id (map (λ (c : ChunkRow). c.id) found_rows))
                  results) =
              rw e at m in
            let (c, k, n) =
              Member-map (λ (c : ChunkRow). c.id) r.chunk_id found_rows
                (in_list→Member r.chunk_id _ (Member-filter_test _ r results m')) in
            let (named, readable) = found_row c k in
            let (scoped, tenant, live, enabled, document) = readable→parts c readable in
            (
              Member-filter _ r results m',
              (
                rw n named,
                (c, Member-filter _ c t.chunks k, sym n, scoped, tenant, live, enabled, document),
              ),
            )
      ]

  Permits→kept :
      (r : SearchResult F)
      → Member r results
      → Permits r
      → Member r (filter_authorized_results t p results kb_id kb_ids)
  unfolding filter_authorized_results
  Permits→kept r m (named, (c, n, e, scoped, tenant, live, enabled, (d, i, f, access))) =
      let readable = parts→readable c d scoped tenant live enabled i f access in
      let asked = named_asked r m named in
      let filled : is_empty (chunk_ids results) ≡ false =
        Member-is_empty r.chunk_id (chunk_ids results) asked in
      let found : Member c found_rows =
        Member→filter _ c t.chunks n
          (rw (e, Member→in_list r.chunk_id (chunk_ids results) asked) readable) in
      let listed = Member→in_list r.chunk_id _ (
        subst (λ i. Member i (map (λ (c : ChunkRow). c.id) found_rows)) e
          (Member→map (λ (c : ChunkRow). c.id) c found_rows found)) in
      rw (filled, scope-nonempty c readable, filter_authorized_results)
        (Member→filter _ r results m listed)

  -- The filter of the results fails closed: it returns exactly the results that have a chunk, in the
  -- scope that was asked for and of the principal's tenant, live and enabled, whose document the
  -- principal may read; with an empty scope that is none.
  pub filter_authorized_lem :
      (r : SearchResult F)
      → Member r (filter_authorized_results t p results kb_id kb_ids) ↔ Member r results × Permits r
  filter_authorized_lem r = (kept→Permits r, λ (m, q). Permits→kept r m q)
