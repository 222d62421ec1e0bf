-- ===== src/Security/Approval.antt =====
-- flavorag-server/app/services/approval.py: the transitions of a document under review. `upper` is
-- Python's `str.upper`, which leaves a text in upper case as it is.
use flavor_rag.Prelude.Optional.{◌>>=◌}
use flavor_rag.Prelude.{
  String, List, Bool, Option, none, some, true, false, if◌then◌else◌, in_list, ◌==◌, [], ◌∷◌, ◌≡◌,
  ◌⊎◌, arith, eq_iff, Bool-cases, inl, inr, refl, ◌∙◌,
}
use flavor_rag.Prelude.Optional.{◌>>=◌}
use flavor_rag.Prelude.Dict.{Dict, get}

unfoldable pub transitions : Dict (List String)
transitions =
    ("UPLOADED", "PENDING_REVIEW" ∷ "QUEUED" ∷ [])
    ∷ ("PENDING_REVIEW", "APPROVED" ∷ "REJECTED" ∷ [])
    ∷ ("APPROVED", "QUEUED" ∷ [])
    ∷ ("QUEUED", "RUNNING" ∷ [])
    ∷ ("RUNNING", "SUCCESS" ∷ "RETRY" ∷ "DEAD" ∷ [])
    ∷ ("RETRY", "RUNNING" ∷ "DEAD" ∷ [])
    ∷ []

abbrev pub targets_or_none : Option (List String) → List String
targets_or_none none = []
targets_or_none (some ts) = ts

unfoldable pub can_review : String → Bool → Bool → Bool
can_review role is_kb_owner has_write_acl =
    if in_list role ("admin" ∷ "system_admin" ∷ "tenant_admin" ∷ [])
    then true
    else if is_kb_owner
    then true
    else has_write_acl

unfoldable pub effective_initial_status : Bool → String
effective_initial_status approval_enabled = if approval_enabled then "PENDING_REVIEW" else "queued"

module _ (upper : String → String) where
  unfoldable pub can_transition : String → String → Bool
  unfolding transitions get
  can_transition current target =
      in_list (upper target) (targets_or_none (get transitions (upper current)))

  -- `none` is the exception `InvalidTransition`.
  unfoldable pub transition : String → String → Option String
  unfolding can_transition
  transition current target = if can_transition current target then some (upper target) else none

  -- A document goes through the targets one after the other.
  unfoldable pub transition_all : String → List String → Option String
  unfolding transition
  transition_all current [] = some current
  transition_all current (target ∷ targets) = do
    next ← transition current target
    transition_all next targets

  reviewed_targets :
      (s t : String)
      → upper s ≡ "PENDING_REVIEW"
      → can_transition s t ≡ true
      → (upper t ≡ "APPROVED") ⊎ (upper t ≡ "REJECTED")
  unfolding can_transition transitions get
  reviewed_targets s t under ok = elim (Bool-cases (upper t == "APPROVED")) [
    | inl e ↦ inl ((eq_iff (upper t) "APPROVED").0 e)
    | inr e ↦ elim (Bool-cases (upper t == "REJECTED")) [
      | inl h ↦ inr ((eq_iff (upper t) "REJECTED").0 h)
      | inr h ↦
          let listed : in_list (upper t) ("APPROVED" ∷ "REJECTED" ∷ []) ≡ true = rw under at ok in
          absurd (ground (arith, listed))
    ]
  ]

  rejected_targets : (s t : String) → upper s ≡ "REJECTED" → can_transition s t ≡ false
  unfolding can_transition transitions get
  rejected_targets s t at = rw at refl

  rejected_run :
      (s : String) (targets : List String) (final : String)
      → upper s ≡ "REJECTED"
      → transition_all s targets ≡ some final
      → final ≡ s
  unfolding transition_all transition
  rejected_run s [] final at run = cc
  rejected_run s (t ∷ targets) final at run =
      cc (rw (rejected_targets s t at, transition_all) at run)

  -- A run that starts while the document is under review, and that the workflow accepts, has made no
  -- step, ends in rejection, or begins with the approval.
  pub transition_all-reviewed :
      (s : String) (targets : List String) (final : String)
      → ((t : String) → upper (upper t) ≡ upper t)
      → upper s ≡ "PENDING_REVIEW"
      → transition_all s targets ≡ some final
      → (final ≡ s)
        ⊎ (final ≡ "REJECTED")
        ⊎ ((t : String) × (rest : List String) × (targets ≡ t ∷ rest) × (upper t ≡ "APPROVED"))
  unfolding transition_all transition
  transition_all-reviewed s [] final idempotent at run = inl cc
  transition_all-reviewed s (t ∷ targets) final idempotent at run =
      elim (Bool-cases (can_transition s t)) [
        | inr e ↦ cc (rw (e, transition_all) at run)
        | inl e ↦ elim (reviewed_targets s t at e) [
          | inl approved ↦ inr (inr (t, targets, refl, approved))
          | inr rejected ↦
              let rest : transition_all (upper t) targets ≡ some final =
                rw (e, transition_all) at run in
              inr (
                inl
                  (rejected_run (upper t) targets final (idempotent t ∙ rejected) rest ∙ rejected))
        ]
      ]
