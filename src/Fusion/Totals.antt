-- ===== src/Fusion/Totals.antt =====
-- The score of a fused result is the sum of what its occurrences contribute.
use flavor_rag.Prelude.{
  ℕ, String, List, Bool, Option, none, some, true, false, if◌then◌else◌, same_text, same_text→eq,
  same_text_refl, ◌≡◌, inl, inr, [], ◌∷◌, map, All, arith, Bool-cases, refl, sym, ◌∙◌, ap, subst,
  All-map,
}
use flavor_rag.Prelude.Dict.{Dict}
use flavor_rag.Prelude.Sort.{sort, IsSorted, All-sort, sum_by, sort-IsSorted, sum_by-sort}
use flavor_rag.Search.{SearchResult}
use flavor_rag.Fusion.Defs.{
  FloatOps, Entry, Fused, key_of, contribution, add_entry, add_entries, all_entries, scored,
  by_score, rrf_fusion,
}

module _ {F : Type 0} (ops : FloatOps F) (codes : String → List ℕ) (default_name : ℕ → String)
    (k : ℕ) where
  abbrev pub key : SearchResult F → List ℕ
  key r = key_of ops codes default_name k r

  -- A score with one contribution more; the first one is the score.
  abbrev pub plus_some : Option F → F → F
  plus_some none c = c
  plus_some (some t) c = ops.plus t c

  -- The sum, in order, of what the entries with a key contribute, behind a sum `t`.
  abbrev pub total_from : List ℕ → Option F → List (Entry F) → Option F
  total_from κ t [] = t
  total_from κ t (e ∷ entries) =
      total_from κ
        (if same_text (key e.result) κ
          then some (plus_some t (contribution ops codes default_name k e))
          else t)
        entries

  abbrev lookup : List ℕ → List (Fused F) → Option F
  lookup κ [] = none
  lookup κ (f ∷ scores) = if same_text f.key κ then some f.score else lookup κ scores

  lookup-add_entry :
      (κ : List ℕ) (e : Entry F) (scores : List (Fused F))
      → lookup κ (add_entry ops codes default_name k e scores) ≡ (
          if same_text (key e.result) κ
          then some (plus_some (lookup κ scores) (contribution ops codes default_name k e))
          else lookup κ scores)
  unfolding add_entry
  lookup-add_entry κ e [] = refl
  lookup-add_entry κ e (f ∷ scores) = elim (Bool-cases (same_text f.key (key e.result))) [
    | inl a ↦
        let same : same_text f.key κ ≡ same_text (key e.result) κ =
          ap (λ i. same_text i κ) (same_text→eq f.key (key e.result) a) in
        elim (Bool-cases (same_text (key e.result) κ)) [
          | inl b ↦ rw (a, same ∙ b, b) refl
          | inr b ↦ rw (a, same ∙ b, b) refl
        ]
    | inr a ↦ elim (Bool-cases (same_text f.key κ)) [
      | inr d ↦ rw (a, d) (lookup-add_entry κ e scores)
      | inl d ↦ elim (Bool-cases (same_text (key e.result) κ)) [
        | inr b ↦ rw (a, d, b) refl
        | inl b ↦
            let met : same_text f.key (key e.result) ≡ true =
              rw (same_text→eq f.key κ d, same_text→eq (key e.result) κ b) (same_text_refl κ) in
            absurd (cc (sym a ∙ met))
      ]
    ]
  ]

  lookup-add_entries :
      (κ : List ℕ) (scores : List (Fused F)) (entries : List (Entry F))
      → lookup κ (add_entries ops codes default_name k scores entries)
        ≡ total_from κ (lookup κ scores) entries
  unfolding add_entries
  lookup-add_entries κ scores [] = refl
  lookup-add_entries κ scores (e ∷ entries) =
      lookup-add_entries κ (add_entry ops codes default_name k e scores) entries
      ∙ ap (λ t. total_from κ t entries) (lookup-add_entry κ e scores)

  -- No two values have one key, and each has the key of its result.
  abbrev Keyed : List (Fused F) → Type 0
  Keyed [] = Unit
  Keyed (f ∷ scores) = (key f.result ≡ f.key) × (lookup f.key scores ≡ none) × Keyed scores

  add_entry-Keyed :
      (e : Entry F) (scores : List (Fused F))
      → Keyed scores
      → Keyed (add_entry ops codes default_name k e scores)
  unfolding add_entry
  add_entry-Keyed e [] h = (refl, refl, tt)
  add_entry-Keyed e (f ∷ scores) (own, new, h) =
      elim (Bool-cases (same_text f.key (key e.result))) [
        | inl a ↦ rw a (own, new, h)
        | inr a ↦
            let apart = other_key a in
            rw a (own, lookup-add_entry f.key e scores ∙ rw apart new, add_entry-Keyed e scores h)
      ]
    where
      other_key : same_text f.key (key e.result) ≡ false → same_text (key e.result) f.key ≡ false
      other_key a = elim (Bool-cases (same_text (key e.result) f.key)) [
        | inr b ↦ b
        | inl b ↦
            let met : same_text f.key (key e.result) ≡ true =
              rw (same_text→eq (key e.result) f.key b) (same_text_refl f.key) in
            absurd (cc (sym a ∙ met))
      ]

  add_entries-Keyed :
      (scores : List (Fused F)) (entries : List (Entry F))
      → Keyed scores
      → Keyed (add_entries ops codes default_name k scores entries)
  unfolding add_entries
  add_entries-Keyed scores [] h = h
  add_entries-Keyed scores (e ∷ entries) h =
      add_entries-Keyed (add_entry ops codes default_name k e scores) entries
        (add_entry-Keyed e scores h)

  -- Every value is found under its key.
  Keyed-found :
      (scores : List (Fused F))
      → Keyed scores
      → All (λ (f : Fused F). (key f.result ≡ f.key) × (lookup f.key scores ≡ some f.score)) scores
  Keyed-found [] h = tt
  Keyed-found (f ∷ scores) (own, new, h) = (
    (own, rw (same_text_refl f.key) refl),
    All-map _ _ scores (λ g (o, found). (o, elsewhere g found)) (Keyed-found scores h),
  )
    where
      elsewhere :
          (g : Fused F)
          → lookup g.key scores ≡ some g.score
          → lookup g.key (f ∷ scores) ≡ some g.score
      elsewhere g found = elim (Bool-cases (same_text f.key g.key)) [
        | inr b ↦ rw b found
        | inl b ↦
            let missing : lookup g.key scores ≡ none =
              subst (λ i. lookup i scores ≡ none) (same_text→eq f.key g.key b) new in
            absurd (cc (sym missing ∙ found))
      ]

  -- How many results have the key.
  abbrev pub count : List ℕ → List (SearchResult F) → ℕ
  count κ results = sum_by (λ (r : SearchResult F). if same_text (key r) κ then 1 else 0) results

  abbrev pub one_if : Option F → ℕ
  one_if none = 0
  one_if (some t) = 1

  Keyed-once :
      (κ : List ℕ) (scores : List (Fused F))
      → Keyed scores
      → sum_by (λ (f : Fused F). if same_text (key f.result) κ then 1 else 0) scores
        ≡ one_if (lookup κ scores)
  Keyed-once κ [] h = refl
  Keyed-once κ (f ∷ scores) (own, new, h) =
      let ih = Keyed-once κ scores h in
      elim (Bool-cases (same_text f.key κ)) [
        | inr b ↦ rw (own, b) (omega (arith, ih))
        | inl b ↦
            let missing : lookup κ scores ≡ none =
              subst (λ i. lookup i scores ≡ none) (same_text→eq f.key κ b) new in
            let rest : sum_by (λ (f : Fused F). if same_text (key f.result) κ then 1 else 0) scores
                ≡ 0 =
              ih ∙ ap one_if missing in
            rw (own, b) (omega (arith, rest))
      ]

  abbrev results : List (Fused F) → List (SearchResult F)
  results scores = map (scored ops codes default_name k) scores

  key-scored : (f : Fused F) → key (scored ops codes default_name k f) ≡ key f.result
  unfolding scored key_of
  key-scored f = refl

  score-scored : (f : Fused F) → (scored ops codes default_name k f).score ≡ f.score
  unfolding scored
  score-scored f = refl

  count-scored :
      (κ : List ℕ) (scores : List (Fused F))
      → count κ (results scores)
        ≡ sum_by (λ (f : Fused F). if same_text (key f.result) κ then 1 else 0) scores
  count-scored κ [] = refl
  count-scored κ (f ∷ scores) = rw (key-scored f) (omega (arith, count-scored κ scores))

  abbrev pub ranked : SearchResult F → SearchResult F → Bool
  ranked r s = ops.leb s.score r.score

  All-scored :
      (P : SearchResult F → Type 0) (Q : Fused F → Type 0) (scores : List (Fused F))
      → ((f : Fused F) → Q f → P (scored ops codes default_name k f))
      → All Q scores
      → All P (results scores)
  All-scored P Q [] g h = tt
  All-scored P Q (f ∷ scores) g h = (g f h.0, All-scored P Q scores g h.1)

  IsSorted-scored :
      (scores : List (Fused F))
      → IsSorted (by_score ops codes default_name k) scores
      → IsSorted ranked (results scores)
  unfolding scored
  IsSorted-scored [] h = tt
  IsSorted-scored (f ∷ scores) h =
      (All-scored _ _ scores (λ g e. e) h.0, IsSorted-scored scores h.1)

  -- The fused results are sorted by descending score when the order of scores is total and transitive; the
  -- score of each is the sum, in the order of the lists, of what every result with its key contributes;
  -- and every key of a result in the lists is there exactly once, and no other.
  pub rrf_fusion_lem :
      (weights : Dict F) (channel_names : List String) (lists : List (List (SearchResult F)))
      → ((x y : F) → ops.leb x y ≡ false → ops.leb y x ≡ true)
      → ((x y z : F) → ops.leb x y ≡ true → ops.leb y z ≡ true → ops.leb x z ≡ true)
      → let out = rrf_fusion ops codes default_name k weights channel_names lists in
        let entries = all_entries ops codes default_name k weights channel_names 0 lists in
        IsSorted ranked out
        × All (λ (r : SearchResult F). total_from (key r) none entries ≡ some r.score) out
        × ((κ : List ℕ) → count κ out ≡ one_if (total_from κ none entries))
  unfolding rrf_fusion
  rrf_fusion_lem weights channel_names lists total trans =
      let entries = all_entries ops codes default_name k weights channel_names 0 lists in
      let scores = add_entries ops codes default_name k [] entries in
      let by = by_score ops codes default_name k in
      let keyed = add_entries-Keyed [] entries tt in
      let sums = λ (κ : List ℕ). lookup-add_entries κ [] entries in
      (
        IsSorted-scored (sort by scores) (
            sort-IsSorted by (λ f g e. total g.score f.score e)
              (λ f g h d e. trans h.score g.score f.score e d) scores),
        All-scored _ _ (sort by scores) (λ f (own, found). summed f own found)
            (All-sort by
              (λ (f : Fused F). (key f.result ≡ f.key) × (lookup f.key scores ≡ some f.score))
              scores (Keyed-found scores keyed)),
        λ κ.
            count-scored κ (sort by scores)
            ∙ sum_by-sort (λ (f : Fused F). if same_text (key f.result) κ then 1 else 0) by scores
            ∙ Keyed-once κ scores keyed
            ∙ ap one_if (sums κ),
      )
    where
      summed :
          (f : Fused F)
          → key f.result ≡ f.key
          → lookup f.key (
              add_entries ops codes default_name k []
                (all_entries ops codes default_name k weights channel_names 0 lists))
            ≡ some f.score
          → total_from
              (key (scored ops codes default_name k f))
              none
              (all_entries ops codes default_name k weights channel_names 0 lists)
            ≡ some ((scored ops codes default_name k f).score)
      summed f own found =
          let entries = all_entries ops codes default_name k weights channel_names 0 lists in
          ap (λ i. total_from i none entries) (key-scored f ∙ own)
          ∙ sym (lookup-add_entries f.key [] entries)
          ∙ found
          ∙ ap some (sym (score-scored f))
