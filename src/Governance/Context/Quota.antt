-- ===== src/Governance/Context/Quota.antt =====
-- The exchange for the quota: it never fails, and brings in only items of the pool.
use flavor_rag.Prelude.Sort.{sort-perm}
use flavor_rag.Prelude.Optional.{>>=-eq-some}
use mathlib.Core.List.Perm
use flavor_rag.Prelude.{
  ◌≡◌, List, [], ◌∷◌, none, some, All, arith, Bool-cases, inl, inr, sym, String, ◌⊎◌, ◌++◌,
  All-append, Option-cases, Bool, filter, ℕ, leb, ltb, ◌&&◌, length, refl, All-take, All-filter,
}
use mathlib.Core.List.{perm_middle, Perm, Mem, not-mem-nil, eq-or-mem_of_mem-cons, mem-cons_self}
use mathlib.Core.HLevel.{⊥_prop}
use mathlib.Core.Logic.Or
use flavor_rag.Prelude.Sort.{sort-perm}
use flavor_rag.Search.{SearchResult}
use flavor_rag.Governance.Scores.{SameResult, ScoreOrder}
use flavor_rag.Governance.Context.Defs.{
  replace, swap_with, Exchange, after_swap, swap_all, serve_kb, serve_kbs, apply_quota, count_or,
  kb_of, evictable_of, kbs_of, by_score, start_exchange, backfill_of,
}

module _ {F : Type 0} (equal : SameResult F) where
  replace-none :
      (v f : SearchResult F) (xs : List (SearchResult F)) → replace equal v f xs ≡ none → ¬ Mem v xs
  unfolding replace
  replace-none v f [] h = not-mem-nil
  replace-none v f (x ∷ xs) h = elim (Bool-cases (equal.same x v)) [
    | inl e ↦ absurd (ground arith)
    | inr e ↦ λ m.
        Or.elim ⊥_prop (eq-or-mem_of_mem-cons m)
          (λ here. ground (arith, (equal.same_iff x v).1 (sym here)))
          (replace-none v f xs (ground arith))
  ]

  replace-eq-some :
      (v f x : SearchResult F) (xs out : List (SearchResult F))
      → replace equal v f (x ∷ xs) ≡ some out
      → (x ≡ v) × (out ≡ f ∷ xs)
        ⊎ ((rest : List (SearchResult F)) × (replace equal v f xs ≡ some rest) × (out ≡ x ∷ rest))
  unfolding replace
  replace-eq-some v f x xs out h = elim (Bool-cases (equal.same x v)) [
    | inl e ↦ inl ((equal.same_iff x v).0 e, ground arith)
    | inr e ↦
        let (rest, found, ends) = >>=-eq-some (replace equal v f xs) _ (rw e at h) in
        inr (rest, found, ground arith)
  ]

  replace-perm :
      (v f : SearchResult F) (xs out : List (SearchResult F))
      → replace equal v f xs ≡ some out
      → Perm (v ∷ out) (f ∷ xs)
  replace-perm v f [] out h = unfold replace in absurd (cc)
  replace-perm v f (x ∷ xs) out h = elim (replace-eq-some v f x xs out h) [
    | inl (here, ends) ↦ rw (ends, here) (Perm.swap f v xs)
    | inr (rest, found, ends) ↦ rw ends (
        Perm.trans (Perm.swap x v rest)
          (Perm.trans (Perm.cons x (replace-perm v f xs rest found)) (Perm.swap f x xs)))
  ]

  All-replace :
      (P : SearchResult F → Type 0) (v f : SearchResult F) (xs out : List (SearchResult F))
      → replace equal v f xs ≡ some out
      → P f
      → All P xs
      → All P out
  All-replace P v f [] out h p k = unfold replace in absurd (cc)
  All-replace P v f (x ∷ xs) out h p k = elim (replace-eq-some v f x xs out h) [
    | inl (here, ends) ↦ rw ends (p, k.1)
    | inr (rest, found, ends) ↦ rw ends (k.0, All-replace P v f xs rest found p k.1)
  ]

  -- The items that may go all stand among the selected ones, each as often.
  record Backed (P : SearchResult F → Type 0) (selected evictable : List (SearchResult F))
      : Type 0 where
    others : List (SearchResult F)
    split : Perm selected (evictable ++ others)
    good : All P selected

  module _ (P : SearchResult F → Type 0) (kb : String) where
    swap_with-Backed :
        (x : Exchange (SearchResult F)) (fill : SearchResult F) (evictable : List (SearchResult F))
        → Backed P x.selected evictable
        → P fill
        → (x' : Exchange (SearchResult F)) × (swap_with equal kb x fill evictable ≡ some x')
          × Backed P x'.selected x'.evictable
    unfolding swap_with
    swap_with-Backed x fill [] b p = (
      _,
      refl,
      record {
        others = x.selected ++ fill ∷ [];
        split = Perm.refl _;
        good = All-append P x.selected (fill ∷ []) b.good (p, tt);
      },
    )
    swap_with-Backed x fill (v ∷ evictable) b p =
        elim (Option-cases (replace equal v fill x.selected)) [
          | inl fails ↦
              absurd (replace-none v fill x.selected fails ((Perm.mem_iff b.split).1 mem-cons_self))
          | inr (out, found) ↦ (
            after_swap equal kb v fill x evictable out,
            rw found,
            record {
              others = fill ∷ b.others;
              split =
                  Perm.trans
                    (Perm.cons_inv (
                      Perm.trans (replace-perm v fill x.selected out found)
                        (Perm.trans (Perm.cons fill b.split) (Perm.swap v fill _))))
                    (Perm.symm (perm_middle evictable b.others));
              good = All-replace P v fill x.selected out found p b.good;
            },
          )
        ]

    swap_all-Backed :
        (x : Exchange (SearchResult F)) (backfill : List (SearchResult F))
        → Backed P x.selected x.evictable
        → All P backfill
        → (x' : Exchange (SearchResult F)) × (swap_all equal kb x backfill ≡ some x')
          × All P x'.selected
    unfolding swap_all
    swap_all-Backed x [] b h = (x, refl, b.good)
    swap_all-Backed x (fill ∷ backfill) b h =
        let (x', swapped, b') = swap_with-Backed x fill x.evictable b h.0 in
        let (y, rest, good) = swap_all-Backed x' backfill b' h.1 in (y, rw swapped rest, good)

module _ {A : Type 0} (p : A → Bool) where
  filter-split : (xs : List A) → (others : List A) × Perm xs (filter p xs ++ others)
  filter-split [] = ([], Perm.refl [])
  filter-split (x ∷ xs) = elim (Bool-cases (p x)) [
    | inl e ↦ let (others, split) = filter-split xs in (others, rw e (Perm.cons x split))
    | inr e ↦
        let (others, split) = filter-split xs in
        (
          x ∷ others,
          rw e (Perm.trans (Perm.cons x split) (Perm.symm (perm_middle (filter p xs) others))),
        )
  ]

module _ {F : Type 0} (order : ScoreOrder F) (equal : SameResult F) (P : SearchResult F → Type 0)
    (quota : ℕ) (pool : List (SearchResult F)) (pool_good : All P pool) where
  serve_kb-good :
      (x : Exchange (SearchResult F)) (kb : String)
      → All P x.selected
      → (x' : Exchange (SearchResult F)) × (serve_kb order equal quota pool x kb ≡ some x')
        × All P x'.selected
  unfolding serve_kb
  serve_kb-good x kb good = elim (Bool-cases (leb quota (count_or x.counts kb 0))) [
    | inl served ↦ (x, rw served, good)
    | inr short ↦
        let (others, split) =
          filter-split (λ item. ltb quota (count_or x.counts (kb_of item) 0)) x.selected in
        let b : Backed equal P x.selected (evictable_of order equal quota x) = record {
          others = others;
          split =
              Perm.trans split
                (Perm.append_right others (Perm.symm (sort-perm (by_score order) _)));
          good = good;
        } in
        let (x', swapped, good') =
          swap_all-Backed equal P kb (record x { evictable = evictable_of order equal quota x })
            (backfill_of order equal quota kb x pool) b
            (All-take P _ _ (All-filter P _ pool pool_good)) in
        (x', rw short swapped, good')
  ]

  serve_kbs-good :
      (x : Exchange (SearchResult F)) (kbs : List String)
      → All P x.selected
      → (x' : Exchange (SearchResult F)) × (serve_kbs order equal quota pool x kbs ≡ some x')
        × All P x'.selected
  unfolding serve_kbs
  serve_kbs-good x [] good = (x, refl, good)
  serve_kbs-good x (kb ∷ kbs) good =
      let (x', served, good') = serve_kb-good x kb good in
      let (y, rest, good'') = serve_kbs-good x' kbs good' in (y, rw served rest, good'')

  -- In whatever order the knowledge bases are served, the exchange raises no exception, and what all
  -- selected items and all items of the pool have in common, the items of the result have too.
  pub apply_quota-good :
      (iterate : List String → List String) (selected : List (SearchResult F))
      → All P selected
      → (out : List (SearchResult F)) × (apply_quota order equal iterate quota pool selected
          ≡ some out)
        × All P out
  unfolding apply_quota
  apply_quota-good iterate selected good =
      elim (Bool-cases (ltb 0 quota && ltb 1 (length (kbs_of pool)))) [
        | inl active ↦
            let (x, served, good') =
              serve_kbs-good (start_exchange order equal selected) (iterate (kbs_of pool)) good in
            (x.selected, rw (active, served), good')
        | inr idle ↦ (selected, rw idle, good)
      ]
