-- ===== src/Prelude/Lists.antt =====
-- Lists measured by native numbers, tests on their items, and predicates by recursion.
use Prim.Native.Nat.{ℕ, zero, suc, ◌+◌, ◌≤◌, min}
use mathlib.Core.Path.{◌≡◌, refl, ap, sym}
use mathlib.Core.Logic.{◌⊎◌, inl, inr}
use mathlib.Core.Bool.{Bool, true, false, ◌&&◌, ◌||◌}
use mathlib.Core.List.{List, [], ◌∷◌, ◌++◌, map}
use mathlib.Core.Option.{Option, none, some}
use native.Mathlib.Omega.{arith}
use flavor_rag.Prelude.Tests.{eqb, if◌then◌else◌, Bool-cases}

module _ {ℓ} {A : Type ℓ} where
  abbrev pub length : List A → ℕ
  length [] = 0
  length (x ∷ xs) = suc (length xs)

  -- `not xs`
  abbrev pub is_nil : List A → Bool
  is_nil [] = true
  is_nil (x ∷ xs) = false

  abbrev pub get_elem? : List A → ℕ → Option A
  get_elem? [] i = none
  get_elem? (x ∷ xs) zero = some x
  get_elem? (x ∷ xs) (suc i) = get_elem? xs i

  abbrev pub take : ℕ → List A → List A
  take zero xs = []
  take (suc n) [] = []
  take (suc n) (x ∷ xs) = x ∷ take n xs

  abbrev pub drop : ℕ → List A → List A
  drop zero xs = xs
  drop (suc n) [] = []
  drop (suc n) (x ∷ xs) = drop n xs

  -- `[x for x in xs if p(x)]`
  abbrev pub filter : (A → Bool) → List A → List A
  filter p [] = []
  filter p (x ∷ xs) = if p x then x ∷ filter p xs else filter p xs

  -- `any(p(x) for x in xs)` and `all(p(x) for x in xs)`
  abbrev pub any : (A → Bool) → List A → Bool
  any p [] = false
  any p (x ∷ xs) = p x || any p xs

  abbrev pub all : (A → Bool) → List A → Bool
  all p [] = true
  all p (x ∷ xs) = p x && all p xs

  abbrev pub All {κ} : (A → Type κ) → List A → Type κ
  All P [] = Unit
  All P (x ∷ xs) = P x × All P xs

  pub append_assoc : (xs ys zs : List A) → xs ++ ys ++ zs ≡ xs ++ (ys ++ zs)
  append_assoc [] ys zs = refl
  append_assoc (x ∷ xs) ys zs = ap (◌∷◌ x) (append_assoc xs ys zs)

  pub append_nil : (xs : List A) → xs ++ [] ≡ xs
  append_nil [] = refl
  append_nil (x ∷ xs) = ap (◌∷◌ x) (append_nil xs)

  pub filter-append :
      (p : A → Bool) (xs ys : List A) → filter p (xs ++ ys) ≡ filter p xs ++ filter p ys
  filter-append p [] ys = refl
  filter-append p (x ∷ xs) ys = ground (arith, filter-append p xs ys)

  pub length-append : (xs ys : List A) → length (xs ++ ys) ≡ length xs + length ys
  length-append [] ys = omega arith
  length-append (x ∷ xs) ys = omega (arith, length-append xs ys)

  pub take_nil : (n : ℕ) → take n [] ≡ []
  take_nil zero = refl
  take_nil (suc n) = refl

  pub length-take : (n : ℕ) (xs : List A) → length (take n xs) ≡ min n (length xs)
  length-take zero xs = omega arith
  length-take (suc n) [] = omega arith
  length-take (suc n) (x ∷ xs) = omega (arith, length-take n xs)

  pub length-filter-le : (p : A → Bool) (xs : List A) → length (filter p xs) ≤ length xs
  length-filter-le p [] = omega arith
  length-filter-le p (x ∷ xs) = ground (arith, length-filter-le p xs)

  pub take-append-drop : (n : ℕ) (xs : List A) → take n xs ++ drop n xs ≡ xs
  take-append-drop zero xs = refl
  take-append-drop (suc n) [] = refl
  take-append-drop (suc n) (x ∷ xs) = ap (◌∷◌ x) (take-append-drop n xs)

module _ {ℓ κ} {A : Type ℓ} (P : A → Type κ) where
  pub All-append : (xs ys : List A) → All P xs → All P ys → All P (xs ++ ys)
  All-append [] ys h k = k
  All-append (x ∷ xs) ys h k = (h.0, All-append xs ys h.1 k)

  pub All-append_left : (xs ys : List A) → All P (xs ++ ys) → All P xs
  All-append_left [] ys h = tt
  All-append_left (x ∷ xs) ys h = (h.0, All-append_left xs ys h.1)

  pub All-take : (n : ℕ) (xs : List A) → All P xs → All P (take n xs)
  All-take zero xs h = tt
  All-take (suc n) [] h = tt
  All-take (suc n) (x ∷ xs) h = (h.0, All-take n xs h.1)

  pub All-filter : (p : A → Bool) (xs : List A) → All P xs → All P (filter p xs)
  All-filter p [] h = tt
  All-filter p (x ∷ xs) h = ground (arith, All-filter p xs h.1)

  pub All-map {μ} : (Q : A → Type μ) (xs : List A) → ((a : A) → P a → Q a) → All P xs → All Q xs
  All-map Q [] f h = tt
  All-map Q (x ∷ xs) f h = (f x h.0, All-map Q xs f h.1)

module _ {ℓ} {A : Type ℓ} where
  -- What holds of the items that pass the test, given that they pass.
  pub All-filter_given {κ μ} :
      (P : A → Type κ) (Q : A → Type μ) (p : A → Bool) (xs : List A)
      → ((a : A) → p a ≡ true → P a → Q a)
      → All P xs
      → All Q (filter p xs)
  All-filter_given P Q p [] f h = tt
  All-filter_given P Q p (x ∷ xs) f h = elim (Bool-cases (p x)) [
    | inl e ↦ rw e (f x e h.0, All-filter_given P Q p xs f h.1)
    | inr e ↦ rw e (All-filter_given P Q p xs f h.1)
  ]

  pub All-of_map {κ μ} :
      {B : Type κ} (Q : B → Type μ) (f : A → B) (xs : List A)
      → All (λ x. Q (f x)) xs
      → All Q (map f xs)
  All-of_map Q f [] h = tt
  All-of_map Q f (x ∷ xs) h = (h.0, All-of_map Q f xs h.1)

  pub All-filter_test : (p : A → Bool) (xs : List A) → All (λ x. p x ≡ true) (filter p xs)
  All-filter_test p [] = tt
  All-filter_test p (x ∷ xs) = ground (arith, All-filter_test p xs)

  pub all→All : (p : A → Bool) (xs : List A) → all p xs ≡ true → All (λ x. p x ≡ true) xs
  all→All p [] h = tt
  all→All p (x ∷ xs) h = ground (arith, all→All p xs)

-- The item stands in the list.
abbrev pub Member : {A : Type 0} → A → List A → Type 0
Member a [] = ⊥
Member a (x ∷ xs) = (a ≡ x) ⊎ Member a xs

module _ {A : Type 0} where
  pub All-member : (P : A → Type 0) (xs : List A) → All P xs → (a : A) → Member a xs → P a
  All-member P [] h a m = absurd m
  All-member P (x ∷ xs) h a (inl e) = rw e h.0
  All-member P (x ∷ xs) h a (inr m) = All-member P xs h.1 a m

  pub All-of_Member : (P : A → Type 0) (xs : List A) → ((a : A) → Member a xs → P a) → All P xs
  All-of_Member P [] f = tt
  All-of_Member P (x ∷ xs) f = (f x (inl refl), All-of_Member P xs (λ a m. f a (inr m)))

  pub any→Member :
      (p : A → Bool) (xs : List A) → any p xs ≡ true → (a : A) × Member a xs × (p a ≡ true)
  any→Member p [] h = absurd (cc)
  any→Member p (x ∷ xs) h = elim (Bool-cases (p x)) [
    | inl e ↦ (x, inl refl, e)
    | inr e ↦ let (a, m, q) = any→Member p xs (rw e at h) in (a, inr m, q)
  ]

  pub Member→any : (p : A → Bool) (xs : List A) (a : A) → Member a xs → p a ≡ true → any p xs ≡ true
  Member→any p [] a m h = absurd m
  Member→any p (x ∷ xs) a (inl e) h = ground arith
  Member→any p (x ∷ xs) a (inr m) h = ground (arith, Member→any p xs a m h)

  pub Member-append_left : (a : A) (xs ys : List A) → Member a xs → Member a (xs ++ ys)
  Member-append_left a [] ys m = absurd m
  Member-append_left a (x ∷ xs) ys (inl e) = inl e
  Member-append_left a (x ∷ xs) ys (inr m) = inr (Member-append_left a xs ys m)

  pub Member-append_right : (a : A) (xs ys : List A) → Member a ys → Member a (xs ++ ys)
  Member-append_right a [] ys m = m
  Member-append_right a (x ∷ xs) ys m = inr (Member-append_right a xs ys m)

  pub Member-append : (a : A) (xs ys : List A) → Member a (xs ++ ys) → Member a xs ⊎ Member a ys
  Member-append a [] ys m = inr m
  Member-append a (x ∷ xs) ys (inl e) = inl (inl e)
  Member-append a (x ∷ xs) ys (inr m) = elim (Member-append a xs ys m) [
    | inl h ↦ inl (inr h)
    | inr h ↦ inr h
  ]

  pub Member-filter : (p : A → Bool) (a : A) (xs : List A) → Member a (filter p xs) → Member a xs
  Member-filter p a [] m = m
  Member-filter p a (x ∷ xs) m = elim (Bool-cases (p x)) [
    | inl e ↦ elim (rw e at m) [ inl h ↦ inl h | inr h ↦ inr (Member-filter p a xs h) ]
    | inr e ↦ inr (Member-filter p a xs (rw e at m))
  ]

  pub Member-filter_test :
      (p : A → Bool) (a : A) (xs : List A) → Member a (filter p xs) → p a ≡ true
  Member-filter_test p a [] m = absurd m
  Member-filter_test p a (x ∷ xs) m = elim (Bool-cases (p x)) [
    | inl e ↦ elim (rw e at m) [ inl h ↦ rw h e | inr h ↦ Member-filter_test p a xs h ]
    | inr e ↦ Member-filter_test p a xs (rw e at m)
  ]

  pub Member→filter :
      (p : A → Bool) (a : A) (xs : List A) → Member a xs → p a ≡ true → Member a (filter p xs)
  Member→filter p a [] m h = m
  Member→filter p a (x ∷ xs) (inl e) h = rw (sym e, h) (inl refl)
  Member→filter p a (x ∷ xs) (inr m) h = elim (Bool-cases (p x)) [
    | inl e ↦ rw e (inr (Member→filter p a xs m h))
    | inr e ↦ rw e (Member→filter p a xs m h)
  ]

  pub Member-map :
      {B : Type 0} (f : A → B) (xs : List A) (a : A) → Member a xs → Member (f a) (map f xs)
  Member-map f [] a m = absurd m
  Member-map f (x ∷ xs) a (inl e) = inl (ap f e)
  Member-map f (x ∷ xs) a (inr m) = inr (Member-map f xs a m)

  pub Member→get_elem? : (a : A) (xs : List A) → Member a xs → (i : ℕ) × (get_elem? xs i ≡ some a)
  Member→get_elem? a [] m = absurd m
  Member→get_elem? a (x ∷ xs) (inl e) = (0, ap some (sym e))
  Member→get_elem? a (x ∷ xs) (inr m) = let (i, h) = Member→get_elem? a xs m in (suc i, h)

module _ {ℓ} {A : Type ℓ} where
  -- `[x for part in parts for x in part]`
  abbrev pub concat : List (List A) → List A
  concat [] = []
  concat (xs ∷ parts) = xs ++ concat parts

  -- `[xs[i:i + size] for i in range(0, len(xs), size)]`, on fuel; `size` is not 0.
  unfoldable pub batches_from : ℕ → ℕ → List A → List (List A)
  batches_from zero size xs = []
  batches_from (suc fuel) size [] = []
  batches_from (suc fuel) size (x ∷ xs) =
      take size (x ∷ xs) ∷ batches_from fuel size (drop size (x ∷ xs))

  unfoldable pub batches : ℕ → List A → List (List A)
  unfolding batches_from
  batches size xs = batches_from (length xs) size xs

  pub length-drop_le : (n : ℕ) (xs : List A) → length (drop n xs) + n ≤ length xs ⊎ (drop n xs ≡ [])
  length-drop_le zero xs = inl (omega arith)
  length-drop_le (suc n) [] = inr refl
  length-drop_le (suc n) (x ∷ xs) = elim (length-drop_le n xs) [
    | inl h ↦ inl (omega (arith, h))
    | inr h ↦ inr h
  ]

  concat-batches_from :
      (fuel size : ℕ) (xs : List A)
      → length xs ≤ fuel
      → 1 ≤ size
      → concat (batches_from fuel size xs) ≡ xs
  unfolding batches_from
  concat-batches_from zero size [] h k = refl
  concat-batches_from zero size (x ∷ xs) h k = absurd (omega (arith, h))
  concat-batches_from (suc fuel) size [] h k = refl
  concat-batches_from (suc fuel) size (x ∷ xs) h k =
      let less : length (drop size (x ∷ xs)) ≤ fuel = elim (length-drop_le size (x ∷ xs)) [
        | inl g ↦ omega (arith, g, h)
        | inr g ↦ rw g (omega arith)
      ] in
      let ih = concat-batches_from fuel size (drop size (x ∷ xs)) less k in
      rw ih (take-append-drop size (x ∷ xs))

  -- The batches make up the list.
  pub concat-batches : (size : ℕ) (xs : List A) → 1 ≤ size → concat (batches size xs) ≡ xs
  unfolding batches
  concat-batches size xs h = concat-batches_from (length xs) size xs (omega arith) h

  batches_from-bounds :
      (fuel size : ℕ) (xs : List A)
      → 1 ≤ size
      → All (λ b. (1 ≤ length b) × (length b ≤ size)) (batches_from fuel size xs)
  unfolding batches_from
  batches_from-bounds zero size xs h = tt
  batches_from-bounds (suc fuel) size [] h = tt
  batches_from-bounds (suc fuel) size (x ∷ xs) h =
      let n = length-take size (x ∷ xs) in
      (
        (omega (arith, n, h), omega (arith, n)),
        batches_from-bounds fuel size (drop size (x ∷ xs)) h,
      )

  -- No batch is empty, and none is larger than `size`.
  pub batches-bounds :
      (size : ℕ) (xs : List A)
      → 1 ≤ size
      → All (λ b. (1 ≤ length b) × (length b ≤ size)) (batches size xs)
  unfolding batches
  batches-bounds size xs h = batches_from-bounds (length xs) size xs h

-- `a == b` on texts of code points.
abbrev pub same_text : List ℕ → List ℕ → Bool
same_text [] [] = true
same_text [] (d ∷ ds) = false
same_text (c ∷ cs) [] = false
same_text (c ∷ cs) (d ∷ ds) = eqb c d && same_text cs ds

pub same_text→eq : (s t : List ℕ) → same_text s t ≡ true → s ≡ t
same_text→eq [] [] h = refl
same_text→eq [] (d ∷ ds) h = cc
same_text→eq (c ∷ cs) [] h = cc
same_text→eq (c ∷ cs) (d ∷ ds) h =
    let head : c ≡ d = ground (arith, h) in
    let tail : same_text cs ds ≡ true = ground (arith, h) in rw (head, same_text→eq cs ds tail) refl

pub same_text_refl : (s : List ℕ) → same_text s s ≡ true
same_text_refl [] = refl
same_text_refl (c ∷ cs) = ground (arith, same_text_refl cs)
