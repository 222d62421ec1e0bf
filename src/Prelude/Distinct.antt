-- ===== src/Prelude/Distinct.antt =====
-- Lists of texts that differ, and how long lists are.
use Prim.Native.String.{String}
use flavor_rag.Prelude.{
  List, ◌∷◌, in_list, filter, Member, ◌≡◌, ◌++◌, not, length, false, ◌||◌, ◌==◌, ◌<◌, ◌≤◌, arith,
  [], inl, eq_iff, Member→filter, refl, length-filter-le, inr, Bool-cases, Member→in_list, map, ap,
  suc,
}

-- No text stands twice in the list.
abbrev pub Distinct : List String → Type 0
Distinct [] = Unit
Distinct (x ∷ xs) = (in_list x xs ≡ false) × Distinct xs

pub in_list-append :
    (x : String) (xs ys : List String) → in_list x (xs ++ ys) ≡ (in_list x xs || in_list x ys)
in_list-append x [] ys = refl
in_list-append x (y ∷ xs) ys = ground (arith, in_list-append x xs ys)

pub Distinct-append_last :
    (x : String) (xs : List String) → Distinct xs → in_list x xs ≡ false → Distinct (xs ++ x ∷ [])
Distinct-append_last x [] h k = (refl, tt)
Distinct-append_last x (y ∷ xs) h k = (
  rw (in_list-append y xs (x ∷ [])) (ground (arith, eq_iff x y, eq_iff y x, h.0, k)),
  Distinct-append_last x xs h.1 (ground arith),
)

without : String → List String → List String
without x ys = filter (λ y. not (x == y)) ys

length-without : (x : String) (ys : List String) → Member x ys → length (without x ys) < length ys
unfolding without
length-without x [] m = absurd m
length-without x (y ∷ ys) (inl e) =
    rw ((eq_iff x y).1 e) (omega (arith, length-filter-le (λ z. not (x == z)) ys))
length-without x (y ∷ ys) (inr m) = elim (Bool-cases (x == y)) [
  | inl e ↦ rw e (omega (arith, length-filter-le (λ z. not (x == z)) ys))
  | inr e ↦ rw e (omega (arith, length-without x ys m))
]

-- Different texts that all stand in a list are no more than the list has.
pub Distinct-le :
    (xs ys : List String)
    → Distinct xs
    → ((x : String) → Member x xs → Member x ys)
    → length xs ≤ length ys
unfolding without
Distinct-le [] ys d h = omega arith
Distinct-le (x ∷ xs) ys d h =
    omega (arith, length-without x ys (h x (inl refl)), Distinct-le xs (without x ys) d.1 others)
  where
    others : (y : String) → Member y xs → Member y (without x ys)
    others y m =
        Member→filter (λ z. not (x == z)) y ys (h y (inr m))
          (elim (Bool-cases (x == y)) [
            | inl e ↦ absurd (cc (Member→in_list x xs (rw ((eq_iff x y).0 e) m), d.0))
            | inr e ↦ rw e refl
          ])

pub length-map : {A B : Type 0} (f : A → B) (xs : List A) → length (map f xs) ≡ length xs
length-map f [] = refl
length-map f (x ∷ xs) = ap suc (length-map f xs)
