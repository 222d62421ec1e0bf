-- ===== src/Prelude/Text.antt =====
-- Texts, compared whole. `in_list` is Python's `x in [..]` for texts; `or_else` its `x or y`.
use Prim.Native.String.{String}
use text.Mathlib.Text
use text.Mathlib.TextEquality
use mathlib.Core.Path.{◌≡◌, refl}
use mathlib.Core.Logic.{◌↔◌, inl, inr}
use mathlib.Core.Bool.{Bool, true, false, not}
use mathlib.Core.List.{List, [], ◌∷◌}
use native.Mathlib.Omega.{arith}
use flavor_rag.Prelude.Tests.{if◌then◌else◌, Bool-cases}
use flavor_rag.Prelude.Lists.{any, Member}

infix 50 ◌==◌
abbrev pub ◌==◌ : String → String → Bool
s == t = Text.◌==◌ s t

pub eq_iff : (s t : String) → ((s == t) ≡ true) ↔ (s ≡ t)
eq_iff s t = TextEquality.eq_iff s t

pub eq_refl : (s : String) → (s == s) ≡ true
eq_refl s = (eq_iff s s).1 refl

-- A text is falsy when it is empty.
abbrev pub truthy : String → Bool
truthy s = not (s == "")

abbrev pub or_else : String → String → String
or_else s t = if truthy s then s else t

abbrev pub in_list : String → List String → Bool
in_list s ts = any (λ t. s == t) ts

-- A test that holds exactly for `P` decides `P`.
unfoldable pub from_test {ℓ} : {P : Type ℓ} (b : Bool) → (b ≡ true) ↔ P → Dec P
from_test true h = yes (h.0 refl)
from_test false h = no (λ p. cc (h.1 p))

unfoldable pub String-discrete : Discrete String
unfolding from_test
String-discrete s t = from_test (s == t) (eq_iff s t)

pub in_list→Member : (s : String) (ts : List String) → in_list s ts ≡ true → Member s ts
in_list→Member s [] h = absurd (cc)
in_list→Member s (t ∷ ts) h = elim (Bool-cases (s == t)) [
  | inl e ↦ inl ((eq_iff s t).0 e)
  | inr e ↦ inr (in_list→Member s ts (rw e at h))
]

pub Member→in_list : (s : String) (ts : List String) → Member s ts → in_list s ts ≡ true
Member→in_list s [] m = absurd m
Member→in_list s (t ∷ ts) (inl e) = ground (arith, (eq_iff s t).1 e)
Member→in_list s (t ∷ ts) (inr m) = ground (arith, Member→in_list s ts m)
