-- ===== src/Chunker/Structure/Scanning.antt =====
-- What the lines and the blocks cover.
use flavor_rag.Prelude.{
  ℕ, suc, List, some, true, false, eqb, eqb→eq, ◌+◌, ◌-◌, ◌≤◌, ◌<◌, ◌≡◌, inl, inr, [], ◌∷◌, length,
  get_elem?, arith, Bool-cases, refl, sym, ◌∙◌, All, leb, leb→le,
}
use flavor_rag.Chunker.Chars.{CharTests, is_blank}
use flavor_rag.Chunker.Structure.Lines.{Line, begin_line, lines_from}

-- The lines stand one behind the other from `a` to `b`.
abbrev pub LinesFrom : ℕ → ℕ → List Line → Type 0
LinesFrom a b [] = a ≡ b
LinesFrom a b (l ∷ ls) = (l.start ≡ a) × (a < l.next) × LinesFrom l.next b ls

pub lines_from-LinesFrom :
    (i n : ℕ) (text : List ℕ) → n ≡ i + length text → LinesFrom i n (lines_from i text)
unfolding lines_from
lines_from-LinesFrom i n [] h = omega arith
lines_from-LinesFrom i n (c ∷ cs) h = elim (Bool-cases (eqb c 10)) [
  | inl e ↦ rw e (refl, omega arith, lines_from-LinesFrom (i + 1) n cs (omega (arith, h)))
  | inr e ↦
      rw e (begun (lines_from (i + 1) cs) (lines_from-LinesFrom (i + 1) n cs (omega (arith, h))))
]
  where
    begun : (ls : List Line) → LinesFrom (i + 1) n ls → LinesFrom i n (begin_line i c ls)
    begun [] g = (refl, omega arith, g)
    begun (l ∷ ls) (s, lt, g) = (refl, omega (arith, lt), g)

module _ (chars : CharTests) (newline : chars.isspace 10 ≡ true) where
  -- A character of the text that is not whitespace, at the place in the line, is in the line's content.
  abbrev pub Shown : ℕ → List ℕ → Line → Type 0
  Shown i text l =
      (p c : ℕ)
      → l.start ≤ p
      → p < l.next
      → get_elem? text (p - i) ≡ some c
      → chars.isspace c ≡ false
      → is_blank chars l.content ≡ false

  Shown-shift :
      (i : ℕ) (c : ℕ) (cs : List ℕ) (l : Line)
      → i + 1 ≤ l.start
      → Shown (i + 1) cs l
      → Shown i (c ∷ cs) l
  Shown-shift i c cs l le h p d a b at visible =
      let n : p - i ≡ suc (p - (i + 1)) = omega (arith, le, a) in h p d a b (rw n at at) visible

  Shown-lines :
      (i n a b : ℕ) (c : ℕ) (cs : List ℕ) (ls : List Line)
      → i + 1 ≤ a
      → LinesFrom a b ls
      → All (Shown (i + 1) cs) ls
      → All (Shown i (c ∷ cs)) ls
  Shown-lines i n a b c cs [] le h s = tt
  Shown-lines i n a b c cs (l ∷ ls) le (e, lt, h) s = (
    Shown-shift i c cs l (omega (arith, e)) s.0,
    Shown-lines i n l.next b c cs ls (omega arith) h s.1,
  )

  pub lines_from-Shown : (i : ℕ) (text : List ℕ) → All (Shown i text) (lines_from i text)
  unfolding lines_from
  lines_from-Shown i [] = tt
  lines_from-Shown i (c ∷ cs) = elim (Bool-cases (eqb c 10)) [
    | inl e ↦ rw e (
      λ p d a b at visible.
          absurd (at_newline p d (omega (arith, a, b)) at visible (eqb→eq c 10 e)),
      Shown-lines i 0 (i + 1) (i + 1 + length cs) c cs (lines_from (i + 1) cs) (omega arith)
          (lines_from-LinesFrom (i + 1) (i + 1 + length cs) cs refl) (lines_from-Shown (i + 1) cs),
    )
    | inr e ↦ rw e (
        begun (lines_from (i + 1) cs) (lines_from-LinesFrom (i + 1) (i + 1 + length cs) cs refl)
          (lines_from-Shown (i + 1) cs))
  ]
    where
      shown_first :
          (p d : ℕ)
          → p ≡ i
          → get_elem? (c ∷ cs) (p - i) ≡ some d
          → chars.isspace d ≡ false
          → chars.isspace c ≡ false
      shown_first p d e at visible =
          let n : p - i ≡ 0 = omega (arith, e) in
          let q : some c ≡ some d = rw n at at in let same : c ≡ d = cc q in rw same visible

      at_newline :
          (p d : ℕ)
          → p ≡ i
          → get_elem? (c ∷ cs) (p - i) ≡ some d
          → chars.isspace d ≡ false
          → c ≡ 10
          → ⊥
      at_newline p d e at visible ten =
          let n : p - i ≡ 0 = omega (arith, e) in
          let q : some c ≡ some d = rw n at at in
          let same : c ≡ d = cc q in
          let space : chars.isspace d ≡ true = rw (sym same, ten) newline in
          cc (sym visible ∙ space)

      begun :
          (ls : List Line)
          → LinesFrom (i + 1) (i + 1 + length cs) ls
          → All (Shown (i + 1) cs) ls
          → All (Shown i (c ∷ cs)) (begin_line i c ls)
      begun [] g s = (
        λ p d a b at visible. ground (arith, shown_first p d (omega (arith, a, b)) at visible),
        tt,
      )
      begun (l ∷ ls) (e, lt, g) s = (
        λ p d a b at visible. elim (Bool-cases (leb p i)) [
          | inl first ↦
              ground (arith, shown_first p d (omega (arith, leb→le p i first, a)) at visible)
          | inr other ↦
              let behind : i + 1 ≤ p = ground (arith, other) in
              let n : p - i ≡ suc (p - (i + 1)) = omega (arith, behind) in
              ground (arith, s.0 p d (omega (arith, e, behind)) b (rw n at at) visible)
        ],
        Shown-lines i 0 l.next (i + 1 + length cs) c cs ls (omega arith) g s.1,
      )
