-- ===== src/Chunker/Typed/Coverage.antt =====
-- What the typed blocks of `_parse_blocks` cover.
use flavor_rag.Prelude.{
  is_nil, ℕ, suc, zero, List, true, ◌&&◌, ◌||◌, not, ◌≤◌, ◌<◌, ◌≡◌, [], ◌∷◌, length, All, arith,
  Bool-cases, subst, sym, inl, inr,
}
use flavor_rag.Chunker.Chars.{CharTests}
use flavor_rag.Chunker.Structure.Lines.{
  Line, lines_from, trim_right, is_code_fence, is_heading, is_atomic_image, is_atomic_link,
}
use flavor_rag.Chunker.Structure.Blocks.{Block, heading, code, para, table, list, image}
use flavor_rag.Chunker.Structure.Scanning.{LinesFrom, Shown, lines_from-LinesFrom, lines_from-Shown}
use flavor_rag.Chunker.Structure.Segments.{Full, Full-push, Full-skip, trimmed-Visible}
use flavor_rag.Chunker.Typed.Patterns.{is_table_row, is_table_separator, is_list_item, strip}
use flavor_rag.Chunker.Typed.Parsing.{
  Open, nothing, open_para, open_code, open_table, Parser, close_open, extend, begins_item,
  list_block, list_span, parse_line, parse_round, parse_lines, parse_blocks,
}

module _ (chars : CharTests) (text : List ℕ) (newline : chars.isspace 10 ≡ true) (n : ℕ) where
  -- The lines that are still to be read at a position.
  abbrev Ahead : ℕ → List Line → Type 0
  Ahead p ls = LinesFrom p n ls × All (Shown chars newline 0 text) ls

  Ahead-step :
      (p : ℕ) (l : Line) (ls : List Line)
      → Ahead p (l ∷ ls)
      → (l.start ≡ p) × (p < l.next) × Ahead l.next ls
  Ahead-step p l ls ((e, lt, rest), (shown, more)) = (e, lt, (rest, more))

  list_span-Ahead :
      (p : ℕ) (ls : List Line)
      → Ahead p ls
      → Ahead (list_span chars p ls).0 (list_span chars p ls).1
        × (p ≤ (list_span chars p ls).0)
        × (length (list_span chars p ls).1 ≤ length ls)
  unfolding list_span
  list_span-Ahead p [] h = (h, omega arith, omega arith)
  list_span-Ahead p (l ∷ ls) h =
      let (e, lt, ahead) = Ahead-step p l ls h in
      let ih = list_span-Ahead l.next ls ahead in
      let trimmed = trim_right chars l.content in
      elim (Bool-cases (is_nil trimmed)) [
        | inl f ↦ elim (Bool-cases (begins_item chars ls)) [
          | inl g ↦ rw (f, g) (ih.0, omega (arith, ih.1, lt), omega (arith, ih.2))
          | inr g ↦ rw (f, g) (ahead, omega (arith, lt), omega arith)
        ]
        | inr f ↦ elim (Bool-cases (is_list_item chars trimmed)) [
          | inl g ↦ rw (f, g) (ih.0, omega (arith, ih.1, lt), omega (arith, ih.2))
          | inr g ↦ rw (f, g) (h, omega arith, omega arith)
        ]
      ]

  -- The state of the loop at a position.
  abbrev Parsed : ℕ → Parser → Type 0
  Parsed p st = elim st.opened [
    | nothing ↦ Full chars text p st.blocks
    | open_para s ↦ Full chars text s st.blocks × (s < p)
    | open_code s ↦ Full chars text s st.blocks × (s < p)
    | open_table s ↦ Full chars text s st.blocks × (s < p)
  ]

  close_open-Full :
      (p : ℕ) (bs : List Block) (o : Open)
      → Parsed p (record { blocks = bs; opened = o })
      → Full chars text p (close_open (record { blocks = bs; opened = o }) p)
  close_open-Full p bs nothing h = h
  close_open-Full p bs (open_para s) h = Full-push chars text s p para bs h.0 h.1
  close_open-Full p bs (open_code s) h = Full-push chars text s p code bs h.0 h.1
  close_open-Full p bs (open_table s) h = Full-push chars text s p table bs h.0 h.1

  -- No code and no table is open.
  abbrev Plain : Open → Type 0
  Plain nothing = Unit {0}
  Plain (open_para s) = Unit {0}
  Plain (open_code s) = ⊥
  Plain (open_table s) = ⊥

  extend-Parsed :
      (p e : ℕ) (bs : List Block) (o : Open)
      → p < e
      → Plain o
      → Parsed p (record { blocks = bs; opened = o })
      → Parsed e (record { blocks = bs; opened = extend o p })
  extend-Parsed p e bs nothing lt u h = (h, lt)
  extend-Parsed p e bs (open_para s) lt u h = (h.0, omega (arith, h.1, lt))
  extend-Parsed p e bs (open_code s) lt u h = absurd u
  extend-Parsed p e bs (open_table s) lt u h = absurd u

  -- After a round: the state at the next position, and the lines that are left, `k` at most.
  abbrev Round : ℕ → Parser × List Line → Type 0
  Round k r = (q : ℕ) × Ahead q (r.1) × Parsed q (r.0) × (length (r.1) ≤ k)

  list_block-Round :
      (k p : ℕ) (closed : List Block) (r : ℕ × List Line)
      → Full chars text p closed
      → Ahead (r.0) (r.1)
      → p < r.0
      → length (r.1) ≤ k
      → Round k (list_block closed p r)
  list_block-Round k p closed (e, rest) full ahead lt le =
      (e, ahead, Full-push chars text p e list closed full lt, le)

  parse_line-Round :
      (bs : List Block) (o : Open) (l : Line) (ls : List Line)
      → Plain o
      → l.start < l.next
      → Shown chars newline 0 text l
      → Ahead l.next ls
      → Parsed l.start (record { blocks = bs; opened = o })
      → Round (length ls) (parse_line chars (record { blocks = bs; opened = o }) l ls)
  unfolding parse_line
  parse_line-Round bs o l ls plain lt shown ahead h =
      let p = l.start in
      let closed = close_open-Full p bs o h in
      let before = close_open (record { blocks = bs; opened = o }) p in
      let trimmed = trim_right chars l.content in
      elim (Bool-cases (is_table_row chars l.content || is_table_separator chars trimmed)) [
        | inl f ↦ rw f (l.next, ahead, (closed, lt), omega arith)
        | inr f ↦ elim (Bool-cases (is_nil trimmed)) [
          | inl g ↦
              rw (f, g)
                (
                  l.next,
                  ahead,
                  Full-skip chars text p l.next before closed (omega (arith, lt))
                      (trimmed-Visible chars text newline l shown g),
                  omega arith,
                )
          | inr g ↦ elim (Bool-cases (is_heading chars trimmed)) [
            | inl i ↦
                rw (f, g, i)
                  (
                    l.next,
                    ahead,
                    Full-push chars text p l.next heading before closed lt,
                    omega arith,
                  )
            | inr i ↦
                elim (Bool-cases (is_atomic_image chars trimmed || is_atomic_link chars trimmed)) [
                  | inl j ↦
                      rw (f, g, i, j)
                        (
                          l.next,
                          ahead,
                          Full-push chars text p l.next image before closed lt,
                          omega arith,
                        )
                  | inr j ↦ elim (Bool-cases (is_list_item chars trimmed)) [
                    | inl k ↦
                        let ih = list_span-Ahead l.next ls ahead in
                        rw (f, g, i, j, k)
                          (list_block-Round (length ls) p before (list_span chars l.next ls) closed
                            ih.0 (omega (arith, ih.1, lt)) ih.2)
                    | inr k ↦
                        rw (f, g, i, j, k)
                          (l.next, ahead, extend-Parsed p l.next bs o lt plain h, omega arith)
                  ]
                ]
          ]
        ]
      ]

  parse_round-Round :
      (bs : List Block) (o : Open) (l : Line) (ls : List Line)
      → l.start < l.next
      → Shown chars newline 0 text l
      → Ahead l.next ls
      → Parsed l.start (record { blocks = bs; opened = o })
      → Round (length ls) (parse_round chars (record { blocks = bs; opened = o }) l ls)
  unfolding parse_round
  parse_round-Round bs nothing l ls lt shown ahead h =
      elim (Bool-cases (is_code_fence chars (trim_right chars l.content))) [
        | inl f ↦ rw f (l.next, ahead, (h, lt), omega arith)
        | inr f ↦ rw f (parse_line-Round bs nothing l ls tt lt shown ahead h)
      ]
  parse_round-Round bs (open_para s) l ls lt shown ahead h =
      elim (Bool-cases (is_code_fence chars (trim_right chars l.content))) [
        | inl f ↦
            rw f (l.next, ahead, (close_open-Full l.start bs (open_para s) h, lt), omega arith)
        | inr f ↦ rw f (parse_line-Round bs (open_para s) l ls tt lt shown ahead h)
      ]
  parse_round-Round bs (open_code s) l ls lt shown ahead h =
      elim (Bool-cases (is_code_fence chars (trim_right chars l.content))) [
        | inl f ↦ rw f (
          l.next,
          ahead,
          Full-push chars text s l.next code bs h.0 (omega (arith, h.1, lt)),
          omega arith,
        )
        | inr f ↦ rw f (l.next, ahead, (h.0, omega (arith, h.1, lt)), omega arith)
      ]
  parse_round-Round bs (open_table s) l ls lt shown ahead h =
      let trimmed = trim_right chars l.content in
      let closed = close_open-Full l.start bs (open_table s) h in
      let before = close_open (record { blocks = bs; opened = open_table s }) l.start in
      elim (Bool-cases (is_code_fence chars trimmed)) [
        | inl f ↦ rw f (l.next, ahead, (closed, lt), omega arith)
        | inr f ↦
            elim (Bool-cases
              (not (is_table_row chars l.content) && not (is_nil (strip chars trimmed)))) [
                | inl g ↦ rw (f, g) (parse_line-Round before nothing l ls tt lt shown ahead closed)
                | inr g ↦ rw (f, g) (l.next, ahead, (h.0, omega (arith, h.1, lt)), omega arith)
              ]
      ]

  parse_lines-Parsed :
      (fuel p : ℕ) (st : Parser) (ls : List Line)
      → length ls ≤ fuel
      → Ahead p ls
      → Parsed p st
      → Parsed n (parse_lines chars fuel st ls)
  unfolding parse_lines
  parse_lines-Parsed zero p st [] le ahead h = subst (λ k. Parsed k st) ahead.0 h
  parse_lines-Parsed zero p st (l ∷ ls) le ahead h = absurd (omega (arith, le))
  parse_lines-Parsed (suc fuel) p st [] le ahead h = subst (λ k. Parsed k st) ahead.0 h
  parse_lines-Parsed (suc fuel) p st (l ∷ ls) le (lines, shown) h =
      let start = subst (λ k. k < l.next) (sym lines.0) lines.1 in
      let (q, ahead, parsed, short) =
        parse_round-Round st.blocks st.opened l ls start shown.0 (lines.2, shown.1)
          (subst (λ k. Parsed k st) (sym lines.0) h) in
      parse_lines-Parsed fuel q ((parse_round chars st l ls).0) ((parse_round chars st l ls).1)
        (omega (arith, short, le)) ahead parsed

-- The typed blocks stand in order in the text, none is empty, and every character of the text that is
-- not whitespace is in one of them; the newline is whitespace.
pub parse_blocks_lem :
    (chars : CharTests) (text : List ℕ)
    → chars.isspace 10 ≡ true
    → Full chars text (length text) (parse_blocks chars text)
unfolding parse_blocks
parse_blocks_lem chars text newline =
    let n = length text in
    let ls = lines_from 0 text in
    let first : Parser = record { blocks = []; opened = nothing } in
    let last = parse_lines chars (length ls) first ls in
    close_open-Full chars text newline n n last.blocks last.opened (
      parse_lines-Parsed chars text newline n (length ls) 0 first ls (omega arith)
        (lines_from-LinesFrom 0 n text (omega arith), lines_from-Shown chars newline 0 text)
        (omega arith, λ q h v. absurd (omega (arith, h))))
