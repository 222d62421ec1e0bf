-- ===== src/Chunker/Structure/Segments.antt =====
-- The blocks before the blank regions between them are merged: in order, and with all that is visible.
use flavor_rag.Prelude.{
  is_nil, ℕ, List, some, true, false, ◌||◌, ltb, ◌-◌, ◌≤◌, ◌<◌, ◌≡◌, ◌⊎◌, inl, inr, [], ◌∷◌, ◌++◌,
  length, get_elem?, All, arith, Bool-cases, refl, sym, ◌∙◌, subst,
}
use flavor_rag.Chunker.Chars.{CharTests, is_blank}
use flavor_rag.Chunker.Structure.Lines.{
  Line, lines_from, trim_right, is_code_fence, is_heading, is_atomic_image, is_atomic_link,
}
use flavor_rag.Chunker.Structure.Blocks.{
  Block, BlockKind, block, heading, code, atomic, para, Mode, outside, in_fence, in_para, Segmenter,
  close_para, extend_para, read_line, segment_line, segment_lines, flush,
}
use flavor_rag.Chunker.Structure.Scanning.{LinesFrom, Shown, lines_from-LinesFrom, lines_from-Shown}

-- The blocks stand in order between the positions, and none of them is empty.
abbrev pub Chain : ℕ → ℕ → List Block → Type 0
Chain a b [] = a ≤ b
Chain a b (x ∷ xs) = (a ≤ x.start) × (x.start < x.end) × Chain x.end b xs

-- The position is in one of the blocks.
abbrev pub InBlocks : ℕ → List Block → Type 0
InBlocks q [] = ⊥
InBlocks q (x ∷ xs) = ((x.start ≤ q) × (q < x.end)) ⊎ InBlocks q xs

pub Chain-push :
    (a s e : ℕ) (k : BlockKind) (bs : List Block)
    → Chain a s bs
    → s < e
    → Chain a e (bs ++ block k s e ∷ [])
Chain-push a s e k [] h lt = (h, lt, omega arith)
Chain-push a s e k (b ∷ bs) (x, y, h) lt = (x, y, Chain-push b.end s e k bs h lt)

pub Chain-le : (a b c : ℕ) (bs : List Block) → Chain a b bs → b ≤ c → Chain a c bs
Chain-le a b c [] h le = omega (arith, h)
Chain-le a b c (x ∷ bs) (y, z, h) le = (y, z, Chain-le x.end b c bs h le)

InBlocks-left : (q : ℕ) (bs cs : List Block) → InBlocks q bs → InBlocks q (bs ++ cs)
InBlocks-left q [] cs h = absurd h
InBlocks-left q (b ∷ bs) cs (inl h) = inl h
InBlocks-left q (b ∷ bs) cs (inr h) = inr (InBlocks-left q bs cs h)

InBlocks-last :
    (q s e : ℕ) (k : BlockKind) (bs : List Block)
    → s ≤ q
    → q < e
    → InBlocks q (bs ++ block k s e ∷ [])
InBlocks-last q s e k [] h lt = inl (h, lt)
InBlocks-last q s e k (b ∷ bs) h lt = inr (InBlocks-last q s e k bs h lt)

module _ (chars : CharTests) (text : List ℕ) where
  -- At the position is a character that is not whitespace.
  abbrev pub Visible : ℕ → Type 0
  Visible q = (c : ℕ) × (get_elem? text q ≡ some c) × (chars.isspace c ≡ false)

  -- The blocks stand in order before the position, and all that is visible there is in them.
  abbrev pub Full : ℕ → List Block → Type 0
  Full p bs = Chain 0 p bs × ((q : ℕ) → q < p → Visible q → InBlocks q bs)

  pub Full-push :
      (s e : ℕ) (k : BlockKind) (bs : List Block)
      → Full s bs
      → s < e
      → Full e (bs ++ block k s e ∷ [])
  Full-push s e k bs (chain, cover) lt = (
    Chain-push 0 s e k bs chain lt,
    λ q h v. elim (Bool-cases (ltb q s)) [
      | inl before ↦ InBlocks-left q bs (block k s e ∷ []) (cover q (ground arith) v)
      | inr behind ↦ InBlocks-last q s e k bs (ground arith) h
    ],
  )

  pub Full-skip :
      (p e : ℕ) (bs : List Block)
      → Full p bs
      → p ≤ e
      → ((q : ℕ) → p ≤ q → q < e → Visible q → ⊥)
      → Full e bs
  Full-skip p e bs (chain, cover) le none_there = (
    Chain-le 0 p e bs chain le,
    λ q h v. elim (Bool-cases (ltb q p)) [
      | inl before ↦ cover q (ground arith) v
      | inr behind ↦ absurd (none_there q (ground arith) h v)
    ],
  )

  -- The state of the loop at a position.
  abbrev Scanned : ℕ → Segmenter → Type 0
  Scanned p st = elim st.mode [
    | outside ↦ Full p st.blocks
    | in_fence s ↦ Full s st.blocks × (s < p)
    | in_para s ↦ Full s st.blocks × (s < p)
  ]

  abbrev Reading : ℕ → Segmenter → Type 0
  Reading p st = elim st.mode [
    | outside ↦ Full p st.blocks
    | in_fence s ↦ ⊥
    | in_para s ↦ Full s st.blocks × (s < p)
  ]

  closed-Full :
      (p : ℕ) (bs : List Block) (m : Mode)
      → Reading p (record { blocks = bs; mode = m })
      → Full p (close_para (record { blocks = bs; mode = m }) p)
  closed-Full p bs outside h = h
  closed-Full p bs (in_fence s) h = absurd h
  closed-Full p bs (in_para s) (full, lt) = Full-push s p para bs full lt

  extended-Scanned :
      (p e : ℕ) (bs : List Block) (m : Mode)
      → p < e
      → Reading p (record { blocks = bs; mode = m })
      → Scanned e (record { blocks = bs; mode = extend_para m p })
  extended-Scanned p e bs outside lt h = (h, lt)
  extended-Scanned p e bs (in_fence s) lt h = absurd h
  extended-Scanned p e bs (in_para s) lt (full, before) = (full, omega arith)

  trimmed-blank : (s : List ℕ) → is_nil (trim_right chars s) ≡ true → is_blank chars s ≡ true
  unfolding trim_right
  trimmed-blank [] h = refl
  trimmed-blank (c ∷ cs) h = ground (arith, trimmed-blank cs)

  module _ (newline : chars.isspace 10 ≡ true) where
    -- Nothing is visible in a line that is trimmed to nothing.
    pub trimmed-Visible :
        (l : Line)
        → Shown chars newline 0 text l
        → is_nil (trim_right chars l.content) ≡ true
        → (q : ℕ) → l.start ≤ q
        → q < l.next
        → Visible q
        → ⊥
    trimmed-Visible l shown h q a b (c, at, visible) =
        let n : q - 0 ≡ q = omega arith in
        cc (sym (trimmed-blank l.content h) ∙ shown q c a b (rw n at) visible)

    read_line-Scanned :
        (bs : List Block) (m : Mode) (l : Line)
        → l.start < l.next
        → Shown chars newline 0 text l
        → Reading l.start (record { blocks = bs; mode = m })
        → Scanned l.next (read_line chars (record { blocks = bs; mode = m }) l)
    unfolding read_line
    read_line-Scanned bs m l lt shown h =
        let p = l.start in
        let closed = closed-Full p bs m h in
        let before = close_para (record { blocks = bs; mode = m }) p in
        let trimmed = trim_right chars l.content in
        elim (Bool-cases (is_code_fence chars trimmed)) [
          | inl f ↦ rw f (closed, lt)
          | inr f ↦ elim (Bool-cases (is_nil trimmed)) [
            | inl g ↦
                rw (f, g)
                  (Full-skip p l.next before closed (omega arith) (trimmed-Visible l shown g))
            | inr g ↦ elim (Bool-cases (is_heading chars trimmed)) [
              | inl i ↦ rw (f, g, i) (Full-push p l.next heading before closed lt)
              | inr i ↦
                  elim (Bool-cases
                    (is_atomic_image chars trimmed || is_atomic_link chars trimmed)) [
                      | inl j ↦ rw (f, g, i, j) (Full-push p l.next atomic before closed lt)
                      | inr j ↦ rw (f, g, i, j) (extended-Scanned p l.next bs m lt h)
                    ]
            ]
          ]
        ]

    segment_line-Scanned :
        (bs : List Block) (m : Mode) (l : Line)
        → l.start < l.next
        → Shown chars newline 0 text l
        → Scanned l.start (record { blocks = bs; mode = m })
        → Scanned l.next (segment_line chars (record { blocks = bs; mode = m }) l)
    unfolding segment_line
    segment_line-Scanned bs outside l lt shown h = read_line-Scanned bs outside l lt shown h
    segment_line-Scanned bs (in_para s) l lt shown h = read_line-Scanned bs (in_para s) l lt shown h
    segment_line-Scanned bs (in_fence s) l lt shown (full, before) =
        elim (Bool-cases (is_code_fence chars (trim_right chars l.content))) [
          | inl f ↦ rw f (Full-push s l.next code bs full (omega (arith, before, lt)))
          | inr f ↦ rw f (full, omega (arith, before, lt))
        ]

    segment_lines-Scanned :
        (p n : ℕ) (ls : List Line) (st : Segmenter)
        → LinesFrom p n ls
        → All (Shown chars newline 0 text) ls
        → Scanned p st
        → Scanned n (segment_lines chars st ls)
    unfolding segment_lines
    segment_lines-Scanned p n [] st e shown h = subst (λ k. Scanned k st) e h
    segment_lines-Scanned p n (l ∷ ls) st (e, lt, rest) (shown, more) h =
        segment_lines-Scanned l.next n ls (segment_line chars st l) rest more (
          segment_line-Scanned st.blocks st.mode l (subst (λ k. k < l.next) (sym e) lt) shown
            (subst (λ k. Scanned k st) (sym e) h))

    flush-Full :
        (n : ℕ) (bs : List Block) (m : Mode)
        → Scanned n (record { blocks = bs; mode = m })
        → Full n (flush chars (record { blocks = bs; mode = m }) n)
    flush-Full n bs outside h = h
    flush-Full n bs (in_fence s) (full, lt) = Full-push s n code bs full lt
    flush-Full n bs (in_para s) (full, lt) = Full-push s n para bs full lt

    -- The blocks that the scan of the lines finds stand in order in the text, none is empty, and every
    -- character that is not whitespace is in one of them.
    pub segment_lines_lem : Full (length text) (
        flush chars
          (segment_lines chars (record { blocks = []; mode = outside }) (lines_from 0 text))
          (length text))
    segment_lines_lem =
        let st = segment_lines chars (record { blocks = []; mode = outside }) (lines_from 0 text) in
        flush-Full (length text) st.blocks st.mode (
          segment_lines-Scanned 0 (length text) (lines_from 0 text)
            (record { blocks = []; mode = outside })
            (lines_from-LinesFrom 0 (length text) text (omega arith))
            (lines_from-Shown chars newline 0 text)
            (omega arith, λ q h v. absurd (omega (arith, h))))
