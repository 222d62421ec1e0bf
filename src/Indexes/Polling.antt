-- ===== src/Indexes/Polling.antt =====
-- `IndexBuildWorker._loop`. Whether the lock of a generation is granted is an argument of each round.
-- The rows stand in the order of their creation.
use flavor_rag.Indexes.Consistency.{find?-lem}
use flavor_rag.Jobs.Store.{find?}
use Prim.Native.Nat.{ℕ}
use flavor_rag.Prelude.{
  Bool, true, Option, List, false, ◌&&◌, ◌∷◌, Member, ◌≡◌, not, if◌then◌else◌, some, ◌==◌, ◌+◌,
  Bool-cases, truthy, inl, [], inr, eq_iff, none, eq_refl, arith, refl, ap, sym,
}
use flavor_rag.Indexes.Lifecycle.{
  GenerationStatus, building, Indexes, Backend, build_and_promote, Generation, KbIndex, no_row,
}

abbrev pub is_building : GenerationStatus → Bool
is_building building = true
is_building _ = false

unfoldable pub next_generation : Indexes → Option Generation
unfolding find?
next_generation s = find? (λ (g : Generation). is_building g.status && not g.deleted) s.generations

-- A round of the loop: the time, and whether the lock is granted.
pub record Poll : Type 0 where
  pub now : ℕ
  pub granted : Bool

-- The identifier belongs to one row.
abbrev pub IsAlone : Generation → Indexes → Type 0
IsAlone g s = (h : Generation) → Member h s.generations → h.id ≡ g.id → h ≡ g

module _ (backend : Backend) where
  -- The store behind a round, and whether the round ends with the pause of `poll_interval_sec`. An
  -- exception of the build is caught.
  unfoldable pub poll : Poll → Indexes → Indexes × Bool
  unfolding build_and_promote
  poll p s = elim (next_generation s) [
    | none ↦ (s, true)
    | some g ↦
        if truthy g.id
        then (if p.granted then (build_and_promote backend p.now g.id s).0 else s, false)
        else (s, true)
  ]

  -- Several rounds, and the number of pauses.
  unfoldable pub run_polls : List Poll → Indexes → Indexes × ℕ
  unfolding poll
  run_polls [] s = (s, 0)
  run_polls (p ∷ polls) s =
      let (t, pauses) = poll p s in
      let (u, more) = run_polls polls t in (u, (if pauses then 1 else 0) + more)

  find?-of :
      (g : Generation) (gs : List Generation)
      → Member g gs
      → g.deleted ≡ false
      → ((h : Generation) → Member h gs → h.id ≡ g.id → h ≡ g)
      → find? (λ (h : Generation). h.id == g.id && not h.deleted) gs ≡ some g
  unfolding find?
  find?-of g [] m live alone = absurd m
  find?-of g (h ∷ gs) m live alone = elim (Bool-cases (h.id == g.id)) [
    | inl e ↦ rw (alone h (inl refl) ((eq_iff h.id g.id).0 e), eq_refl g.id, live) refl
    | inr e ↦ elim m [
      | inl f ↦ absurd (cc ((eq_iff h.id g.id).1 (ap (λ (k : Generation). k.id) (sym f))))
      | inr n ↦ rw e (find?-of g gs n live (λ k i. alone k (inr i)))
    ]
  ]

  orphan_build :
      (now : ℕ) (s : Indexes) (g : Generation)
      → find? (λ (h : Generation). h.id == g.id && not h.deleted) s.generations ≡ some g
      → find? (λ (k : KbIndex). k.id == g.kb_id && not k.deleted) s.kbs ≡ none
      → build_and_promote backend now g.id s ≡ (s, some no_row)
  unfolding build_and_promote
  orphan_build now s g row orphan = rw (row, build_and_promote, orphan) refl

  orphan_poll :
      (p : Poll) (s : Indexes) (g : Generation)
      → next_generation s ≡ some g
      → truthy g.id ≡ true
      → IsAlone g s
      → find? (λ (k : KbIndex). k.id == g.kb_id && not k.deleted) s.kbs ≡ none
      → poll p s ≡ (s, false)
  unfolding poll
  orphan_poll p s g next named alone orphan =
      let (m, test) =
        find?-lem (λ (h : Generation). is_building h.status && not h.deleted) s.generations g
          (unfold next_generation in next) in
      let built = orphan_build p.now s g (find?-of g s.generations m (ground arith) alone) orphan in
      elim (Bool-cases p.granted) [
        | inl e ↦ rw (next, poll, named, e, built) refl
        | inr e ↦ rw (next, poll, named, e) refl
      ]

-- When the knowledge base of the oldest generation that is being built has been deleted, the worker
-- makes no progress and no pause: after any number of rounds, whoever has the lock, the store is as it
-- was, and no round has slept.
pub run_polls_orphan :
    (backend : Backend) (polls : List Poll) (s : Indexes) (g : Generation)
    → next_generation s ≡ some g
    → truthy g.id ≡ true
    → IsAlone g s
    → find? (λ (k : KbIndex). k.id == g.kb_id && not k.deleted) s.kbs ≡ none
    → run_polls backend polls s ≡ (s, 0)
unfolding run_polls
run_polls_orphan backend [] s g next named alone orphan = refl
run_polls_orphan backend (p ∷ polls) s g next named alone orphan =
    rw
      (
        orphan_poll backend p s g next named alone orphan,
        run_polls_orphan backend polls s g next named alone orphan,
      )
      refl
