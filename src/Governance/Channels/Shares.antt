-- ===== src/Governance/Channels/Shares.antt =====
-- The loop that shares the candidate budget among the channels, against what it should do: it ends,
-- it spends the budget as far as there are results, and no channel runs ahead of the others.
use flavor_rag.Prelude.{
  ℕ, zero, suc, ◌+◌, ◌<◌, ◌≡◌, refl, ap, ◌∙◌, List, [], ◌∷◌, map, some, String, ltb, if◌then◌else◌,
  arith, All, min, inl, inr, Bool-cases,
}
use flavor_rag.Governance.Channels.Defs.{Lane, sweep, share_loop, start_lane, share}
use flavor_rag.Governance.Channels.Lanes.{
  Level, Staggered, granted, supply, source, sweep-counted, sweep-source, sweep-added, sweep-Level,
  sweep-Staggered, sweep_exhausted, Level-Staggered, granted-le-Level, granted-le,
  granted_exhausted,
}

module _ {A : Type 0} where
  -- What the loop is to return, from lanes that stand level.
  record Shared (lanes : List (Lane A)) (budget : ℕ) (out : List (Lane A)) : Type 0 where
    rounds : ℕ
    fair : Staggered rounds out
    spent : granted out ≡ min (granted lanes + budget) (supply (map source lanes))
    same : map source out ≡ map source lanes

  share_loop_spent :
      (fuel rank : ℕ) (lanes : List (Lane A)) → 0 < fuel → share_loop fuel rank 0 lanes ≡ some lanes
  unfolding share_loop
  share_loop_spent zero rank lanes h = absurd (omega arith)
  share_loop_spent (suc fuel) rank lanes h = refl

  share_loop_next :
      (fuel rank remaining : ℕ) (lanes : List (Lane A))
      → 0 < remaining
      → let (next, left, added) = sweep rank remaining lanes in
        share_loop (suc fuel) rank remaining lanes
        ≡ (if added then share_loop fuel (suc rank) left next else some next)
  unfolding share_loop
  share_loop_next fuel rank remaining lanes h = ground arith

  -- One round further back, what the loop returns is shared still.
  Shared-sweep :
      (rank remaining : ℕ) (lanes out : List (Lane A))
      → let (next, left, added) = sweep rank remaining lanes in
        Shared next left out → Shared lanes remaining out
  Shared-sweep rank remaining lanes out s = record {
    rounds = s.rounds;
    fair = s.fair;
    spent = omega (
      arith,
      s.spent,
      sweep-counted rank remaining lanes,
      ap supply (sweep-source rank remaining lanes),
    );
    same = s.same ∙ sweep-source rank remaining lanes;
  }

  -- The round that spends the budget is the last.
  Shared-last :
      (rank remaining : ℕ) (lanes : List (Lane A))
      → All (Level rank) lanes
      → (sweep rank remaining lanes).1 ≡ 0
      → Shared lanes remaining (sweep rank remaining lanes).0
  Shared-last rank remaining lanes h e =
      let fair = sweep-Staggered rank remaining lanes h in
      record {
        rounds = rank;
        fair = fair;
        spent = omega (
          arith,
          e,
          sweep-counted rank remaining lanes,
          granted-le rank _ fair,
          ap supply (sweep-source rank remaining lanes),
        );
        same = sweep-source rank remaining lanes;
      }

  share_loop_lem :
      (fuel rank remaining : ℕ) (lanes : List (Lane A))
      → All (Level rank) lanes
      → remaining < fuel
      → (out : List (Lane A)) × (share_loop fuel rank remaining lanes ≡ some out)
        × Shared lanes remaining out
  share_loop_lem zero rank remaining lanes h k = absurd (omega arith)
  share_loop_lem (suc fuel) rank zero lanes h k = (
    lanes,
    share_loop_spent (suc fuel) rank lanes (omega arith),
    record {
      rounds = rank;
      fair = Level-Staggered rank lanes h;
      spent = omega (arith, granted-le-Level rank lanes h);
      same = refl;
    },
  )
  share_loop_lem (suc fuel) rank (suc rest) lanes h k =
      elim (Bool-cases (sweep rank (suc rest) lanes).2) [
        | inl e ↦
            let (next, left, added) = sweep rank (suc rest) lanes in
            let step = share_loop_next fuel rank (suc rest) lanes (omega arith) in
            let less = (sweep-added rank (suc rest) lanes).0 e in
            elim (Bool-cases (ltb 0 left)) [
              | inl positive ↦
                  let (out, ends, s) =
                    share_loop_lem fuel (suc rank) left next
                      (sweep-Level rank (suc rest) lanes h (ground arith)) (omega arith) in
                  (out, rw (step, e) ends, Shared-sweep rank (suc rest) lanes out s)
              | inr spent ↦
                  let none_left : left ≡ 0 = ground arith in
                  (
                    next,
                    rw (step, e, none_left) (share_loop_spent fuel (suc rank) next (omega arith)),
                    Shared-last rank (suc rest) lanes h none_left,
                  )
            ]
        | inr e ↦
            let (ends, same) = sweep_exhausted rank (suc rest) lanes (omega arith) e in
            (
              lanes,
              rw (share_loop_next fuel rank (suc rest) lanes (omega arith), e, same),
              record {
                rounds = rank;
                fair = Level-Staggered rank lanes h;
                spent = omega (arith, granted_exhausted rank lanes h ends);
                same = refl;
              },
            )
      ]

  start_lane-Level : (results : List (String × List A)) → All (Level 0) (map start_lane results)
  unfolding start_lane
  start_lane-Level [] = tt
  start_lane-Level (r ∷ results) = (refl, start_lane-Level results)

  granted-start_lane : (results : List (String × List A)) → granted (map start_lane results) ≡ 0
  unfolding start_lane
  granted-start_lane [] = refl
  granted-start_lane (r ∷ results) = omega (arith, granted-start_lane results)

  source-start_lane :
      (results : List (String × List A)) → map source (map start_lane results) ≡ results
  unfolding start_lane
  source-start_lane [] = refl
  source-start_lane (r ∷ results) = ap (◌∷◌ r) (source-start_lane results)

  -- The loop ends. It keeps every channel with its results and in its place; it grants as many results
  -- as the budget and the supply allow, no more and no less; and every channel gets its best results
  -- in order, where some channels in front may be one turn ahead of those behind them.
  pub share_lem :
      (max_candidates : ℕ) (results : List (String × List A))
      → (out : List (Lane A)) × (rounds : ℕ) × (share max_candidates results ≡ some out)
        × Staggered rounds out
        × (granted out ≡ min max_candidates (supply results))
        × (map source out ≡ results)
  unfolding share
  share_lem max_candidates results =
      let (out, ends, s) =
        share_loop_lem (suc max_candidates) 0 max_candidates (map start_lane results)
          (start_lane-Level results) (omega arith) in
      (
        out,
        s.rounds,
        ends,
        s.fair,
        omega (arith, s.spent, granted-start_lane results, ap supply (source-start_lane results)),
        s.same ∙ source-start_lane results,
      )
