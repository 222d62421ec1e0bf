-- ===== src/Pipelines/Visits.antt =====
-- The invariant of the loop of `_run`.
use flavor_rag.Pipelines.Engine.{find_node, incoming, RunState}
use flavor_rag.Pipelines.Retries.{NodeResult, is_error}
use flavor_rag.Prelude.Distinct.{Distinct, Distinct-le, length-map}
use flavor_rag.Prelude.{
  Bool, List, any, String, ◌++◌, Member, ◌≡◌, eqb, [], inl, ◌||◌, true, ◌∷◌, inr, some, eq_refl,
  arith, ◌⊎◌, Member-append_left, Bool-cases, ap, map, ℕ, length, refl, ◌==◌, ◌+◌, ◌≤◌, eq_iff, ◌-◌,
  false, sym, Member→in_list,
}
use flavor_rag.Pipelines.Nodes.{next_by_id, PipelineNode, node_ids, next_of}
use flavor_rag.Jobs.Store.{find?}

-- An entry that `find?` gives.
pub find_node_lem :
    (nodes : List PipelineNode) (k : String)
    → Member k (node_ids nodes)
    → (n : PipelineNode) × (find_node nodes k ≡ some n)
      × Member n nodes
      × (n.node_id ≡ k)
      × (next_by_id nodes k ≡ next_of n)
unfolding find? next_by_id
find_node_lem [] k m = absurd m
find_node_lem (n ∷ nodes) k m = elim (Bool-cases (n.node_id == k)) [
  | inl e ↦ (n, rw e refl, inl refl, (eq_iff n.node_id k).0 e, rw e refl)
  | inr e ↦
      let later : Member k (node_ids nodes) = elim m [
        | inl f ↦ absurd (cc ((eq_iff n.node_id k).1 (sym f)))
        | inr i ↦ i
      ] in
      let (o, f, i, p, q) = find_node_lem nodes k later in (o, rw e f, inr i, p, rw e q)
]

pub node→next_by_id :
    (nodes : List PipelineNode) (n : PipelineNode)
    → Distinct (node_ids nodes)
    → Member n nodes
    → next_by_id nodes n.node_id ≡ next_of n
unfolding next_by_id
node→next_by_id [] n d m = absurd m
node→next_by_id (o ∷ nodes) n d (inl e) = rw (e, eq_refl o.node_id) refl
node→next_by_id (o ∷ nodes) n d (inr m) = elim (Bool-cases (o.node_id == n.node_id)) [
  | inl e ↦
      let same = (eq_iff o.node_id n.node_id).0 e in
      absurd (cc (Member→in_list o.node_id (node_ids nodes) (rw same (member_id n nodes m)), d.0))
  | inr e ↦ rw e (node→next_by_id nodes n d.1 m)
]
  where
    member_id :
        (n : PipelineNode) (nodes : List PipelineNode)
        → Member n nodes
        → Member n.node_id (node_ids nodes)
    member_id n [] m = absurd m
    member_id n (o ∷ nodes) (inl e) = inl (ap (λ (k : PipelineNode). k.node_id) e)
    member_id n (o ∷ nodes) (inr m) = inr (member_id n nodes m)

pub any-append :
    {A : Type 0} (p : A → Bool) (xs ys : List A) → any p (xs ++ ys) ≡ (any p xs || any p ys)
any-append p [] ys = refl
any-append p (x ∷ xs) ys = ground (arith, any-append p xs ys)

module _ (nodes : List PipelineNode) where
  abbrev pub is_root : String → Bool
  is_root x = eqb (incoming nodes x) 0

  -- No node leads to `x`, or one of the nodes `before` does.
  abbrev pub Source : List String → String → Type 0
  Source before x =
      (is_root x ≡ true) ⊎ ((y : String) × Member y before × (next_by_id nodes y ≡ some x))

  -- Nodes in an order in which each has a source before it.
  pub data Follows : List String → Type 0 where
    none_ran : Follows []
    then_ran :
        (xs : List String) (x : String) (ys : List String)
        → Follows xs
        → Source xs x
        → ys ≡ xs ++ x ∷ []
        → Follows ys

  -- What holds of the nodes that have run.
  pub record Ran {C : Type 0} (p : RunState C) : Type 0 where
    pub differing : Distinct p.visited
    pub within : (x : String) → Member x p.visited → Member x (node_ids nodes)
    pub follows : Follows p.visited
    pub results : map (λ (r : NodeResult). r.node_id) p.node_results ≡ p.visited
    pub errors : any is_error p.node_results ≡ p.failed
    pub quiet : p.failed ≡ false → p.final_error ≡ []

  -- What holds of the queue.
  pub record Queued {C : Type 0} (p : RunState C) : Type 0 where
    pub sources : (x : String) → Member x p.queue → Member x (node_ids nodes) × Source p.visited x
    pub roots :
        (x : String)
        → Member x (node_ids nodes)
        → is_root x ≡ true
        → Member x p.visited ⊎ Member x p.queue
    pub followed :
        (x y : String)
        → Member x p.visited
        → next_by_id nodes x ≡ some y
        → Member y p.visited ⊎ Member y p.queue

  -- How many rounds are left.
  abbrev pub work : {C : Type 0} → RunState C → ℕ
  work p = length p.queue + (length nodes - length p.visited)

  pub Source-mono : (xs ys : List String) (x : String) → Source xs x → Source (xs ++ ys) x
  Source-mono xs ys x (inl e) = inl e
  Source-mono xs ys x (inr (y, m, e)) = inr (y, Member-append_left y xs ys m, e)

  pub Ran-room : {C : Type 0} (p : RunState C) → Ran p → length p.visited ≤ length nodes
  Ran-room p r = omega (
    arith,
    Distinct-le p.visited (node_ids nodes) r.differing r.within,
    length-map (λ (n : PipelineNode). n.node_id) nodes,
  )
