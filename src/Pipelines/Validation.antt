-- ===== src/Pipelines/Validation.antt =====
-- Which pipelines `validate_pipeline_graph` accepts.
use flavor_rag.Pipelines.Chains.{Ends-lt, Ends, visit_all-Ranked, visit_all-accepts}
use flavor_rag.Prelude.Distinct.{Distinct, length-map}
use Prim.Native.Nat.{ℕ}
use flavor_rag.Pipelines.Nodes.{
  has_duplicates, first_fault, next_by_id, PipelineNode, Marks, is_dangling, next_of,
  validate_pipeline_graph, handler_names, node_ids, visit_all,
}
use flavor_rag.Prelude.{
  List, String, is_nil, ◌≡◌, in_list, All, length, false, none, some, [], ◌≤◌, Member, ◌∷◌, true,
  Bool-cases, All-of_Member, ◌↔◌, inl, inr, ◌==◌, in_list→Member, Option-cases, Member→in_list,
  refl, eq_iff, Sum-cases, arith, All-member, ◌<◌,
}

-- A chain of nodes for each node, as the code's messages ask for it.
pub record IsPipeline (nodes : List PipelineNode) : Type 0 where
  pub filled : is_nil nodes ≡ false
  pub differing : Distinct (node_ids nodes)
  pub supported : (n : PipelineNode) → Member n nodes → Member n.node_type handler_names
  pub linked :
      (n : PipelineNode) (k : String)
      → Member n nodes
      → next_of n ≡ some k
      → Member k (node_ids nodes)
  pub ends : (x : String) → Member x (node_ids nodes) → (k : ℕ) × Ends (next_by_id nodes) k x

has_duplicates-Distinct : (xs : List String) → has_duplicates xs ≡ false → Distinct xs
unfolding has_duplicates
has_duplicates-Distinct [] h = tt
has_duplicates-Distinct (x ∷ xs) h = elim (Bool-cases (in_list x xs)) [
  | inl e ↦ absurd (cc (rw e at h))
  | inr e ↦ (e, has_duplicates-Distinct xs (rw e at h))
]

Distinct-has_duplicates : (xs : List String) → Distinct xs → has_duplicates xs ≡ false
unfolding has_duplicates
Distinct-has_duplicates [] d = refl
Distinct-has_duplicates (x ∷ xs) d = rw d.0 (Distinct-has_duplicates xs d.1)

-- What the loop over the types and links finds out of a node.
abbrev Passes : List String → PipelineNode → Type 0
Passes known n = (in_list n.node_type handler_names ≡ true) × (is_dangling known n ≡ false)

first_fault-Passes :
    (known : List String) (nodes : List PipelineNode)
    → first_fault known nodes ≡ none
    → All (Passes known) nodes
unfolding first_fault
first_fault-Passes known [] h = tt
first_fault-Passes known (n ∷ nodes) h = elim (Bool-cases (in_list n.node_type handler_names)) [
  | inr e ↦ absurd (cc (rw e at h))
  | inl e ↦ elim (Bool-cases (is_dangling known n)) [
    | inl f ↦ absurd (cc (rw (e, f) at h))
    | inr f ↦ ((e, f), first_fault-Passes known nodes (rw (e, f) at h))
  ]
]

Passes-first_fault :
    (known : List String) (nodes : List PipelineNode)
    → All (Passes known) nodes
    → first_fault known nodes ≡ none
unfolding first_fault
Passes-first_fault known [] h = refl
Passes-first_fault known (n ∷ nodes) h = rw (h.0.0, h.0.1) (Passes-first_fault known nodes h.1)

-- An entry of `next_by_id` is the link of a node.
pub next_by_id→node :
    (nodes : List PipelineNode) (x k : String)
    → next_by_id nodes x ≡ some k
    → (n : PipelineNode) × Member n nodes × (n.node_id ≡ x) × (next_of n ≡ some k)
unfolding next_by_id
next_by_id→node [] x k h = absurd (cc)
next_by_id→node (n ∷ nodes) x k h = elim (Bool-cases (n.node_id == x)) [
  | inl e ↦ (n, inl refl, (eq_iff n.node_id x).0 e, rw e at h)
  | inr e ↦ let (m, i, p, q) = next_by_id→node nodes x k (rw e at h) in (m, inr i, p, q)
]

module _ (depth : ℕ) (nodes : List PipelineNode) where
  abbrev unmarked : Marks
  unmarked = record { visiting = []; visited = [] }

  is_dangling-linked :
      (n : PipelineNode) (k : String)
      → is_dangling (node_ids nodes) n ≡ false
      → next_of n ≡ some k
      → Member k (node_ids nodes)
  is_dangling-linked n k h e =
      in_list→Member k (node_ids nodes) (elim (Bool-cases (in_list k (node_ids nodes))) [
        | inl f ↦ f
        | inr f ↦ absurd (cc (rw (is_dangling, e, f) at h))
      ])

  linked-is_dangling :
      (n : PipelineNode)
      → ((k : String) → next_of n ≡ some k → Member k (node_ids nodes))
      → is_dangling (node_ids nodes) n ≡ false
  linked-is_dangling n h = elim (Option-cases (next_of n)) [
    | inl e ↦ rw (is_dangling, e) refl
    | inr (k, e) ↦ rw (is_dangling, e, Member→in_list k (node_ids nodes) (h k e)) refl
  ]

  pub accepted-IsPipeline : validate_pipeline_graph depth nodes ≡ none → IsPipeline nodes
  unfolding validate_pipeline_graph
  accepted-IsPipeline h = elim (Bool-cases (is_nil nodes)) [
    | inl e ↦ absurd (cc (rw e at h))
    | inr e ↦ elim (Bool-cases (has_duplicates (node_ids nodes))) [
      | inl f ↦ absurd (cc (rw (e, f) at h))
      | inr f ↦ elim (Option-cases (first_fault (node_ids nodes) nodes)) [
        | inr (err, g) ↦ absurd (cc (rw (e, f, g) at h))
        | inl g ↦ elim (Sum-cases (visit_all (next_by_id nodes) depth unmarked (node_ids nodes))) [
          | inl (err, s) ↦ absurd (cc (rw (e, f, g, s) at h))
          | inr (m, s) ↦
              let passes = first_fault-Passes (node_ids nodes) nodes g in
              let (ranked, kept, reached) =
                visit_all-Ranked (next_by_id nodes) depth unmarked m (node_ids nodes) s
                  (λ x i. absurd i) in
              record {
                filled = e;
                differing = has_duplicates-Distinct (node_ids nodes) f;
                supported = λ n i.
                    in_list→Member n.node_type handler_names (All-member _ nodes passes n i).0;
                linked = λ n k i q. is_dangling-linked n k (All-member _ nodes passes n i).1 q;
                ends = λ x i. ranked x (reached x i);
              }
        ]
      ]
    ]
  ]

  chain-short :
      length nodes ≤ depth
      → IsPipeline nodes
      → (x : String) → Member x (node_ids nodes)
      → (k : ℕ) × (k < depth) × Ends (next_by_id nodes) k x
  chain-short room p x i =
      let (k, ends) = p.ends x i in
      let lt =
        Ends-lt (next_by_id nodes) (node_ids nodes)
          (λ y z h. let (n, j, e, q) = next_by_id→node nodes y z h in p.linked n z j q) k x i
          ends in
      (k, omega (arith, lt, length-map (λ (n : PipelineNode). n.node_id) nodes, room), ends)

  IsPipeline-accepted :
      length nodes ≤ depth → IsPipeline nodes → validate_pipeline_graph depth nodes ≡ none
  unfolding validate_pipeline_graph
  IsPipeline-accepted room p =
      let ids = node_ids nodes in
      let passes : All (Passes ids) nodes = All-of_Member _ nodes (λ n i. (
        Member→in_list n.node_type handler_names (p.supported n i),
        linked-is_dangling n (λ k. p.linked n k i),
      )) in
      let (m, s) =
        visit_all-accepts (next_by_id nodes) depth unmarked ids refl (chain-short room p) in
      rw (p.filled, Distinct-has_duplicates ids p.differing, Passes-first_fault ids nodes passes, s)
        refl

-- With room on the interpreter's stack for a call for each node, the validation accepts the
-- pipelines with at least one node, different identifiers, known types, links to nodes of the
-- pipeline, and from each node a chain of links that ends; it accepts no other pipeline.
pub validate_pipeline_graph_lem :
    (depth : ℕ) (nodes : List PipelineNode)
    → length nodes ≤ depth
    → (validate_pipeline_graph depth nodes ≡ none) ↔ IsPipeline nodes
validate_pipeline_graph_lem depth nodes room =
    (accepted-IsPipeline depth nodes, IsPipeline-accepted depth nodes room)
