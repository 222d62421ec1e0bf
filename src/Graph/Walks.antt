-- ===== src/Graph/Walks.antt =====
-- What `expand_neighbors` finds: nodes on short walks from the source.
use flavor_rag.Prelude.Distinct.{Distinct, in_list-append, Distinct-append_last}
use flavor_rag.Prelude.{
  is_nil, ℕ, suc, zero, String, List, Bool, true, false, if◌then◌else◌, ◌&&◌, ◌||◌, ◌==◌, eq_iff,
  in_list, ◌+◌, ◌≤◌, ◌≡◌, ◌⊎◌, inl, inr, [], ◌∷◌, ◌++◌, length, length-take, map, any, take, All,
  All-append, All-map, All-take, arith, Bool-cases, refl, sym, ◌∙◌, ap, subst, ◌≢◌, append_nil,
  eq_refl,
}
use flavor_rag.Graph.Views.{Node, Edge, View}
use flavor_rag.Graph.Expansion.{
  Link, link, links_of, Search, is_full, node_of, take_link, is_fresh, take_links, take_frontier,
  search_depths, expand_neighbors,
}

in_list-take :
    (x : String) (n : ℕ) (xs : List String) → in_list x xs ≡ false → in_list x (take n xs) ≡ false
in_list-take x zero xs h = refl
in_list-take x (suc n) [] h = refl
in_list-take x (suc n) (y ∷ xs) h = ground (arith, in_list-take x n xs (ground arith))

Distinct-take :
    (n : ℕ) (xs : List Node)
    → Distinct (map (λ (k : Node). k.id) xs)
    → Distinct (map (λ (k : Node). k.id) (take n xs))
Distinct-take zero xs h = tt
Distinct-take (suc n) [] h = tt
Distinct-take (suc n) (x ∷ xs) h = (taken x n xs h.0, Distinct-take n xs h.1)
  where
    taken :
        (x : Node) (n : ℕ) (xs : List Node)
        → in_list x.id (map (λ (k : Node). k.id) xs) ≡ false
        → in_list x.id (map (λ (k : Node). k.id) (take n xs)) ≡ false
    taken x zero xs h = refl
    taken x (suc n) [] h = refl
    taken x (suc n) (y ∷ xs) h = ground (arith, taken x n xs (ground arith))

node_of-cases :
    (nid : String) (nodes : List Node)
    → (node_of nid nodes ≡ []) ⊎ ((n : Node) × (node_of nid nodes ≡ n ∷ []) × (n.id ≡ nid))
unfolding node_of
node_of-cases nid [] = inl refl
node_of-cases nid (n ∷ nodes) = elim (node_of-cases nid nodes) [
  | inr (k, e, q) ↦ inr (k, rw e refl, q)
  | inl e ↦ elim (Bool-cases (n.id == nid)) [
    | inl f ↦ inr (n, rw (e, f) refl, (eq_iff n.id nid).0 f)
    | inr f ↦ inl (rw (e, f) refl)
  ]
]

-- The edge leads from the one to the other, in either direction.
abbrev pub joins : String → String → Edge → Bool
joins a b e = (e.source == a) && (e.target == b) || (e.target == a) && (e.source == b)

links_of-joins :
    (current : String) (i : ℕ) (edges : List Edge)
    → All (λ (l : Link). any (joins current l.neighbor_id) edges ≡ true) (links_of current i edges)
unfolding links_of
links_of-joins current i [] = tt
links_of-joins current i (e ∷ edges) =
    let P = λ (l : Link). any (joins current l.neighbor_id) (e ∷ edges) ≡ true in
    let out = if e.source == current then link e.target e i ∷ [] else [] in
    let into = if e.target == current then link e.source e i ∷ [] else [] in
    let rest = links_of current (i + 1) edges in
    let later : All P rest =
      All-map _ P rest (λ l h. ground (arith, h)) (links_of-joins current (i + 1) edges) in
    All-append P out (into ++ rest) (outward (e.source == current) refl)
      (All-append P into rest (inward (e.target == current) refl) later)
  where
    outward :
        (b : Bool)
        → (e.source == current) ≡ b
        → All
            (λ (l : Link). any (joins current l.neighbor_id) (e ∷ edges) ≡ true)
            (if b then link e.target e i ∷ [] else [])
    outward false h = tt
    outward true h = (rw (h, eq_refl e.target) refl, tt)

    inward :
        (b : Bool)
        → (e.target == current) ≡ b
        → All
            (λ (l : Link). any (joins current l.neighbor_id) (e ∷ edges) ≡ true)
            (if b then link e.source e i ∷ [] else [])
    inward false h = tt
    inward true h = (ground (arith, h, eq_refl e.source), tt)

module _ (graph : View) (excluded : List String) (limit : ℕ) (start : String) where
  -- An edge leads from the one to the other, in either direction.
  abbrev pub Joined : String → String → Type 0
  Joined a b = any (joins a b) graph.edges ≡ true

  -- There is a walk of at most so many edges from the source, over nodes that are not excluded.
  abbrev pub Walk : ℕ → String → Type 0
  Walk zero x = x ≡ start
  Walk (suc k) x = Walk k x ⊎ ((a : String) × Walk k a × Joined a x × (in_list x excluded ≡ false))

  -- A node that the search may show.
  abbrev pub Shows : ℕ → Node → Type 0
  Shows k n = Walk k n.id × (n.id ≢ start) × (in_list n.id excluded ≡ false)

  abbrev ids : List Node → List String
  ids nodes = map (λ (n : Node). n.id) nodes

  -- Nodes that may be shown, all visited, none twice.
  abbrev Discovered : ℕ → List String → List Node → Type 0
  Discovered k visited nodes =
      All (Shows k) nodes
      × ((x : String) → in_list x (ids nodes) ≡ true → in_list x visited ≡ true)
      × Distinct (ids nodes)

  ids_last : (nodes : List Node) (n : Node) → ids (nodes ++ n ∷ []) ≡ ids nodes ++ n.id ∷ []
  ids_last [] n = refl
  ids_last (m ∷ nodes) n = ap (◌∷◌ m.id) (ids_last nodes n)

  Discovered-visit :
      (k : ℕ) (visited : List String) (nodes : List Node) (nid : String)
      → Discovered k visited nodes
      → Discovered k (visited ++ nid ∷ []) nodes
  Discovered-visit k visited nodes nid (shown, seen, distinct) =
      (shown, λ x h. in_list-append x visited (nid ∷ []) ∙ ground (arith, seen x h), distinct)

  Discovered-add :
      (k : ℕ) (visited : List String) (nodes : List Node) (n : Node)
      → in_list n.id visited ≡ false
      → Shows k n
      → Discovered k visited nodes
      → Discovered k (visited ++ n.id ∷ []) (nodes ++ n ∷ [])
  Discovered-add k visited nodes n new shows (shown, seen, distinct) = (
    All-append (Shows k) nodes (n ∷ []) shown (shows, tt),
    λ x h.
        let split : (in_list x (ids nodes) || in_list x (n.id ∷ [])) ≡ true =
          sym (in_list-append x (ids nodes) (n.id ∷ []))
          ∙ ap (in_list x) (sym (ids_last nodes n))
          ∙ h in
        in_list-append x visited (n.id ∷ []) ∙ ground (arith, seen x, split),
    rw (ids_last nodes n)
        (Distinct-append_last n.id (ids nodes) distinct (unseen (in_list n.id (ids nodes)) refl)),
  )
    where
      unseen : (b : Bool) → in_list n.id (ids nodes) ≡ b → in_list n.id (ids nodes) ≡ false
      unseen false e = e
      unseen true e = absurd (cc (sym new ∙ seen n.id e))

  Discovered-found :
      (k : ℕ) (visited : List String) (nodes : List Node) (nid : String)
      → in_list nid visited ≡ false
      → Walk k nid
      → nid ≢ start
      → in_list nid excluded ≡ false
      → Discovered k visited nodes
      → Discovered k (visited ++ nid ∷ []) (nodes ++ node_of nid graph.nodes)
  Discovered-found k visited nodes nid new w other out h = elim (node_of-cases nid graph.nodes) [
    | inl e ↦ rw (e, append_nil nodes) (Discovered-visit k visited nodes nid h)
    | inr (n, e, q) ↦ rw e (
        subst (λ i. Discovered k (visited ++ i ∷ []) (nodes ++ n ∷ [])) q
          (Discovered-add k visited nodes n (rw q new)
            (subst (λ i. Walk k i × (i ≢ start) × (in_list i excluded ≡ false)) (sym q)
              (w, other, out))
            h))
  ]

  -- The state while the nodes of depth `k` are looked at.
  abbrev Found : ℕ → Search → Type 0
  Found k s =
      (in_list start s.visited ≡ true)
      × All (Walk (suc k)) s.next_frontier
      × Discovered (suc k) s.visited s.discovered_nodes

  abbrev Leads : ℕ → Link → Type 0
  Leads k l = (a : String) × Walk k a × Joined a l.neighbor_id

  -- A link whose neighbour is not excluded leads to a node that may be shown.
  Leads-Walk :
      (k : ℕ) (l : Link)
      → Leads k l
      → in_list l.neighbor_id excluded ≡ false
      → Walk (suc k) l.neighbor_id
  Leads-Walk k l (a, w, j) out = inr (a, w, j, out)

  take_link-Found :
      (k : ℕ) (s : Search) (l : Link)
      → Leads k l
      → Found k s
      → Found k (take_link graph excluded limit s l)
  unfolding take_link
  take_link-Found k s l leads (here, front, discovered) =
      elim (Bool-cases (is_fresh graph excluded limit s l)) [
        | inr e ↦ rw e (here, front, discovered)
        | inl e ↦
            let new : in_list l.neighbor_id s.visited ≡ false = ground (arith, e) in
            let out : in_list l.neighbor_id excluded ≡ false = ground (arith, e) in
            let w = Leads-Walk k l leads out in
            rw e (
              rw (in_list-append start s.visited (l.neighbor_id ∷ [])) (ground (arith, here)),
              All-append (Walk (suc k)) s.next_frontier (l.neighbor_id ∷ []) front (w, tt),
              Discovered-found (suc k) s.visited s.discovered_nodes l.neighbor_id new w
                  (not_start new) out discovered,
            )
      ]
    where
      not_start : in_list l.neighbor_id s.visited ≡ false → l.neighbor_id ≢ start
      not_start new e = cc (sym new ∙ ap (λ i. in_list i s.visited) e ∙ here)

  take_links-Found :
      (k : ℕ) (s : Search) (links : List Link)
      → All (Leads k) links
      → Found k s
      → Found k (take_links graph excluded limit s links)
  unfolding take_links
  take_links-Found k s [] leads h = h
  take_links-Found k s (l ∷ links) leads h =
      let next = take_link graph excluded limit s l in
      let after = take_link-Found k s l leads.0 h in
      elim (Bool-cases (is_fresh graph excluded limit s l && is_full graph excluded limit next)) [
        | inl e ↦ rw (e, take_links) after
        | inr e ↦ rw (e, take_links) (take_links-Found k next links leads.1 after)
      ]

  take_frontier-Found :
      (k : ℕ) (s : Search) (frontier : List String)
      → All (Walk k) frontier
      → Found k s
      → Found k (take_frontier graph excluded limit s frontier)
  unfolding take_frontier
  take_frontier-Found k s [] walks h = h
  take_frontier-Found k s (current ∷ frontier) walks h =
      let links = links_of current 0 graph.edges in
      let next = take_links graph excluded limit s links in
      let leads : All (Leads k) links =
        All-map _ (Leads k) links (λ l j. (current, walks.0, j))
          (links_of-joins current 0 graph.edges) in
      let after = take_links-Found k s links leads h in
      elim (Bool-cases (is_full graph excluded limit next)) [
        | inl e ↦ rw (e, take_frontier) after
        | inr e ↦ rw (e, take_frontier) (take_frontier-Found k next frontier walks.1 after)
      ]

  -- Between two depths: the frontier is reached by walks of length `k`.
  abbrev Reached : ℕ → Search → Type 0
  Reached k s =
      (in_list start s.visited ≡ true)
      × All (Walk k) s.next_frontier
      × Discovered k s.visited s.discovered_nodes

  Shows-suc : (k : ℕ) (n : Node) → Shows k n → Shows (suc k) n
  Shows-suc k n (w, other, out) = (inl w, other, out)

  Reached-Found : (k : ℕ) (s : Search) → Reached k s → Found k (record s { next_frontier = [] })
  Reached-Found k s (here, front, (shown, seen, distinct)) = (
    here,
    tt,
    (All-map (Shows k) (Shows (suc k)) s.discovered_nodes (Shows-suc k) shown, seen, distinct),
  )

  -- What is shown at a depth may be shown at every larger one.
  Shows-more : (k d : ℕ) (nodes : List Node) → All (Shows k) nodes → All (Shows (d + k)) nodes
  Shows-more k zero nodes h = let same : zero + k ≡ k = omega arith in rw same h
  Shows-more k (suc d) nodes h =
      let next : suc d + k ≡ suc (d + k) = omega arith in
      rw next (
        All-map (Shows (d + k)) (Shows (suc (d + k))) nodes (Shows-suc (d + k))
          (Shows-more k d nodes h))

  search_depths-Discovered :
      (depth k : ℕ) (s : Search)
      → Reached k s
      → (visited : List String) × Discovered
          (depth + k)
          visited
          ((search_depths graph excluded limit depth s).discovered_nodes)
  unfolding search_depths
  search_depths-Discovered zero k s h =
      let same : zero + k ≡ k = omega arith in (s.visited, rw same h.2)
  search_depths-Discovered (suc depth) k s h =
      let next =
        take_frontier graph excluded limit (record s { next_frontier = [] }) s.next_frontier in
      let after =
        take_frontier-Found k (record s { next_frontier = [] }) s.next_frontier h.1
          (Reached-Found k s h) in
      let sum : suc depth + k ≡ depth + suc k = omega arith in
      elim (Bool-cases (is_nil s.next_frontier)) [
        | inl e ↦
            rw (e, search_depths)
              (s.visited, (Shows-more k (suc depth) s.discovered_nodes h.2.0, h.2.1, h.2.2))
        | inr e ↦ elim (Bool-cases (is_full graph excluded limit next)) [
          | inl f ↦
              let more = Shows-more (suc k) depth next.discovered_nodes after.2.0 in
              rw (e, f, search_depths, sum) (next.visited, (more, after.2.1, after.2.2))
          | inr f ↦
              rw (e, f, search_depths, sum) (search_depths-Discovered depth (suc k) next after)
        ]
      ]

  -- What `expand_neighbors` returns: nodes at the end of walks of at most `depth` edges from the source
  -- over nodes that are not excluded; never the source, nor an excluded node; no two nodes with one
  -- identifier; and at most `limit` nodes.
  pub expand_neighbors_lem :
      (depth : ℕ)
      → let shown = (expand_neighbors graph excluded limit start depth).nodes in
        All (Shows depth) shown × Distinct (map (λ (n : Node). n.id) shown) × (length shown ≤ limit)
  unfolding expand_neighbors
  expand_neighbors_lem depth =
      let first : Search = record {
        visited = start ∷ [];
        discovered_nodes = [];
        discovered_edges = [];
        seen_edges = [];
        next_frontier = start ∷ [];
      } in
      let visible : in_list start (start ∷ []) ≡ true = rw (eq_refl start) refl in
      let (visited, (shown, seen, distinct)) =
        search_depths-Discovered depth 0 first (visible, (refl, tt), (tt, λ x h. cc h, tt)) in
      let same : depth + 0 ≡ depth = omega arith in
      let nodes = (search_depths graph excluded limit depth first).discovered_nodes in
      elim (Bool-cases (in_list start (map (λ (n : Node). n.id) graph.nodes))) [
        | inr e ↦ rw e (tt, tt, omega arith)
        | inl e ↦ rw e (
          All-take (Shows depth) limit nodes (rw same at shown),
          Distinct-take limit nodes distinct,
          omega (arith, length-take limit nodes),
        )
      ]
