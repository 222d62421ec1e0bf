-- ===== src/Indexes/Consistency.antt =====
-- When the rows of the indexes are consistent, and changes of single rows that keep them so.
use flavor_rag.Prelude.{
  ℕ, String, List, [], ◌∷◌, Bool, true, false, some, inl, inr, ◌≡◌, if◌then◌else◌, ◌==◌, map,
  Member, Bool-cases, refl, sym, ◌∙◌, take, ap, subst,
}
use flavor_rag.Jobs.Store.{find?, update_where}
use flavor_rag.Indexes.Lifecycle.{
  Generation, active, failed, KbIndex, Indexes, set_expected, mark_failed,
}

-- The knowledge base serves the index of its active generation.
abbrev pub Serves : Generation → KbIndex → Type 0
Serves g k =
    (k.active_index_generation ≡ g.generation) × (k.active_collection_name ≡ g.collection_name)

-- Rows are told apart by their ids, and no knowledge base has two active generations,
-- and a base with an active generation serves its index.
pub record IsConsistent (s : Indexes) : Type 0 where
  pub apart :
      (g h : Generation) → Member g s.generations → Member h s.generations → g.id ≡ h.id → g ≡ h
  pub one_active :
      (g h : Generation)
      → Member g s.generations
      → Member h s.generations
      → g.status ≡ active
      → h.status ≡ active
      → g.kb_id ≡ h.kb_id
      → g.id ≡ h.id
  pub in_service :
      (g : Generation) (k : KbIndex)
      → Member g s.generations
      → Member k s.kbs
      → g.status ≡ active
      → k.id ≡ g.kb_id
      → Serves g k

-- The row that a change of the rows made of another one.
pub Member-map :
    {A B : Type 0} (f : A → B) (b : B) (xs : List A)
    → Member b (map f xs)
    → (a : A) × Member a xs × (b ≡ f a)
Member-map f b [] m = absurd m
Member-map f b (x ∷ xs) (inl e) = (x, inl refl, e)
Member-map f b (x ∷ xs) (inr m) = let (a, k, e) = Member-map f b xs m in (a, inr k, e)

pub update_where-map :
    {A : Type 0} (p : A → Bool) (f : A → A) (xs : List A)
    → update_where p f xs ≡ map (λ x. if p x then f x else x) xs
unfolding update_where
update_where-map p f [] = refl
update_where-map p f (x ∷ xs) = ap (◌∷◌ (if p x then f x else x)) (update_where-map p f xs)

-- A change of the rows that keeps ids, makes at most one generation of each base active, and leaves
-- each base with the index of that generation.
module _ (f : Generation → Generation) (s s' : Indexes) (e : s'.generations ≡ map f s.generations)
    (ids : (g : Generation) → (f g).id ≡ g.id)
    (one : (g h : Generation)
      → Member g s.generations
      → Member h s.generations
      → (f g).status ≡ active
      → (f h).status ≡ active
      → (f g).kb_id ≡ (f h).kb_id
      → g.id ≡ h.id)
    (serves : (g : Generation) (k : KbIndex)
      → Member g s.generations
      → Member k s'.kbs
      → (f g).status ≡ active
      → k.id ≡ (f g).kb_id
      → Serves (f g) k) where
  pub mapped-IsConsistent : IsConsistent s → IsConsistent s'
  mapped-IsConsistent c = record {
    apart = λ g h m n same.
        let (g0, gm, ge) = Member-map f g s.generations (rw e at m) in
        let (h0, hm, he) = Member-map f h s.generations (rw e at n) in
        let was : g0.id ≡ h0.id =
          sym (ids g0) ∙ ap (λ x. x.id) (sym ge) ∙ same ∙ ap (λ x. x.id) he ∙ ids h0 in
        ge ∙ ap f (c.apart g0 h0 gm hm was) ∙ sym he;
    one_active = λ g h m n ga ha same.
        let (g0, gm, ge) = Member-map f g s.generations (rw e at m) in
        let (h0, hm, he) = Member-map f h s.generations (rw e at n) in
        let was =
          one g0 h0 gm hm (rw ge at ga) (rw he at ha)
            (ap (λ x. x.kb_id) (sym ge) ∙ same ∙ ap (λ x. x.kb_id) he) in
        ap (λ x. x.id) ge ∙ ids g0 ∙ was ∙ sym (ids h0) ∙ ap (λ x. x.id) (sym he);
    in_service = λ g k m n ga of_kb.
        let (g0, gm, ge) = Member-map f g s.generations (rw e at m) in
        subst (λ x. Serves x k) (sym ge)
          (serves g0 k gm n (rw ge at ga) (of_kb ∙ ap (λ x. x.kb_id) ge));
  }

-- The row is the same but for its counts and messages, and not newly active.
pub record Keeps (g g' : Generation) : Type 0 where
  pub id : g'.id ≡ g.id
  pub kb_id : g'.kb_id ≡ g.kb_id
  pub generation : g'.generation ≡ g.generation
  pub collection : g'.collection_name ≡ g.collection_name
  pub status : g'.status ≡ active → g.status ≡ active

Keeps-if : (b : Bool) (g g' : Generation) → Keeps g g' → Keeps g (if b then g' else g)
Keeps-if true g g' k = k
Keeps-if false g g' k = record {
  id = refl;
  kb_id = refl;
  generation = refl;
  collection = refl;
  status = λ a. a;
}

pub kept-IsConsistent :
    (p : Generation → Bool) (f : Generation → Generation) (s : Indexes)
    → ((g : Generation) → Keeps g (f g))
    → IsConsistent s
    → IsConsistent (record s { generations = update_where p f s.generations })
kept-IsConsistent p f s keeps c =
    let k = λ (g : Generation). Keeps-if (p g) g (f g) (keeps g) in
    mapped-IsConsistent (λ g. if p g then f g else g) s
      (record s { generations = update_where p f s.generations })
      (update_where-map p f s.generations) (λ g. (k g).id)
      (λ g h m n ga ha same.
        c.one_active g h m n ((k g).status ga) ((k h).status ha)
          (sym (k g).kb_id ∙ same ∙ (k h).kb_id))
      (λ g kb m n ga of_kb.
        let (a, b) = c.in_service g kb m n ((k g).status ga) (of_kb ∙ (k g).kb_id) in
        (a ∙ sym (k g).generation, b ∙ sym (k g).collection))
      c

pub set_expected-IsConsistent :
    (id : String) (n : ℕ) (s : Indexes) → IsConsistent s → IsConsistent (set_expected id n s)
unfolding set_expected
set_expected-IsConsistent id n s c =
    kept-IsConsistent (λ g. g.id == id) (λ g. record g { expected_chunks = n }) s
      (λ g. record {
        id = refl;
        kb_id = refl;
        generation = refl;
        collection = refl;
        status = λ a. a;
      })
      c

pub mark_failed-IsConsistent :
    (id : String) (error : List ℕ) (s : Indexes)
    → IsConsistent s
    → IsConsistent (mark_failed id error s)
unfolding mark_failed
mark_failed-IsConsistent id error s c =
    kept-IsConsistent (λ g. g.id == id)
      (λ g. record g { status = failed; error_message = take 2000 error }) s
      (λ g. record {
        id = refl;
        kb_id = refl;
        generation = refl;
        collection = refl;
        status = λ a. absurd (cc a);
      })
      c

pub find?-lem :
    {A : Type 0} (p : A → Bool) (xs : List A) (x : A)
    → find? p xs ≡ some x
    → Member x xs × (p x ≡ true)
unfolding find?
find?-lem p [] x h = absurd (cc h)
find?-lem p (y ∷ xs) x h = elim (Bool-cases (p y)) [
  | inl e ↦
      let same : some y ≡ some x = rw e at h in
      let q : y ≡ x = cc same in (inl (sym q), subst (λ z. p z ≡ true) q e)
  | inr e ↦ let (m, q) = find?-lem p xs x (rw e at h) in (inr m, q)
]
