-- ===== src/Index/Hnsw/Graph/Removes.antt =====
-- `remove` of graph.rs on the map from ids to vectors.

use embeddb.Base.{
  ℕ, ◌≡◌, refl, ap, sym, ◌∙◌, Bool, true, false, Option, none, some, List, [], ◌∷◌, ◌==◌,
  if◌then◌else◌, ◌⊎◌, inl, inr, Bool-cases, Option-cases, arith, ==_iff, ==_refl,
}
use embeddb.Base.Assoc.{nat_key, lookup, lookup-remove}
use embeddb.Base.Assoc.{remove as assoc_remove}
use embeddb.Index.{vector_not_found}
use embeddb.Index.Hnsw.Run.{done, failed}
use embeddb.Index.Hnsw.Node.{HnswNode}
use embeddb.Index.Hnsw.Graph.{HnswGraph, unlink, up_to, first_key, is_entry, without_node, remove}
use embeddb.Index.Hnsw.Graph.View.{vector_in, vector_at, WellFormed, unlink-vector}

some-eq : (k e : ℕ) → some k ≡ some e → k ≡ e
some-eq k e h = cc

is_entry-some : (o : Option ℕ) (id e : ℕ) → o ≡ some e → is_entry o id ≡ (e == id)
is_entry-some none id e h = cc
is_entry-some (some k) id e h = rw (some-eq k e h) refl

module _ {F : Type 0} where
  without-vector :
      (nodes : List (ℕ × HnswNode F)) (id j : ℕ)
      → vector_in (assoc_remove id nodes) j ≡ (if id == j then none else vector_in nodes j)
  without-vector nodes id j =
      rw (lookup-remove id j nodes)
        (elim (Bool-cases (id == j)) [ inl here ↦ rw here refl | inr there ↦ rw there refl ])

  kept : HnswGraph F → ℕ → HnswNode F → List (ℕ × HnswNode F)
  kept g id node = assoc_remove id (unlink id node (up_to node.max_layer) g.nodes)

  kept-vector :
      (g : HnswGraph F) (id : ℕ) (node : HnswNode F) (j : ℕ)
      → vector_in (kept g id node) j ≡ (if id == j then none else vector_at g j)
  unfolding kept
  kept-vector g id node j =
      without-vector (unlink id node (up_to node.max_layer) g.nodes) id j
      ∙ ap (λ o. if id == j then none else o)
          (unlink-vector id node (up_to node.max_layer) g.nodes j)

  without_node-vector :
      (g : HnswGraph F) (id j : ℕ) (nodes : List (ℕ × HnswNode F))
      → (vector_at (without_node g id nodes) j ≡ vector_in nodes j)
        × ((without_node g id nodes).dimension ≡ g.dimension)
  without_node-vector g id j nodes = elim (Bool-cases (is_entry g.entry_point id)) [
    | inl entry ↦ rw entry (refl, refl)
    | inr other ↦ rw other (refl, refl)
  ]

  first_key-entry :
      (nodes : List (ℕ × HnswNode F)) (e : ℕ)
      → first_key nodes ≡ some e
      → (v : List F) × (vector_in nodes e ≡ some v)
  unfolding lookup
  first_key-entry [] e h = cc
  first_key-entry ((k, n) ∷ rest) e h = (n.vector, rw (sym (some-eq k e h), ==_refl k) refl)

  first_key-empty :
      (nodes : List (ℕ × HnswNode F)) (j : ℕ) → first_key nodes ≡ none → vector_in nodes j ≡ none
  unfolding lookup
  first_key-empty [] j h = refl
  first_key-empty ((k, n) ∷ rest) j h = cc

  without_node-entry :
      (g : HnswGraph F) (id : ℕ) (nodes : List (ℕ × HnswNode F))
      → WellFormed g
      → ((j : ℕ) → vector_in nodes j ≡ (if id == j then none else vector_at g j))
      → (e : ℕ) → (without_node g id nodes).entry_point ≡ some e
      → (v : List F) × (vector_in nodes e ≡ some v)
  without_node-entry g id nodes wf view e h = elim (Bool-cases (is_entry g.entry_point id)) [
    | inl entry ↦ first_key-entry nodes e (rw entry at h)
    | inr other ↦
        let old : g.entry_point ≡ some e = rw other at h in
        let (v, found) = wf.entry e old in (v, view e ∙ rw (differs old other) found)
  ]
    where
      differs : g.entry_point ≡ some e → is_entry g.entry_point id ≡ false → (id == e) ≡ false
      differs old other =
          grind (arith, is_entry-some g.entry_point id e old, other, ==_iff id e, ==_iff e id)

  without_node-empty :
      (g : HnswGraph F) (id : ℕ) (nodes : List (ℕ × HnswNode F))
      → WellFormed g
      → ((j : ℕ) → vector_in nodes j ≡ (if id == j then none else vector_at g j))
      → (without_node g id nodes).entry_point ≡ none
      → (j : ℕ) → vector_in nodes j ≡ none
  without_node-empty g id nodes wf view h j = elim (Bool-cases (is_entry g.entry_point id)) [
    | inl entry ↦ first_key-empty nodes j (rw entry at h)
    | inr other ↦ view j ∙ rw (wf.empty (rw other at h) j) (same (id == j))
  ]
    where
      same : (b : Bool) → ◌≡◌ {A = Option (List F)} (if b then none else none) none
      same true = refl
      same false = refl

  without_node-WellFormed :
      (g : HnswGraph F) (id : ℕ) (nodes : List (ℕ × HnswNode F))
      → WellFormed g
      → ((j : ℕ) → vector_in nodes j ≡ (if id == j then none else vector_at g j))
      → WellFormed (without_node g id nodes)
  without_node-WellFormed g id nodes wf view = record {
    entry = λ e h.
        let (v, found) = without_node-entry g id nodes wf view e h in
        (v, (without_node-vector g id e nodes).0 ∙ found);
    empty = λ h j. (without_node-vector g id j nodes).0 ∙ without_node-empty g id nodes wf view h j;
    dimensions = λ j v h.
        wf.dimensions j v
          (present j v (sym (view j) ∙ sym (without_node-vector g id j nodes).0 ∙ h))
        ∙ sym (without_node-vector g id j nodes).1;
  }
    where
      present :
          (j : ℕ) (v : List F)
          → (if id == j then none else vector_at g j) ≡ some v
          → vector_at g j ≡ some v
      present j v h = elim (Bool-cases (id == j)) [
        | inl same ↦ cc (rw same at h)
        | inr other ↦ rw other at h
      ]

  -- `remove` of a node that is there returns a graph that is well formed, without the vector and with
  -- all the others.
  abbrev pub Removed : HnswGraph F → ℕ → Type 0
  Removed g id =
      (h : HnswGraph F) × (remove g id ≡ done h)
      × WellFormed h
      × (h.dimension ≡ g.dimension)
      × ((j : ℕ) → vector_at h j ≡ (if id == j then none else vector_at g j))

  pub remove-returns :
      (g : HnswGraph F) (id : ℕ)
      → WellFormed g
      → ((lookup id g.nodes ≡ none) × (remove g id ≡ failed (vector_not_found id)))
        ⊎ ((n : HnswNode F) × (lookup id g.nodes ≡ some n) × Removed g id)
  unfolding remove kept
  remove-returns g id wf = elim (Option-cases (lookup id g.nodes)) [
    | inl missing ↦ inl (missing, rw missing refl)
    | inr (n, found) ↦
        let nodes = kept g id n in
        inr (
          n,
          found,
          (
            without_node g id nodes,
            rw found refl,
            without_node-WellFormed g id nodes wf (kept-vector g id n),
            (without_node-vector g id 0 nodes).1,
            λ j. (without_node-vector g id j nodes).0 ∙ kept-vector g id n j,
          ),
        )
  ]
