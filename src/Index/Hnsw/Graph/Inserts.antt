-- ===== src/Index/Hnsw/Graph/Inserts.antt =====
-- `insert` of graph.rs on the map from ids to vectors.
use embeddb.Base.{
  ℕ, ◌≡◌, refl, ap, sym, ◌∙◌, ◌⊎◌, Option, none, some, List, inl, inr, Bool-cases, Bool, true,
  false, ==_refl, ◌==◌, if◌then◌else◌, length, ltb, min, ◌+◌,
}
use embeddb.Base.Assoc.{nat_key, lookup, lookup-insert}
use embeddb.Base.Assoc.{insert as assoc_insert}
use embeddb.Index.Hnsw.Run.{done}
use embeddb.Index.Hnsw.Node
use embeddb.Index.Hnsw.Node.{HnswNode}
use embeddb.Index.Hnsw.Beam.Rank.{Orders}
use embeddb.Index.Hnsw.Graph.{HnswGraph, with_nodes, down_to, insert_at, enter, cleared, insert}
use embeddb.Index.Hnsw.Graph.View.{vector_in, vector_at, WellFormed}
use embeddb.Index.Hnsw.Graph.Removes.{remove-returns}
use embeddb.Index.Hnsw.Graph.Moves.{descend-done, connect-done}

some-eq : (k e : ℕ) → some k ≡ some e → k ≡ e
some-eq k e h = cc

module _ {F : Type 0} where
  put : HnswGraph F → ℕ → List F → ℕ → Option (List F)
  put g id v j = if id == j then some v else vector_at g j

  -- A well-formed graph with one more vector.
  abbrev Put : HnswGraph F → ℕ → List F → HnswGraph F → Type 0
  Put g id v h =
      WellFormed h
      × (h.dimension ≡ g.dimension)
      × ((j : ℕ) → vector_at h j ≡ (if id == j then some v else vector_at g j))

  insert-vector :
      (g : HnswGraph F) (id : ℕ) (v : List F) (n : HnswNode F) (nodes : List (ℕ × HnswNode F))
      → n.vector ≡ v
      → ((j : ℕ) → vector_in nodes j ≡ vector_at g j)
      → (j : ℕ) → vector_in (assoc_insert id n nodes) j ≡ put g id v j
  unfolding put
  insert-vector g id v n nodes e same j =
      rw (lookup-insert id j n nodes) (elim (Bool-cases (id == j)) [
        | inl here ↦ rw here (ap some e)
        | inr there ↦ rw there (same j)
      ])

  put-cases :
      (g : HnswGraph F) (id : ℕ) (v : List F) (j : ℕ) (w : List F)
      → put g id v j ≡ some w
      → (v ≡ w) ⊎ (vector_at g j ≡ some w)
  unfolding put
  put-cases g id v j w h = elim (Bool-cases (id == j)) [
    | inl here ↦ inl (cc (rw here at h))
    | inr there ↦ inr (rw there at h)
  ]

  put_self : (g : HnswGraph F) (id e : ℕ) (v : List F) → id ≡ e → put g id v e ≡ some v
  unfolding put
  put_self g id e v same = rw (sym same, ==_refl id) refl

  put-other :
      (g : HnswGraph F) (id e : ℕ) (v w : List F)
      → vector_at g e ≡ some w
      → (u : List F) × (put g id v e ≡ some u)
  unfolding put
  put-other g id e v w found = elim (Bool-cases (id == e)) [
    | inl here ↦ (v, rw here refl)
    | inr there ↦ (w, rw there found)
  ]

  -- The entry point of the new graph: the new node, or that of the old one.
  abbrev Entry : HnswGraph F → ℕ → HnswGraph F → Type 0
  Entry g id h =
      (h.entry_point ≡ some id) ⊎ ((e : ℕ) × (h.entry_point ≡ some e) × (g.entry_point ≡ some e))

  put-Entry :
      (g : HnswGraph F) (id : ℕ) (v : List F) (h : HnswGraph F)
      → WellFormed g
      → Entry g id h
      → (e : ℕ) → h.entry_point ≡ some e
      → (u : List F) × (put g id v e ≡ some u)
  put-Entry g id v h wf (inl new) e is = (v, put_self g id e v (some-eq id e (sym new ∙ is)))
  put-Entry g id v h wf (inr (k, kept, old)) e is =
      let same : k ≡ e = some-eq k e (sym kept ∙ is) in
      let (w, found) = wf.entry e (old ∙ ap some same) in put-other g id e v w found

  not_empty : (g : HnswGraph F) (id : ℕ) (h : HnswGraph F) → Entry g id h → h.entry_point ≡ none → ⊥
  not_empty g id h (inl new) is = cc
  not_empty g id h (inr (k, kept, old)) is = cc

  Put-new :
      (g : HnswGraph F) (id : ℕ) (v : List F) (h : HnswGraph F)
      → WellFormed g
      → length v ≡ g.dimension
      → h.dimension ≡ g.dimension
      → Entry g id h
      → ((j : ℕ) → vector_at h j ≡ put g id v j)
      → Put g id v h
  unfolding put
  Put-new g id v h wf fits same entry view = (
    record {
      entry = λ e is. let (u, found) = put-Entry g id v h wf entry e is in (u, view e ∙ found);
      empty = λ is. absurd (not_empty g id h entry is);
      dimensions = λ j w found. elim (put-cases g id v j w (sym (view j) ∙ found)) [
        | inl new ↦ ap length (sym new) ∙ fits ∙ sym same
        | inr old ↦ wf.dimensions j w old ∙ sym same
      ];
    },
    same,
    view,
  )

  enter-Put :
      (g : HnswGraph F) (id : ℕ) (v : List F) (level e : ℕ) (n : HnswNode F)
      (nodes : List (ℕ × HnswNode F))
      → WellFormed g
      → length v ≡ g.dimension
      → g.entry_point ≡ some e
      → n.vector ≡ v
      → ((j : ℕ) → vector_in nodes j ≡ vector_at g j)
      → Put g id v (enter id level (n, with_nodes g nodes))
  enter-Put g id v level e n nodes wf fits is vector same =
      elim (Bool-cases (ltb g.max_layer level)) [
        | inl higher ↦
            rw higher
              (Put-new g id v _ wf fits refl (inl refl) (insert-vector g id v n nodes vector same))
        | inr lower ↦ rw lower (
            Put-new g id v _ wf fits refl (inr (e, is, is))
              (insert-vector g id v n nodes vector same))
      ]

  new-vector : (id : ℕ) (v : List F) (level : ℕ) → (Node.new id v level).vector ≡ v
  unfolding Node.new
  new-vector id v level = refl

  cleared-view :
      (g : HnswGraph F) (id : ℕ)
      → WellFormed g
      → (h : HnswGraph F) × (cleared g id (lookup id g.nodes) ≡ done h)
        × WellFormed h
        × (h.dimension ≡ g.dimension)
        × ((v : List F) (j : ℕ) → put h id v j ≡ put g id v j)
  unfolding put
  cleared-view g id wf = elim (remove-returns g id wf) [
    | inl (missing, fails) ↦ (g, rw missing refl, wf, refl, λ v j. refl)
    | inr (n, found, (h, returns, well, dim, view)) ↦ (
      h,
      rw found returns,
      well,
      dim,
      λ v j. rw (view j) (twice (id == j) (some v) (vector_at g j)),
    )
  ]
    where
      twice :
          (b : Bool) (x y : Option (List F))
          → (if b then x else (if b then none else y)) ≡ (if b then x else y)
      twice true x y = refl
      twice false x y = refl

  module _ (compute : List F → List F → F) (lt total_lt : F → F → Bool)
      (orders : Orders lt total_lt) where
    insert_at-Put :
        (g : HnswGraph F) (id : ℕ) (v : List F) (level : ℕ) (o : Option ℕ)
        → WellFormed g
        → length v ≡ g.dimension
        → g.entry_point ≡ o
        → (h : HnswGraph F) × (insert_at compute lt total_lt g id v level o ≡ done h) × Put g id v h
    insert_at-Put g id v level none wf fits is = (
      _,
      refl,
      Put-new g id v _ wf fits refl (inl refl)
          (insert-vector g id v (Node.new id v level) g.nodes (new-vector id v level) (λ j. refl)),
    )
    insert_at-Put g id v level (some e) wf fits is =
        let (c, walked, there) =
          descend-done compute lt total_lt orders g v (down_to (level + 1) g.max_layer) e
            (wf.entry e is) in
        let (n, nodes, returns, vector, same) =
          connect-done compute lt total_lt orders g id v (down_to 0 (min level g.max_layer)) c
            (Node.new id v level) there in
        (
          enter id level (n, with_nodes g nodes),
          rw (walked, returns) refl,
          enter-Put g id v level e n nodes wf fits is (vector ∙ new-vector id v level) same,
        )

    -- On a well-formed graph `insert` of a vector of the graph's dimension returns, for every level, a
    -- well-formed graph with the vector at its id and every other vector as before.
    pub insert-returns :
        (g : HnswGraph F) (id : ℕ) (v : List F) (level : ℕ)
        → WellFormed g
        → length v ≡ g.dimension
        → (h : HnswGraph F) × (insert compute lt total_lt g id v level ≡ done h)
          × WellFormed h
          × (h.dimension ≡ g.dimension)
          × ((j : ℕ) → vector_at h j ≡ (if id == j then some v else vector_at g j))
    unfolding insert put
    insert-returns g id v level wf fits =
        let (k, clears, well, dim, puts) = cleared-view g id wf in
        let (h, returns, (good, same, view)) =
          insert_at-Put k id v level k.entry_point well (fits ∙ sym dim) refl in
        (
          h,
          rw (fits, ==_refl g.dimension, clears) returns,
          good,
          same ∙ dim,
          λ j. view j ∙ puts v j,
        )
