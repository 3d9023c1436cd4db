-- ===== src/Index/Hnsw/Graph/Searches.antt =====
-- `search` of graph.rs: it returns scores of nodes, the best of them first.
use embeddb.Base.{
  ℕ, ◌≡◌, ◌≤◌, refl, Option, none, some, List, [], Bool, ==_refl, length, min, max, take,
  length-take, arith,
}
use embeddb.Index.{SearchResult}
use embeddb.Index.Flat.Search.{Sorted}
use embeddb.Index.Hnsw.Run.{done}
use embeddb.Index.Hnsw.Beam.Rank.{Orders}
use embeddb.Index.Hnsw.Beam.Offers.{AllScored, AllScored-take, Sorted-take}
use embeddb.Index.Hnsw.Graph.{HnswGraph, down_to, search_at, search}
use embeddb.Index.Hnsw.Graph.View.{WellFormed}
use embeddb.Index.Hnsw.Graph.Moves.{layer-Answers, descend-done}

module _ {F : Type 0} (compute : List F → List F → F) (lt total_lt : F → F → Bool)
    (orders : Orders lt total_lt) where
  -- Scores of nodes in ascending order, at most `k` of them.
  abbrev Found : HnswGraph F → List F → ℕ → List (SearchResult F) → Type 0
  Found g query k rs =
      AllScored compute lt total_lt orders g.nodes query rs
      × Sorted compute total_lt rs
      × (length rs ≤ k)

  search_at-Found :
      (g : HnswGraph F) (query : List F) (k : ℕ) (o : Option ℕ)
      → WellFormed g
      → g.entry_point ≡ o
      → (rs : List (SearchResult F)) × (search_at compute lt total_lt g query k o ≡ done rs)
        × Found g query k rs
  search_at-Found g query k none wf is = ([], refl, (tt, tt, omega arith))
  search_at-Found g query k (some e) wf is =
      let (c, walked, there) =
        descend-done compute lt total_lt orders g query (down_to 1 g.max_layer) e (wf.entry e is) in
      let (rs, returns, answers, p) =
        layer-Answers compute lt total_lt orders g.nodes query (max g.config.ef_search k) 0 c
          there in
      let n = min k (length rs) in
      (
        take n rs,
        rw (walked, returns) refl,
        (
          AllScored-take compute lt total_lt orders g.nodes query n rs answers.scored,
          Sorted-take compute lt total_lt orders g.nodes query n rs answers.sorted,
          omega (arith, length-take n rs),
        ),
      )

  -- On a well-formed graph `search` for a vector of the graph's dimension returns at most `k` results in
  -- ascending order, each the id of a node with the score of its vector.
  pub search-Found :
      (g : HnswGraph F) (query : List F) (k : ℕ)
      → WellFormed g
      → length query ≡ g.dimension
      → (rs : List (SearchResult F)) × (search compute lt total_lt g query k ≡ done rs)
        × AllScored compute lt total_lt orders g.nodes query rs
        × Sorted compute total_lt rs
        × (length rs ≤ k)
  unfolding search
  search-Found g query k wf fits =
      let (rs, returns, (scored, sorted, short)) =
        search_at-Found g query k g.entry_point wf refl in
      (rs, rw (fits, ==_refl g.dimension) returns, scored, sorted, short)
