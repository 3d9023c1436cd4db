-- ===== src/Index/Hnsw/Graph/Nearest.antt =====
-- `search` of graph.rs: the best result is no farther from the query than the entry point.
use embeddb.Base.{
  ℕ, suc, zero, ◌≡◌, ◌<◌, refl, ap, ◌∙◌, subst, some, List, [], ◌∷◌, Bool, false, ==_refl, length,
  min, max, take, arith,
}
use embeddb.Base.Assoc.{nat_key, lookup}
use embeddb.Index.{SearchResult}
use embeddb.Index.Hnsw.Run.{done}
use embeddb.Index.Hnsw.Node.{HnswNode}
use embeddb.Index.Hnsw.Beam.{search_layer}
use embeddb.Index.Hnsw.Beam.Rank.{Orders, NodeScore}
use embeddb.Index.Hnsw.Beam.Offers.{AllScored}
use embeddb.Index.Hnsw.Beam.Best.{NoFarther, search_layer-NoFarther}
use embeddb.Index.Hnsw.Beam.Loop.{search_layer-Answers}
use embeddb.Index.Hnsw.Graph.{HnswGraph, down_to, descend, search_at, search}

suc-of : (m : ℕ) → 0 < m → (n : ℕ) × (m ≡ suc n)
suc-of zero h = absurd (omega arith)
suc-of (suc n) h = (n, refl)

module _ {F : Type 0} (compute : List F → List F → F) (lt total_lt : F → F → Bool)
    (orders : Orders lt total_lt) (query : List F) where
  first-result :
      (g : HnswGraph F) (s : F) (rs : List (SearchResult F))
      → AllScored compute lt total_lt orders g.nodes query rs
      → NoFarther compute lt total_lt orders s rs
      → (r : SearchResult F) × (rest : List (SearchResult F)) × (rs ≡ r ∷ rest)
        × NodeScore compute lt total_lt orders g.nodes query r.id r.score
        × (total_lt s r.score ≡ false)
  first-result g s [] all near = absurd near
  first-result g s (r ∷ rest) (scored, all) near = (r, rest, refl, scored, near)

  -- A layer's search with room for a result, from a node with its score.
  layer-first :
      (g : HnswGraph F) (ef layer curr : ℕ) (s : F)
      → 0 < ef
      → NodeScore compute lt total_lt orders g.nodes query curr s
      → (r : SearchResult F) × (rest : List (SearchResult F)) × (search_layer compute lt total_lt
            g.nodes query ef layer curr
          ≡ done (r ∷ rest))
        × NodeScore compute lt total_lt orders g.nodes query r.id r.score
        × (total_lt s r.score ≡ false)
  layer-first g ef layer curr s room (n, found, score) =
      let (m, room_eq) = suc-of ef room in
      let (rs, returns, answers) =
        search_layer-Answers compute lt total_lt orders g.nodes query ef layer curr n found in
      let near =
        search_layer-NoFarther compute lt total_lt orders g.nodes query m layer s curr n rs found
          score
          (subst (λ k. search_layer compute lt total_lt g.nodes query k layer curr ≡ done rs)
            room_eq returns) in
      let (r, rest, eq, scored, closer) = first-result g s rs answers.scored near in
      (r, rest, returns ∙ ap done eq, scored, closer)

  descend-near :
      (g : HnswGraph F) (layers : List ℕ) (curr : ℕ) (s : F)
      → NodeScore compute lt total_lt orders g.nodes query curr s
      → (c : ℕ) × (t : F) × (descend compute lt total_lt g query layers curr ≡ done c)
        × NodeScore compute lt total_lt orders g.nodes query c t
        × (total_lt s t ≡ false)
  unfolding descend
  descend-near g [] curr s scored = (curr, s, refl, scored, irrefl s)
    where
      irrefl : (a : F) → total_lt a a ≡ false
      irrefl a = grind (arith, orders.order.asym a a)
  descend-near g (layer ∷ layers) curr s scored =
      let (r, rest, returns, first, closer) = layer-first g 1 layer curr s (omega arith) scored in
      let (c, t, walks, last, near) = descend-near g layers r.id r.score first in
      (c, t, rw returns walks, last, orders.order.trans t r.score s near closer)

  take-first :
      (k : ℕ) (r : SearchResult F) (rest : List (SearchResult F))
      → 0 < k
      → (some_rest : List (SearchResult F)) × (take (min k (length (r ∷ rest))) (r ∷ rest)
          ≡ r ∷ some_rest)
  take-first k r rest h =
      let (m, eq) = suc-of (min k (length (r ∷ rest))) (omega arith) in (take m rest, rw eq refl)

  search_at-nearest :
      (g : HnswGraph F) (k e : ℕ) (n : HnswNode F)
      → lookup e g.nodes ≡ some n
      → 0 < k
      → (r : SearchResult F) × (rest : List (SearchResult F)) × (search_at compute lt total_lt g
            query k
            (some e)
          ≡ done (r ∷ rest))
        × NodeScore compute lt total_lt orders g.nodes query r.id r.score
        × (total_lt (compute query n.vector) r.score ≡ false)
  search_at-nearest g k e n found positive =
      let (c, t, walks, there, near) =
        descend-near g (down_to 1 g.max_layer) e (compute query n.vector) (n, found, refl) in
      let (r, rest, returns, scored, closer) =
        layer-first g (max g.config.ef_search k) 0 c t (omega arith) there in
      let (short, eq) = take-first k r rest positive in
      (
        r,
        short,
        rw (walks, returns) (ap done eq),
        scored,
        orders.order.trans r.score t (compute query n.vector) closer near,
      )

  search-from :
      (g : HnswGraph F) (k e : ℕ)
      → length query ≡ g.dimension
      → g.entry_point ≡ some e
      → search compute lt total_lt g query k ≡ search_at compute lt total_lt g query k (some e)
  unfolding search
  search-from g k e fits is =
      rw (fits, ==_refl g.dimension) (ap (search_at compute lt total_lt g query k) is)

  -- On a graph whose entry point is a node, `search` for at least one result returns a first result, a
  -- node with its score, and the score of the entry point is not less.
  pub search-nearest :
      (g : HnswGraph F) (k e : ℕ) (n : HnswNode F)
      → length query ≡ g.dimension
      → g.entry_point ≡ some e
      → lookup e g.nodes ≡ some n
      → 0 < k
      → (r : SearchResult F) × (rest : List (SearchResult F)) × (search compute lt total_lt g query
            k
          ≡ done (r ∷ rest))
        × NodeScore compute lt total_lt orders g.nodes query r.id r.score
        × (total_lt (compute query n.vector) r.score ≡ false)
  search-nearest g k e n fits is found positive =
      let (r, rest, returns, scored, closer) = search_at-nearest g k e n found positive in
      (r, rest, search-from g k e fits is ∙ returns, scored, closer)
