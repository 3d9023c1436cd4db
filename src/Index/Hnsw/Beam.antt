-- ===== src/Index/Hnsw/Beam.antt =====
-- `search_layer` of crates/vexra-index/src/hnsw/graph.rs. The two binary heaps of the Rust library are
-- lists in ascending order of the scores: the candidates give their first element, and of the results
-- the last one is the worst. `lt` is the `<` of f32 and `total_lt` the order of `total_cmp`.
pub mod Rank
pub mod Offers
pub mod Loop
pub mod Best
use embeddb.Base.{
  ℕ, zero, suc, ◌+◌, ◌*◌, Bool, true, false, not, ◌&&◌, ◌||◌, Option, none, some, List, [], ◌∷◌,
  ltb, leb, ◌==◌, if◌then◌else◌, length, take,
}
use embeddb.Base.Assoc.{nat_key, lookup, insert}
use embeddb.Index.{IndexError, vector_not_found, SearchResult}
use embeddb.Index.Flat.{sort_insert}
use embeddb.Index.Hnsw.Run.{Run, done, failed, out_of_fuel, ◌>>=◌}
use embeddb.Index.Hnsw.Node.{HnswNode, neighbors_at}

-- The variables of the loop.
pub record Beam (F : Type 0) : Type 0 where
  pub visited : List (ℕ × F)
  pub candidates : List (SearchResult F)
  pub results : List (SearchResult F)

abbrev pub without_first : {F : Type 0} → Beam F → List (SearchResult F) → Beam F
without_first beam cs = record beam { candidates = cs }

abbrev pub first_beam : {F : Type 0} → ℕ → F → Beam F
first_beam entry d = record {
  visited = (entry, d) ∷ [];
  candidates = record { id = entry; score = d } ∷ [];
  results = record { id = entry; score = d } ∷ [];
}

-- Rounds that are enough for `ef` results over `n` nodes.
abbrev pub search_fuel : ℕ → ℕ → ℕ
search_fuel ef n = 2 * (ef * (n + 1) + n) + 2

module _ {F : Type 0} (compute : List F → List F → F) (lt total_lt : F → F → Bool) where
  -- `BinaryHeap::push`.
  abbrev pub push : SearchResult F → List (SearchResult F) → List (SearchResult F)
  push = sort_insert compute total_lt

  -- `results.peek()`.
  abbrev pub worst : List (SearchResult F) → Option (SearchResult F)
  worst [] = none
  worst (r ∷ []) = some r
  worst (r ∷ (s ∷ rs)) = worst (s ∷ rs)

  abbrev pub closer : F → Option (SearchResult F) → Bool
  closer d none = false
  closer d (some w) = lt d w.score

  abbrev pub farther : F → Option (SearchResult F) → Bool
  farther d none = false
  farther d (some w) = lt w.score d

  -- The part of the loop's body behind the score of a neighbour. The pops leave the `ef` best results.
  unfoldable pub offer : ℕ → ℕ → F → Beam F → Beam F
  offer ef id d beam =
      if (if ltb (length beam.results) ef then true else closer d (worst beam.results))
      then record beam {
        candidates = push (record { id = id; score = d }) beam.candidates;
        results = take ef (push (record { id = id; score = d }) beam.results);
      }
      else beam

  module _ (nodes : List (ℕ × HnswNode F)) (query : List F) (ef layer : ℕ) where
    abbrev pub offer_new : ℕ → Beam F → Option (HnswNode F) → Beam F
    offer_new id beam none = beam
    offer_new id beam (some neighbor) =
        if neighbor.tombstone
        then beam
        else offer ef id (compute query neighbor.vector)
            (record beam { visited = insert id (compute query neighbor.vector) beam.visited })

    -- A neighbour with the score that it was visited with, or a new one.
    abbrev pub offer_seen : ℕ → Beam F → Option F → Beam F
    offer_seen id beam (some d) = offer ef id d beam
    offer_seen id beam none = offer_new id beam (lookup id nodes)

    unfoldable pub explore : ℕ → List ℕ → Beam F → Beam F
    explore curr [] beam = beam
    explore curr (id ∷ ids) beam =
        explore curr ids (if id == curr then beam else offer_seen id beam (lookup id beam.visited))

    abbrev pub expand : ℕ → Beam F → Option (HnswNode F) → Beam F
    expand curr beam none = beam
    expand curr beam (some node) = explore curr (neighbors_at node layer) beam

    -- The search ends at a candidate that is farther than the worst of `ef` results.
    abbrev pub stops : SearchResult F → Beam F → Bool
    stops c beam = leb ef (length beam.results) && farther c.score (worst beam.results)

    unfoldable pub search_loop : ℕ → Beam F → Run (List (SearchResult F))
    search_loop zero beam = out_of_fuel
    search_loop (suc fuel) beam = elim beam.candidates [
      | [] ↦ done beam.results
      | c ∷ cs ↦ elim (stops c beam) [
        | true ↦ done beam.results
        | false ↦ search_loop fuel (expand c.id (without_first beam cs) (lookup c.id nodes))
      ]
    ]

    abbrev pub search_from : ℕ → Option (HnswNode F) → Run (List (SearchResult F))
    search_from entry none = failed (vector_not_found entry)
    search_from entry (some node) =
        search_loop (search_fuel ef (length nodes)) (first_beam entry (compute query node.vector))

    unfoldable pub search_layer : ℕ → Run (List (SearchResult F))
    search_layer entry = search_from entry (lookup entry nodes)
