-- ===== src/Index/Tests.antt =====
-- The flat index and HNSW nodes at concrete inputs, with numbers for f32 and the first components' distance.
use embeddb.Base.{
  false, ℕ, ◌+◌, ◌-◌, ◌≡◌, refl, none, some, List, [], ◌∷◌, ◌++◌, min, ltb, length, arith,
  if◌then◌else◌, ◌==◌, ◌⊎◌,
}
use mathlib.Core.List.{Perm}
use embeddb.Base.Assoc.{nat_key, lookup}
use embeddb.Base.Outcome.{ok, err}
use embeddb.Index.{SearchResult, vector_not_found}
use embeddb.Index.Hnsw.Node.{HnswNode, neighbors_at, contains, add_neighbor, layer_of}
use embeddb.Index.Hnsw.Graph.{max_connections}
use embeddb.Index.Hnsw.Links.{LayersFit, add_neighbor-LayersFit}
use embeddb.Index.Flat.{FlatIndex, insert, remove, search, score_all, sort_insert, sort_results}
use embeddb.Index.Flat.Search.{IsOrder, Sorted, search-best}
use embeddb.Index.Flat.Updates.{WellFormed, vector_of, insert-view, insert-WellFormed, remove-view}

distance : List ℕ → List ℕ → ℕ
distance (a ∷ v) (b ∷ w) = (a - b) + (b - a)
distance _ _ = 0

ltb-IsOrder : IsOrder ltb
ltb-IsOrder = record { asym = λ a b h. ground arith; trans = λ a b c h k. ground arith }

abbrev three : FlatIndex ℕ
three = record { vectors = (1, 10 ∷ []) ∷ (2, 20 ∷ []) ∷ (3, 13 ∷ []) ∷ []; dimension = 1 }

three-WellFormed : WellFormed three
unfolding lookup
three-WellFormed = record {
  distinct = (refl, (refl, (refl, tt)));
  dimensions = (refl, (refl, (refl, tt)));
}

search-best_example :
    (best : List (SearchResult ℕ)) × (rest : List (SearchResult ℕ)) × (search distance ltb three
        (12 ∷ [])
        2
      ≡ ok best)
    × (length best ≡ min 2 3)
    × Perm (best ++ rest) (score_all distance ltb (12 ∷ []) three.vectors)
    × Sorted distance ltb (best ++ rest)
search-best_example = search-best distance ltb ltb-IsOrder three (12 ∷ []) 2 refl

search-three :
    search distance ltb three (12 ∷ []) 2
    ≡ ok (record { id = 3; score = 1 } ∷ record { id = 1; score = 2 } ∷ [])
unfolding search sort_insert sort_results score_all distance
search-three = refl

insert-view_example :
    ((insert three 2 (5 ∷ [])).0 ≡ ok tt)
    × (vector_of (insert three 2 (5 ∷ [])).1 3
        ≡ (if 2 == 3 then some (5 ∷ []) else vector_of three 3))
insert-view_example = insert-view three 2 (5 ∷ []) 3 refl

insert-WellFormed_example : WellFormed (insert three 4 (5 ∷ [])).1
insert-WellFormed_example = insert-WellFormed three 4 (5 ∷ []) three-WellFormed

remove-view_example :
    ((vector_of three 1 ≡ none) × (remove three 1 ≡ (err (vector_not_found 1), three)))
    ⊎ (((v : List ℕ) × (vector_of three 1 ≡ some v))
        × ((remove three 1).0 ≡ ok tt)
        × ((j : ℕ) → vector_of (remove three 1).1 j ≡ (if 1 == j then none else vector_of three j))
        × WellFormed (remove three 1).1)
remove-view_example = remove-view three 1 three-WellFormed

abbrev node_a : HnswNode ℕ
node_a = record {
  id = 1;
  vector = 4 ∷ [];
  max_layer = 0;
  neighbors = (2 ∷ 3 ∷ []) ∷ [];
  tombstone = false;
}

-- Four neighbours on layer 0, two above it.
abbrev limits : ℕ → ℕ
limits = max_connections (record { m = 2; m_max = 4; ef_construction = 10; ef_search = 5 })

node_a-LayersFit : LayersFit limits node_a
unfolding neighbors_at contains layer_of
node_a-LayersFit = record { distinct = λ j. ground arith; bounded = λ j. ground arith }

add_neighbor-LayersFit_example : LayersFit limits (add_neighbor node_a 0 7 4).1
add_neighbor-LayersFit_example = add_neighbor-LayersFit node_a 0 7 limits node_a-LayersFit
