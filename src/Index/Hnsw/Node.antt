-- ===== src/Index/Hnsw/Node.antt =====
-- crates/vexra-index/src/hnsw/node.rs: a node and its neighbours, one list for each layer. The f32 type
-- is an argument.
use embeddb.Base.{
  ℕ, zero, suc, ◌+◌, Bool, true, false, not, ◌||◌, List, [], ◌∷◌, ◌++◌, ltb, leb, ◌==◌,
  if◌then◌else◌, length, replicate,
}

pub record HnswNode (F : Type 0) : Type 0 where
  pub id : ℕ
  pub vector : List F
  pub max_layer : ℕ
  pub neighbors : List (List ℕ)
  pub tombstone : Bool

unfoldable pub contains : ℕ → List ℕ → Bool
contains n [] = false
contains n (m ∷ ms) = m == n || contains n ms

unfoldable pub retain_other : ℕ → List ℕ → List ℕ
retain_other n [] = []
retain_other n (m ∷ ms) = let rest = retain_other n ms in if not (m == n) then m ∷ rest else rest

-- `neighbors[layer]`, empty where there is no such layer.
unfoldable pub layer_of : ℕ → List (List ℕ) → List ℕ
layer_of layer [] = []
layer_of zero (l ∷ ls) = l
layer_of (suc layer) (l ∷ ls) = layer_of layer ls

unfoldable pub set_layer : ℕ → List ℕ → List (List ℕ) → List (List ℕ)
set_layer layer new [] = []
set_layer zero new (l ∷ ls) = new ∷ ls
set_layer (suc layer) new (l ∷ ls) = l ∷ set_layer layer new ls

module _ {F : Type 0} where
  unfoldable pub new : ℕ → List F → ℕ → HnswNode F
  new id vector level = record {
    id = id;
    vector = vector;
    max_layer = level;
    neighbors = replicate (level + 1) [];
    tombstone = false;
  }

  unfoldable pub neighbors_at : HnswNode F → ℕ → List ℕ
  neighbors_at node layer =
      if ltb layer (length node.neighbors) then layer_of layer node.neighbors else []

  unfoldable pub add_neighbor : HnswNode F → ℕ → ℕ → ℕ → Bool × HnswNode F
  add_neighbor node layer neighbor_id max_connections =
      let list = layer_of layer node.neighbors in
      if leb (length node.neighbors) layer
      then (false, node)
      else if contains neighbor_id list
      then (false, node)
      else if leb max_connections (length list)
      then (false, node)
      else (
        true,
        record node { neighbors = set_layer layer (list ++ neighbor_id ∷ []) node.neighbors },
      )

  unfoldable pub remove_neighbor : HnswNode F → ℕ → ℕ → HnswNode F
  remove_neighbor node layer neighbor_id =
      if ltb layer (length node.neighbors)
      then record node {
        neighbors =
            set_layer layer (retain_other neighbor_id (layer_of layer node.neighbors))
              node.neighbors;
      }
      else node

  unfoldable pub mark_deleted : HnswNode F → HnswNode F
  mark_deleted node = record node { tombstone = true }

  unfoldable pub is_active : HnswNode F → Bool
  is_active node = not node.tombstone
