-- ===== src/Index/Hnsw/Links.antt =====
-- `add_neighbor` and `remove_neighbor` of crates/vexra-index/src/hnsw/node.rs on a node's layers.
use embeddb.Base.{
  subst, sym, ==_iff, ℕ, zero, suc, ◌<◌, ◌≤◌, ◌≡◌, refl, ap, ◌⊎◌, inl, inr, Bool, true, false, not,
  ◌&&◌, ◌||◌, List, [], ◌∷◌, ◌++◌, ltb, leb, ◌==◌, if◌then◌else◌, length, arith, Bool-cases,
  length-append,
}
use embeddb.Index.Hnsw.Node.{
  HnswNode, contains, retain_other, layer_of, set_layer, neighbors_at, add_neighbor,
  remove_neighbor,
}

length-set_layer :
    (layer : ℕ) (new : List ℕ) (ls : List (List ℕ)) → length (set_layer layer new ls) ≡ length ls
unfolding set_layer
length-set_layer layer new [] = refl
length-set_layer zero new (l ∷ ls) = refl
length-set_layer (suc layer) new (l ∷ ls) = ap suc (length-set_layer layer new ls)

layer_of-set_layer :
    (layer j : ℕ) (new : List ℕ) (ls : List (List ℕ))
    → ltb layer (length ls) ≡ true
    → layer_of j (set_layer layer new ls) ≡ (if layer == j then new else layer_of j ls)
unfolding layer_of set_layer
layer_of-set_layer layer j new [] h = ground arith
layer_of-set_layer zero zero new (l ∷ ls) h = ground arith
layer_of-set_layer zero (suc j) new (l ∷ ls) h = ground arith
layer_of-set_layer (suc layer) zero new (l ∷ ls) h = ground arith
layer_of-set_layer (suc layer) (suc j) new (l ∷ ls) h =
    ground (arith, layer_of-set_layer layer j new ls)

-- A layer without duplicates.
abbrev pub NoRepeat : List ℕ → Type 0
NoRepeat [] = Unit
NoRepeat (m ∷ ms) = (contains m ms ≡ false) × NoRepeat ms

contains-append :
    (n : ℕ) (ms : List ℕ) (k : ℕ) → contains n (ms ++ k ∷ []) ≡ (contains n ms || k == n)
unfolding contains
contains-append n [] k = ground arith
contains-append n (m ∷ ms) k = ground (arith, contains-append n ms k)

NoRepeat-append :
    (ms : List ℕ) (k : ℕ) → NoRepeat ms → contains k ms ≡ false → NoRepeat (ms ++ k ∷ [])
unfolding contains
NoRepeat-append [] k d fresh = (refl, tt)
NoRepeat-append (m ∷ ms) k (here, d) fresh =
    ground (arith, here, contains-append m ms k, NoRepeat-append ms k d)

contains-retain :
    (n k : ℕ) (ms : List ℕ) → contains k (retain_other n ms) ≡ (contains k ms && not (n == k))
unfolding contains retain_other
contains-retain n k [] = refl
contains-retain n k (m ∷ ms) = ground (arith, contains-retain n k ms)

length-retain : (n : ℕ) (ms : List ℕ) → length (retain_other n ms) ≤ length ms
unfolding retain_other
length-retain n [] = omega arith
length-retain n (m ∷ ms) = ground (arith, length-retain n ms)

NoRepeat-retain : (n : ℕ) (ms : List ℕ) → NoRepeat ms → NoRepeat (retain_other n ms)
unfolding retain_other
NoRepeat-retain n [] d = tt
NoRepeat-retain n (m ∷ ms) (here, d) =
    ground (arith, here, contains-retain n m ms, NoRepeat-retain n ms d)

choose : (P : List ℕ → Type 0) (b : Bool) (xs ys : List ℕ) → P xs → P ys → P (if b then xs else ys)
choose P true xs ys p q = p
choose P false xs ys p q = q

module _ {F : Type 0} where
  -- The node with another list at a layer.
  with_layer : HnswNode F → ℕ → List ℕ → HnswNode F
  with_layer node layer new = record node { neighbors = set_layer layer new node.neighbors }

  neighbors_at-with_layer :
      (node : HnswNode F) (layer j : ℕ) (new : List ℕ)
      → ltb layer (length node.neighbors) ≡ true
      → neighbors_at (with_layer node layer new) j
        ≡ (if layer == j then new else neighbors_at node j)
  unfolding neighbors_at with_layer
  neighbors_at-with_layer node layer j new h =
      rw
        (length-set_layer layer new node.neighbors, layer_of-set_layer layer j new node.neighbors h)
        (ground (arith, h))

  -- Whether a neighbour is taken: the layer is there, the neighbour is new to it, and there is room.
  abbrev pub Accepted : HnswNode F → ℕ → ℕ → ℕ → Type 0
  Accepted node layer n max =
      (layer < length node.neighbors)
      × (contains n (neighbors_at node layer) ≡ false)
      × (length (neighbors_at node layer) < max)

  neighbors_at-there :
      (node : HnswNode F) (layer : ℕ)
      → layer < length node.neighbors
      → neighbors_at node layer ≡ layer_of layer node.neighbors
  unfolding neighbors_at
  neighbors_at-there node layer h = ground (arith, h)

  AddResult : HnswNode F → ℕ → ℕ → ℕ → Type 0
  AddResult node layer n max =
      (Accepted node layer n max
        × (add_neighbor node layer n max
            ≡ (true, with_layer node layer (neighbors_at node layer ++ n ∷ []))))
      ⊎ (add_neighbor node layer n max ≡ (false, node))

  add_neighbor-result : (node : HnswNode F) (layer n max : ℕ) → AddResult node layer n max
  unfolding AddResult add_neighbor with_layer
  add_neighbor-result node layer n max = elim (Bool-cases (leb (length node.neighbors) layer)) [
    | inl outside ↦ inr (rw outside refl)
    | inr inside ↦ elim (Bool-cases (contains n (layer_of layer node.neighbors))) [
      | inl known ↦ inr (rw (inside, known) refl)
      | inr fresh ↦ elim (Bool-cases (leb max (length (layer_of layer node.neighbors)))) [
        | inl full ↦ inr (rw (inside, fresh, full) refl)
        | inr room ↦ inl (
            rw (neighbors_at-there node layer (ground arith))
              ((ground arith, fresh, ground arith), rw (inside, fresh, room) refl))
      ]
    ]
  ]

  -- No layer has a neighbour twice or more neighbours than its limit.
  pub record LayersFit (limit : ℕ → ℕ) (node : HnswNode F) : Type 0 where
    pub distinct : (j : ℕ) → NoRepeat (neighbors_at node j)
    pub bounded : (j : ℕ) → length (neighbors_at node j) ≤ limit j

  with_layer-LayersFit :
      (node : HnswNode F) (layer n : ℕ) (limit : ℕ → ℕ)
      → LayersFit limit node
      → Accepted node layer n (limit layer)
      → LayersFit limit (with_layer node layer (neighbors_at node layer ++ n ∷ []))
  with_layer-LayersFit node layer n limit fit (there, fresh, room) = record {
    distinct = λ j. rw (at j) (
        choose NoRepeat (layer == j) longer (neighbors_at node j)
          (NoRepeat-append (neighbors_at node layer) n (fit.distinct layer) fresh)
          (fit.distinct j));
    bounded = λ j. rw (at j) (bound j);
  }
    where
      longer : List ℕ
      longer = neighbors_at node layer ++ n ∷ []

      at :
          (j : ℕ)
          → neighbors_at (with_layer node layer longer) j
            ≡ (if layer == j then longer else neighbors_at node j)
      at j = neighbors_at-with_layer node layer j longer (ground (arith, there))

      bound : (j : ℕ) → length (if layer == j then longer else neighbors_at node j) ≤ limit j
      bound j = elim (Bool-cases (layer == j)) [
        | inl same ↦
            rw (same, sym (ap limit ((==_iff layer j).0 same)))
              (omega (arith, length-append (neighbors_at node layer) (n ∷ []), room))
        | inr other ↦ rw other (fit.bounded j)
      ]

  -- `add_neighbor` of a layer, called with the limit of that layer, keeps every layer of the node without
  -- duplicates and within its own limit, where each layer may have another.
  pub add_neighbor-LayersFit :
      (node : HnswNode F) (layer n : ℕ) (limit : ℕ → ℕ)
      → LayersFit limit node
      → LayersFit limit (add_neighbor node layer n (limit layer)).1
  unfolding AddResult
  add_neighbor-LayersFit node layer n limit fit =
      elim (add_neighbor-result node layer n (limit layer)) [
        | inl (taken, e) ↦ rw e (with_layer-LayersFit node layer n limit fit taken)
        | inr e ↦ rw e fit
      ]

  remove_neighbor-there :
      (node : HnswNode F) (layer n : ℕ)
      → ltb layer (length node.neighbors) ≡ true
      → remove_neighbor node layer n
        ≡ with_layer node layer (retain_other n (layer_of layer node.neighbors))
  unfolding remove_neighbor with_layer
  remove_neighbor-there node layer n h = rw h refl

  remove_neighbor-outside :
      (node : HnswNode F) (layer n : ℕ)
      → ltb layer (length node.neighbors) ≡ false
      → remove_neighbor node layer n ≡ node
  unfolding remove_neighbor
  remove_neighbor-outside node layer n h = rw h refl

  -- `remove_neighbor` of a layer keeps every layer without duplicates and within its limit.
  pub remove_neighbor-LayersFit :
      (node : HnswNode F) (layer n : ℕ) (limit : ℕ → ℕ)
      → LayersFit limit node
      → LayersFit limit (remove_neighbor node layer n)
  remove_neighbor-LayersFit node layer n limit fit =
      elim (Bool-cases (ltb layer (length node.neighbors))) [
        | inl inside ↦ rw (remove_neighbor-there node layer n inside) (shorter inside)
        | inr outside ↦ rw (remove_neighbor-outside node layer n outside) fit
      ]
    where
      shorter :
          ltb layer (length node.neighbors) ≡ true
          → LayersFit limit (with_layer node layer (retain_other n (layer_of layer node.neighbors)))
      shorter inside = record {
        distinct = λ j. rw (at j) (
            choose NoRepeat (layer == j) left (neighbors_at node j)
              (NoRepeat-retain n old (subst NoRepeat was (fit.distinct layer))) (fit.distinct j));
        bounded = λ j. rw (at j) (bound j);
      }
        where
          old : List ℕ
          old = layer_of layer node.neighbors

          left : List ℕ
          left = retain_other n old

          was : neighbors_at node layer ≡ old
          was = neighbors_at-there node layer (ground (arith, inside))

          at :
              (j : ℕ)
              → neighbors_at (with_layer node layer left) j
                ≡ (if layer == j then left else neighbors_at node j)
          at j = neighbors_at-with_layer node layer j left inside

          bound : (j : ℕ) → length (if layer == j then left else neighbors_at node j) ≤ limit j
          bound j = elim (Bool-cases (layer == j)) [
            | inl same ↦
                rw (same, sym (ap limit ((==_iff layer j).0 same)))
                  (omega (arith, length-retain n old, ap length was, fit.bounded layer))
            | inr other ↦ rw other (fit.bounded j)
          ]

  removed :
      (node : HnswNode F) (layer n j k : ℕ)
      → ltb layer (length node.neighbors) ≡ true
      → contains k (
          if layer == j
          then retain_other n (layer_of layer node.neighbors)
          else neighbors_at node j)
        ≡ (contains k (neighbors_at node j) && not (layer == j && n == k))
  unfolding neighbors_at
  removed node layer n j k h =
      ground (arith, h, contains-retain n k (layer_of layer node.neighbors))

  untouched :
      (node : HnswNode F) (layer n j k : ℕ)
      → ltb layer (length node.neighbors) ≡ false
      → contains k (neighbors_at node j)
        ≡ (contains k (neighbors_at node j) && not (layer == j && n == k))
  unfolding neighbors_at contains
  untouched node layer n j k h = ground (arith, h)

  -- After `remove_neighbor` of a layer, a neighbour is in a layer if it was there and is not the one
  -- taken out of that layer.
  pub remove_neighbor-contains :
      (node : HnswNode F) (layer n j k : ℕ)
      → contains k (neighbors_at (remove_neighbor node layer n) j)
        ≡ (contains k (neighbors_at node j) && not (layer == j && n == k))
  remove_neighbor-contains node layer n j k =
      elim (Bool-cases (ltb layer (length node.neighbors))) [
        | inl there ↦
            rw
              (
                remove_neighbor-there node layer n there,
                neighbors_at-with_layer node layer j
                    (retain_other n (layer_of layer node.neighbors)) there,
              )
              (removed node layer n j k there)
        | inr outside ↦
            rw (remove_neighbor-outside node layer n outside) (untouched node layer n j k outside)
      ]
