-- ===== src/Index/Hnsw/Beam/Rank.antt =====
-- A bound on the rounds of the search loop: the rank of a score is the number of nodes that are closer
-- to the query, and a result that is exchanged for a better one lowers the sum of the ranks.
use embeddb.Base.{
  ℕ, zero, suc, ◌+◌, ◌≤◌, ◌<◌, ◌≡◌, refl, sym, inl, inr, Bool, true, false, some, List, [], ◌∷◌,
  ◌==◌, if◌then◌else◌, length, take, arith, Bool-cases,
}
use embeddb.Base.Assoc.{nat_key, lookup}
use embeddb.Index.{SearchResult}
use embeddb.Index.Flat.{sort_insert}
use embeddb.Index.Flat.Search.{IsOrder}
use embeddb.Index.Hnsw.Node.{HnswNode}
use embeddb.Index.Hnsw.Beam.{push, worst}

-- `total_cmp` is a total order, and what `<` finds less it does too.
pub record Orders {F : Type 0} (lt total_lt : F → F → Bool) : Type 0 where
  pub order : IsOrder total_lt
  pub within : (a b : F) → lt a b ≡ true → total_lt a b ≡ true

module _ {F : Type 0} (compute : List F → List F → F) (lt total_lt : F → F → Bool)
    (orders : Orders lt total_lt) where
  lt_trans : (a b c : F) → total_lt a b ≡ true → total_lt b c ≡ true → total_lt a c ≡ true
  lt_trans a b c p q = elim (Bool-cases (total_lt a c)) [
    | inl yes_lt ↦ yes_lt
    | inr not_lt ↦ absurd (clash (orders.order.trans c a b not_lt (orders.order.asym a b p)))
  ]
    where
      clash : total_lt b c ≡ false → ⊥
      clash h = cc

  pub irrefl : (a : F) → total_lt a a ≡ false
  irrefl a = elim (Bool-cases (total_lt a a)) [
    | inl less ↦ orders.order.asym a a less
    | inr not_less ↦ not_less
  ]

  worst-cons :
      (r : SearchResult F) (zs : List (SearchResult F)) (w : SearchResult F)
      → worst compute lt total_lt zs ≡ some w
      → worst compute lt total_lt (r ∷ zs) ≡ some w
  worst-cons r [] w e = cc
  worst-cons r (z ∷ zs) w e = e

  pub worst-push :
      (x : SearchResult F) (rs : List (SearchResult F)) (w : SearchResult F)
      → worst compute lt total_lt rs ≡ some w
      → total_lt x.score w.score ≡ true
      → worst compute lt total_lt (push compute lt total_lt x rs) ≡ some w
  unfolding sort_insert
  worst-push x [] w e h = cc
  worst-push x (r ∷ []) w e h = ground (arith, e, h, orders.order.asym x.score r.score)
  worst-push x (r ∷ (s ∷ rs)) w e h = elim (Bool-cases (total_lt r.score x.score)) [
    | inl later ↦
        rw later
          (worst-cons r (sort_insert compute total_lt x (s ∷ rs)) w (worst-push x (s ∷ rs) w e h))
    | inr here ↦ rw here e
  ]

  module _ (nodes : List (ℕ × HnswNode F)) (query : List F) where
    -- The number of nodes that are closer to the query than a score.
    pub rank_in : List (ℕ × HnswNode F) → F → ℕ
    rank_in [] s = 0
    rank_in ((id, n) ∷ rest) s =
        (if total_lt (compute query n.vector) s then 1 else 0) + rank_in rest s

    abbrev pub rank : F → ℕ
    rank = rank_in nodes

    -- The score of a node.
    abbrev pub NodeScore : ℕ → F → Type 0
    NodeScore id d = (n : HnswNode F) × (lookup id nodes ≡ some n) × (d ≡ compute query n.vector)

    pub rank_in-le : (ms : List (ℕ × HnswNode F)) (s : F) → rank_in ms s ≤ length ms
    unfolding rank_in
    rank_in-le [] s = omega arith
    rank_in-le ((id, n) ∷ ms) s = ground (arith, rank_in-le ms s)

    rank_in_mono :
        (ms : List (ℕ × HnswNode F)) (d w : F) → total_lt d w ≡ true → rank_in ms d ≤ rank_in ms w
    unfolding rank_in
    rank_in_mono [] d w h = omega arith
    rank_in_mono ((id, n) ∷ ms) d w h =
        ground (arith, lt_trans (compute query n.vector) d w, rank_in_mono ms d w h)

    rank_in-first :
        (m : HnswNode F) (ms : List (ℕ × HnswNode F)) (d w : F)
        → d ≡ compute query m.vector
        → total_lt d w ≡ true
        → (if total_lt (compute query m.vector) d then 1 else 0) + rank_in ms d
          < (if total_lt (compute query m.vector) w then 1 else 0) + rank_in ms w
    rank_in-first m ms d w g h = rw (sym g) (ground (arith, h, irrefl d, rank_in_mono ms d w h))

    rank_in-later :
        (m : HnswNode F) (ms : List (ℕ × HnswNode F)) (d w : F)
        → total_lt d w ≡ true
        → rank_in ms d < rank_in ms w
        → (if total_lt (compute query m.vector) d then 1 else 0) + rank_in ms d
          < (if total_lt (compute query m.vector) w then 1 else 0) + rank_in ms w
    rank_in-later m ms d w h less = ground (arith, lt_trans (compute query m.vector) d w, h, less)

    first_score :
        (k id : ℕ) (m n : HnswNode F) (ms : List (ℕ × HnswNode F)) (d : F)
        → (k == id) ≡ true
        → lookup id ((k, m) ∷ ms) ≡ some n
        → d ≡ compute query n.vector
        → d ≡ compute query m.vector
    unfolding lookup
    first_score k id m n ms d same e g = cc (rw same at e)

    pub rank_in-lt :
        (ms : List (ℕ × HnswNode F)) (id : ℕ) (n : HnswNode F) (d w : F)
        → lookup id ms ≡ some n
        → d ≡ compute query n.vector
        → total_lt d w ≡ true
        → rank_in ms d < rank_in ms w
    unfolding rank_in lookup
    rank_in-lt [] id n d w e g h = cc
    rank_in-lt ((k, m) ∷ ms) id n d w e g h = elim (Bool-cases (k == id)) [
      | inl same ↦ rank_in-first m ms d w (first_score k id m n ms d same e g) h
      | inr other ↦ rank_in-later m ms d w h (rank_in-lt ms id n d w (rw other at e) g h)
    ]

    -- The sum of the results' ranks.
    pub total : List (SearchResult F) → ℕ
    total [] = 0
    total (r ∷ rs) = rank r.score + total rs

    pub total-single : (r : SearchResult F) → total (r ∷ []) ≡ rank r.score
    unfolding total
    total-single r = omega arith

    pub total-push :
        (x : SearchResult F) (rs : List (SearchResult F))
        → total (push compute lt total_lt x rs) ≡ rank x.score + total rs
    unfolding total sort_insert
    total-push x [] = refl
    total-push x (r ∷ rs) = ground (arith, total-push x rs)

    pub total-take :
        (k : ℕ) (rs : List (SearchResult F)) (w : SearchResult F)
        → k < length rs
        → worst compute lt total_lt rs ≡ some w
        → total (take k rs) + rank w.score ≤ total rs
    unfolding total
    total-take k [] w h e = absurd (omega arith)
    total-take zero (r ∷ []) w h e = ground (arith, e)
    total-take (suc k) (r ∷ []) w h e = absurd (omega arith)
    total-take zero (r ∷ (s ∷ rs)) w h e = omega (arith, total-take zero (s ∷ rs) w (omega arith) e)
    total-take (suc k) (r ∷ (s ∷ rs)) w h e = omega (arith, total-take k (s ∷ rs) w (omega arith) e)
