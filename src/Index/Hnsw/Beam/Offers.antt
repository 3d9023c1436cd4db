-- ===== src/Index/Hnsw/Beam/Offers.antt =====
-- A neighbour that is offered to the beam keeps its scores those of nodes, its results in ascending
-- order, and does not raise the bound on the rounds that are left.
use embeddb.Base.{
  ℕ, zero, suc, ◌+◌, ◌-◌, ◌*◌, ◌≤◌, ◌<◌, ◌≡◌, inl, inr, Bool, true, some, List, [], ◌∷◌, ltb,
  length, take, arith, Bool-cases, take_all, length-take, Option-cases, max,
}
use embeddb.Base.Assoc.{nat_key, lookup}
use embeddb.Index.{SearchResult}
use embeddb.Index.Flat.{sort_insert}
use embeddb.Index.Flat.Search.{length-sort_insert, Sorted, AtLeast, sort_insert-Sorted}
use embeddb.Index.Hnsw.Node.{HnswNode}
use embeddb.Index.Hnsw.Beam.{Beam, push, worst, offer}
use embeddb.Index.Hnsw.Beam.Rank.{
  Orders, NodeScore, rank, total, total-push, total-take, rank_in-le, rank_in-lt, worst-push,
}

module _ {F : Type 0} (compute : List F → List F → F) (lt total_lt : F → F → Bool)
    (orders : Orders lt total_lt) (nodes : List (ℕ × HnswNode F)) (query : List F) where
  abbrev pub Scored : ℕ → F → Type 0
  Scored = NodeScore compute lt total_lt orders nodes query

  -- Every result is a node of the graph with its score.
  abbrev pub AllScored : List (SearchResult F) → Type 0
  AllScored [] = Unit
  AllScored (r ∷ rs) = NodeScore compute lt total_lt orders nodes query r.id r.score × AllScored rs

  AllScored-push :
      (x : SearchResult F) (rs : List (SearchResult F))
      → Scored x.id x.score
      → AllScored rs
      → AllScored (push compute lt total_lt x rs)
  unfolding sort_insert
  AllScored-push x [] s all = (s, tt)
  AllScored-push x (r ∷ rs) s (first, rest) = elim (Bool-cases (total_lt r.score x.score)) [
    | inl later ↦ rw later (first, AllScored-push x rs s rest)
    | inr here ↦ rw here (s, (first, rest))
  ]

  pub AllScored-take : (k : ℕ) (rs : List (SearchResult F)) → AllScored rs → AllScored (take k rs)
  AllScored-take zero rs all = tt
  AllScored-take (suc k) [] all = tt
  AllScored-take (suc k) (r ∷ rs) (first, rest) = (first, AllScored-take k rs rest)

  AtLeast-take :
      (s : F) (k : ℕ) (rs : List (SearchResult F))
      → AtLeast compute total_lt s rs
      → AtLeast compute total_lt s (take k rs)
  AtLeast-take s zero rs all = tt
  AtLeast-take s (suc k) [] all = tt
  AtLeast-take s (suc k) (r ∷ rs) (first, rest) = (first, AtLeast-take s k rs rest)

  pub Sorted-take :
      (k : ℕ) (rs : List (SearchResult F))
      → Sorted compute total_lt rs
      → Sorted compute total_lt (take k rs)
  Sorted-take zero rs all = tt
  Sorted-take (suc k) [] all = tt
  Sorted-take (suc k) (r ∷ rs) (first, rest) =
      (AtLeast-take r.score k rs first, Sorted-take k rs rest)

  abbrev pub rank_of : F → ℕ
  rank_of = rank compute lt total_lt orders nodes query

  abbrev pub sum_of : List (SearchResult F) → ℕ
  sum_of = total compute lt total_lt orders nodes query

  module _ (ef : ℕ) where
    abbrev pub potential : List (SearchResult F) → ℕ
    potential rs = (ef - length rs) * (length nodes + 1) + sum_of rs

    added : SearchResult F → List (SearchResult F) → List (SearchResult F)
    added x rs = take ef (push compute lt total_lt x rs)

    added-room :
        (x : SearchResult F) (rs : List (SearchResult F))
        → length rs < ef
        → potential (added x rs) < potential rs
    unfolding added
    added-room x rs room =
        rw
          (
            take_all ef (push compute lt total_lt x rs) (omega (arith, longer)),
            longer,
            total-push compute lt total_lt orders nodes query x rs,
          )
          (step (ef - length rs) (ef - suc (length rs)) (length nodes) (rank_of x.score) (sum_of rs)
            (omega arith) (rank_in-le compute lt total_lt orders nodes query nodes x.score))
      where
        longer : length (push compute lt total_lt x rs) ≡ suc (length rs)
        longer = length-sort_insert compute total_lt x rs

        step : (a b n r t : ℕ) → a ≡ suc b → r ≤ n → b * (n + 1) + (r + t) < a * (n + 1) + t
        step a b n r t e h = grind arith

    added-better :
        (x : SearchResult F) (rs : List (SearchResult F)) (w : SearchResult F)
        → ef ≤ length rs
        → worst compute lt total_lt rs ≡ some w
        → Scored x.id x.score
        → total_lt x.score w.score ≡ true
        → potential (added x rs) < potential rs
    unfolding added
    added-better x rs w full e (n, there, scored) less =
        step (ef - length (added x rs)) (ef - length rs) (length nodes) (sum_of (added x rs))
          (sum_of rs) (omega (arith, length-take ef (push compute lt total_lt x rs), longer))
          (omega arith)
          (omega (
            arith,
            total-take compute lt total_lt orders nodes query ef (push compute lt total_lt x rs) w
                (omega (arith, longer)) (worst-push compute lt total_lt orders x rs w e less),
            total-push compute lt total_lt orders nodes query x rs,
            rank_in-lt compute lt total_lt orders nodes query nodes x.id n x.score w.score there
                scored less,
          ))
      where
        longer : length (push compute lt total_lt x rs) ≡ suc (length rs)
        longer = length-sort_insert compute total_lt x rs

        step : (a b n t' t : ℕ) → a ≡ 0 → b ≡ 0 → t' < t → a * (n + 1) + t' < b * (n + 1) + t
        step a b n t' t p q h = grind arith

    -- What holds of the loop's variables.
    pub record Sound (beam : Beam F) : Type 0 where
      pub visited : (id : ℕ) (d : F) → lookup id beam.visited ≡ some d → Scored id d
      pub candidates : AllScored beam.candidates
      pub results : AllScored beam.results
      pub sorted : Sorted compute total_lt beam.results
      pub bounded : length beam.results ≤ max ef 1

    abbrev pub measure : Beam F → ℕ
    measure beam = length beam.candidates + 2 * potential beam.results

    abbrev pub Steps : Beam F → Beam F → Type 0
    Steps before after = Sound after × (measure after ≤ measure before)

    accepted :
        (beam : Beam F) (id : ℕ) (d : F)
        → Sound beam
        → Scored id d
        → potential (added (record { id = id; score = d }) beam.results) < potential beam.results
        → Steps beam (record beam {
          candidates = push compute lt total_lt (record { id = id; score = d }) beam.candidates;
          results = take ef (push compute lt total_lt (record { id = id; score = d }) beam.results);
        })
    unfolding added
    accepted beam id d sound s less = (
      record {
        visited = sound.visited;
        candidates = AllScored-push x beam.candidates s sound.candidates;
        results =
            AllScored-take ef (push compute lt total_lt x beam.results)
              (AllScored-push x beam.results s sound.results);
        sorted =
            Sorted-take ef (push compute lt total_lt x beam.results)
              (sort_insert-Sorted compute total_lt orders.order x beam.results sound.sorted);
        bounded = omega (arith, length-take ef (push compute lt total_lt x beam.results));
      },
      omega (arith, less, length-sort_insert compute total_lt x beam.candidates),
    )
      where
        x : SearchResult F
        x = record { id = id; score = d }

    pub offer-Steps :
        (beam : Beam F) (id : ℕ) (d : F)
        → Sound beam
        → Scored id d
        → Steps beam (offer compute lt total_lt ef id d beam)
    unfolding offer
    offer-Steps beam id d sound s = elim (Bool-cases (ltb (length beam.results) ef)) [
      | inl room ↦ rw room (
          accepted beam id d sound s
            (added-room (record { id = id; score = d }) beam.results (ground arith)))
      | inr full ↦ elim (Option-cases (worst compute lt total_lt beam.results)) [
        | inl empty ↦ rw (full, empty) (sound, omega arith)
        | inr (w, e) ↦ elim (Bool-cases (lt d w.score)) [
          | inl less ↦
              rw (full, e, less)
                (accepted beam id d sound s (
                  added-better (record { id = id; score = d }) beam.results w (ground arith) e s
                    (orders.within d w.score less)))
          | inr not_less ↦ rw (full, e, not_less) (sound, omega arith)
        ]
      ]
    ]
