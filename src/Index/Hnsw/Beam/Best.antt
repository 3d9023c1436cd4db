-- ===== src/Index/Hnsw/Beam/Best.antt =====
-- The search of a layer does not lose ground: its best result is no farther than the entry point.
use embeddb.Base.{
  ℕ, zero, suc, ◌≡◌, sym, inl, inr, Option, none, some, List, [], ◌∷◌, Bool, true, false,
  if◌then◌else◌, take, length, Bool-cases, ltb, ◌==◌,
}
use embeddb.Base.Assoc.{nat_key, lookup, insert}
use embeddb.Index.{SearchResult}
use embeddb.Index.Flat.{sort_insert}
use embeddb.Index.Hnsw.Run.{done}
use embeddb.Index.Hnsw.Node.{HnswNode, neighbors_at}
use embeddb.Index.Hnsw.Beam.{
  Beam, push, worst, closer, offer, offer_new, offer_seen, explore, expand, stops, search_loop,
  search_layer, search_fuel,
}
use embeddb.Index.Hnsw.Beam.Rank.{Orders, irrefl}

module _ {F : Type 0} (compute : List F → List F → F) (lt total_lt : F → F → Bool)
    (orders : Orders lt total_lt) where
  -- The first result is there, and this score is not less than its score.
  abbrev pub NoFarther : F → List (SearchResult F) → Type 0
  NoFarther d [] = ⊥
  NoFarther d (r ∷ rs) = total_lt d r.score ≡ false

  NoFarther-push :
      (d : F) (x : SearchResult F) (rs : List (SearchResult F))
      → NoFarther d rs
      → NoFarther d (push compute lt total_lt x rs)
  unfolding sort_insert
  NoFarther-push d x [] h = absurd h
  NoFarther-push d x (r ∷ rs) h = elim (Bool-cases (total_lt r.score x.score)) [
    | inl later ↦ rw later h
    | inr here ↦ rw here (orders.order.trans x.score r.score d here h)
  ]

  NoFarther-take :
      (d : F) (k : ℕ) (rs : List (SearchResult F)) → NoFarther d rs → NoFarther d (take (suc k) rs)
  NoFarther-take d k [] h = h
  NoFarther-take d k (r ∷ rs) h = h

  module _ (nodes : List (ℕ × HnswNode F)) (query : List F) (ef layer : ℕ) (d : F) where
    Near : Beam F → Type 0
    Near beam = NoFarther d beam.results

    offer-Near :
        (id : ℕ) (s : F) (beam : Beam F)
        → Near beam
        → Near (offer compute lt total_lt (suc ef) id s beam)
    unfolding offer Near
    offer-Near id s beam h =
        elim (Bool-cases (
          if ltb (length beam.results) (suc ef)
          then true
          else closer compute lt total_lt s (worst compute lt total_lt beam.results))) [
            | inl better ↦ rw better (
                NoFarther-take d ef _
                  (NoFarther-push d (record { id = id; score = s }) beam.results h))
            | inr worse ↦ rw worse h
          ]

    offer_new-Near :
        (id : ℕ) (beam : Beam F) (o : Option (HnswNode F))
        → Near beam
        → Near (offer_new compute lt total_lt nodes query (suc ef) layer id beam o)
    unfolding Near
    offer_new-Near id beam none h = h
    offer_new-Near id beam (some n) h = elim (Bool-cases n.tombstone) [
      | inl dead ↦ rw dead h
      | inr alive ↦ rw alive (
          offer-Near id (compute query n.vector)
            (record beam { visited = insert id (compute query n.vector) beam.visited }) h)
    ]

    offer_seen-Near :
        (id : ℕ) (beam : Beam F) (o : Option F)
        → Near beam
        → Near (offer_seen compute lt total_lt nodes query (suc ef) layer id beam o)
    offer_seen-Near id beam none h = offer_new-Near id beam (lookup id nodes) h
    offer_seen-Near id beam (some s) h = offer-Near id s beam h

    Near-if : (b : Bool) (x y : Beam F) → Near x → Near y → Near (if b then x else y)
    Near-if true x y p q = p
    Near-if false x y p q = q

    explore-Near :
        (curr : ℕ) (ids : List ℕ) (beam : Beam F)
        → Near beam
        → Near (explore compute lt total_lt nodes query (suc ef) layer curr ids beam)
    unfolding explore
    explore-Near curr [] beam h = h
    explore-Near curr (id ∷ ids) beam h =
        explore-Near curr ids _
          (Near-if (id == curr) beam _ h (offer_seen-Near id beam (lookup id beam.visited) h))

    expand-Near :
        (curr : ℕ) (beam : Beam F) (o : Option (HnswNode F))
        → Near beam
        → Near (expand compute lt total_lt nodes query (suc ef) layer curr beam o)
    expand-Near curr beam none h = h
    expand-Near curr beam (some n) h = explore-Near curr (neighbors_at n layer) beam h

    done-eq : (xs rs : List (SearchResult F)) → done xs ≡ done rs → NoFarther d xs → NoFarther d rs
    done-eq xs rs e h = rw (same e) at h
      where
        same : done xs ≡ done rs → xs ≡ rs
        same e = cc

    loop-NoFarther :
        (fuel : ℕ) (visited : List (ℕ × F)) (candidates results rs : List (SearchResult F))
        → NoFarther d results
        → search_loop compute lt total_lt nodes query
            (suc ef)
            layer
            fuel
            (record { visited = visited; candidates = candidates; results = results })
          ≡ done rs
        → NoFarther d rs
    unfolding search_loop Near
    loop-NoFarther zero visited candidates results rs h e = cc
    loop-NoFarther (suc fuel) visited [] results rs h e = done-eq results rs e h
    loop-NoFarther (suc fuel) visited (c ∷ cs) results rs h e =
        elim (Bool-cases (
          stops compute lt total_lt nodes query (suc ef) layer c
            (record { visited = visited; candidates = c ∷ cs; results = results }))) [
              | inl stop ↦ done-eq results rs (rw (stop, search_loop) at e) h
              | inr goes ↦
                  let beam : Beam F =
                    expand compute lt total_lt nodes query (suc ef) layer c.id
                      (record { visited = visited; candidates = cs; results = results })
                      (lookup c.id nodes) in
                  loop-NoFarther fuel beam.visited beam.candidates beam.results rs
                    (expand-Near c.id
                      (record { visited = visited; candidates = cs; results = results })
                      (lookup c.id nodes) h)
                    (rw (goes, search_loop) at e)
            ]

    pub search_layer-NoFarther :
        (entry : ℕ) (n : HnswNode F) (rs : List (SearchResult F))
        → lookup entry nodes ≡ some n
        → d ≡ compute query n.vector
        → search_layer compute lt total_lt nodes query (suc ef) layer entry ≡ done rs
        → NoFarther d rs
    unfolding search_layer
    search_layer-NoFarther entry n rs found score e =
        loop-NoFarther (search_fuel (suc ef) (length nodes)) ((entry, d) ∷ [])
          (record { id = entry; score = d } ∷ []) (record { id = entry; score = d } ∷ []) rs
          (irrefl compute lt total_lt orders d) (rw (found, sym score) at e)
