-- ===== src/Index/Hnsw/Beam/Loop.antt =====
-- The search loop ends, and it answers with scores of nodes in ascending order.
use embeddb.Base.{
  ℕ, zero, suc, ◌+◌, ◌-◌, ◌*◌, ◌≤◌, ◌<◌, ◌≡◌, refl, ap, sym, ◌∙◌, subst, ==_iff, ◌⊎◌, inl, inr,
  Bool, true, false, Option, none, some, List, [], ◌∷◌, ◌==◌, if◌then◌else◌, length, arith,
  Bool-cases, max,
}
use embeddb.Base.Assoc.{nat_key, lookup, insert, lookup-insert}
use embeddb.Index.{SearchResult}
use embeddb.Index.Flat.Search.{Sorted}
use embeddb.Index.Hnsw.Run.{Run, done}
use embeddb.Index.Hnsw.Node.{HnswNode, neighbors_at}
use embeddb.Index.Hnsw.Beam.{
  Beam, offer_new, offer_seen, explore, expand, stops, without_first, search_loop, first_beam,
  search_layer, search_fuel,
}
use embeddb.Index.Hnsw.Beam.Rank.{Orders, rank_in, total-single, rank_in-le}
use embeddb.Index.Hnsw.Beam.Offers.{AllScored, Scored, Sound, Steps, measure, offer-Steps}

module _ {F : Type 0} (compute : List F → List F → F) (lt total_lt : F → F → Bool)
    (orders : Orders lt total_lt) (nodes : List (ℕ × HnswNode F)) (query : List F)
    (ef layer : ℕ) where
  abbrev BeamSound : Beam F → Type 0
  BeamSound = Sound compute lt total_lt orders nodes query ef

  abbrev BeamSteps : Beam F → Beam F → Type 0
  BeamSteps = Steps compute lt total_lt orders nodes query ef

  abbrev beam_measure : Beam F → ℕ
  beam_measure = measure compute lt total_lt orders nodes query ef

  visited_new :
      (visited : List (ℕ × F)) (id : ℕ) (n : HnswNode F)
      → lookup id nodes ≡ some n
      → ((j : ℕ) (d : F)
          → lookup j visited ≡ some d
          → Scored compute lt total_lt orders nodes query j d)
      → (j : ℕ) (d : F) → lookup j (insert id (compute query n.vector) visited) ≡ some d
      → Scored compute lt total_lt orders nodes query j d
  visited_new visited id n e old j d h = elim (Bool-cases (id == j)) [
    | inl same ↦ (
      n,
      rw (sym ((==_iff id j).0 same)) e,
      cc (rw (lookup-insert id j (compute query n.vector) visited, same) at h),
    )
    | inr other ↦ old j d (rw (lookup-insert id j (compute query n.vector) visited, other) at h)
  ]

  abbrev seen : Beam F → ℕ → HnswNode F → Beam F
  seen beam id n = record beam { visited = insert id (compute query n.vector) beam.visited }

  seen_Sound :
      (beam : Beam F) (id : ℕ) (n : HnswNode F)
      → lookup id nodes ≡ some n
      → BeamSound beam
      → BeamSound (seen beam id n)
  seen_Sound beam id n e sound = record {
    visited = λ j d h. visited_new beam.visited id n e sound.visited j d h;
    candidates = sound.candidates;
    results = sound.results;
    sorted = sound.sorted;
    bounded = sound.bounded;
  }

  offer_new-Steps :
      (beam : Beam F) (id : ℕ) (o : Option (HnswNode F))
      → lookup id nodes ≡ o
      → BeamSound beam
      → BeamSteps beam (offer_new compute lt total_lt nodes query ef layer id beam o)
  offer_new-Steps beam id none e sound = (sound, omega arith)
  offer_new-Steps beam id (some n) e sound = elim (Bool-cases n.tombstone) [
    | inl dead ↦ rw dead (sound, omega arith)
    | inr alive ↦ rw alive (
        offer-Steps compute lt total_lt orders nodes query ef (seen beam id n) id
          (compute query n.vector) (seen_Sound beam id n e sound) (n, e, refl))
  ]

  offer_seen-Steps :
      (beam : Beam F) (id : ℕ) (o : Option F)
      → lookup id beam.visited ≡ o
      → BeamSound beam
      → BeamSteps beam (offer_seen compute lt total_lt nodes query ef layer id beam o)
  offer_seen-Steps beam id none e sound = offer_new-Steps beam id (lookup id nodes) refl sound
  offer_seen-Steps beam id (some d) e sound =
      offer-Steps compute lt total_lt orders nodes query ef beam id d sound (sound.visited id d e)

  Steps_trans : (a b c : Beam F) → BeamSteps a b → BeamSteps b c → BeamSteps a c
  Steps_trans a b c (s, h) (t, k) = (t, omega (arith, h, k))

  Steps_if :
      (a : Beam F) (b : Bool) (x y : Beam F)
      → BeamSteps a x
      → BeamSteps a y
      → BeamSteps a (if b then x else y)
  Steps_if a true x y p q = p
  Steps_if a false x y p q = q

  explore-Steps :
      (curr : ℕ) (ids : List ℕ) (beam : Beam F)
      → BeamSound beam
      → BeamSteps beam (explore compute lt total_lt nodes query ef layer curr ids beam)
  unfolding explore
  explore-Steps curr [] beam sound = (sound, omega arith)
  explore-Steps curr (id ∷ ids) beam sound =
      Steps_trans beam next _ first (explore-Steps curr ids next first.0)
    where
      next : Beam F
      next =
          if id == curr
          then beam
          else offer_seen compute lt total_lt nodes query ef layer id beam (lookup id beam.visited)

      first : BeamSteps beam next
      first =
          Steps_if beam (id == curr) beam
            (offer_seen compute lt total_lt nodes query ef layer id beam (lookup id beam.visited))
            (sound, omega arith) (offer_seen-Steps beam id (lookup id beam.visited) refl sound)

  expand-Steps :
      (curr : ℕ) (beam : Beam F) (o : Option (HnswNode F))
      → BeamSound beam
      → BeamSteps beam (expand compute lt total_lt nodes query ef layer curr beam o)
  expand-Steps curr beam none sound = (sound, omega arith)
  expand-Steps curr beam (some n) sound = explore-Steps curr (neighbors_at n layer) beam sound

  -- What a search answers with.
  pub record Answers (rs : List (SearchResult F)) : Type 0 where
    pub scored : AllScored compute lt total_lt orders nodes query rs
    pub sorted : Sorted compute total_lt rs
    pub bounded : length rs ≤ max ef 1

  round : ℕ → Beam F → Run (List (SearchResult F))
  round = search_loop compute lt total_lt nodes query ef layer

  round-empty :
      (fuel : ℕ) (beam : Beam F) → beam.candidates ≡ [] → round (suc fuel) beam ≡ done beam.results
  unfolding round search_loop
  round-empty fuel beam e = simp (e, search_loop)

  next_beam : Beam F → SearchResult F → List (SearchResult F) → Beam F
  next_beam beam c cs =
      expand compute lt total_lt nodes query ef layer c.id (without_first beam cs)
        (lookup c.id nodes)

  round-stops :
      (fuel : ℕ) (beam : Beam F) (c : SearchResult F) (cs : List (SearchResult F))
      → beam.candidates ≡ c ∷ cs
      → stops compute lt total_lt nodes query ef layer c beam ≡ true
      → round (suc fuel) beam ≡ done beam.results
  unfolding round search_loop
  round-stops fuel beam c cs e stop = simp (e, stop, search_loop)

  round-goes :
      (fuel : ℕ) (beam : Beam F) (c : SearchResult F) (cs : List (SearchResult F))
      → beam.candidates ≡ c ∷ cs
      → stops compute lt total_lt nodes query ef layer c beam ≡ false
      → round (suc fuel) beam ≡ round fuel (next_beam beam c cs)
  unfolding round search_loop next_beam
  round-goes fuel beam c cs e goes = simp (e, goes, search_loop)

  candidate_cases :
      (cs : List (SearchResult F))
      → (cs ≡ []) ⊎ ((c : SearchResult F) × (rest : List (SearchResult F)) × (cs ≡ c ∷ rest))
  candidate_cases [] = inl refl
  candidate_cases (c ∷ rest) = inr (c, rest, refl)

  answer : (beam : Beam F) → BeamSound beam → Answers beam.results
  answer beam sound = record {
    scored = sound.results;
    sorted = sound.sorted;
    bounded = sound.bounded;
  }

  next-Steps :
      (beam : Beam F) (c : SearchResult F) (cs : List (SearchResult F))
      → beam.candidates ≡ c ∷ cs
      → BeamSound beam
      → BeamSound (next_beam beam c cs) × (beam_measure (next_beam beam c cs) < beam_measure beam)
  unfolding next_beam
  next-Steps beam c cs e sound =
      let s = expand-Steps c.id (without_first beam cs) (lookup c.id nodes) popped in
      (s.0, omega (arith, s.1, ap length e))
    where
      popped : BeamSound (without_first beam cs)
      popped = record {
        visited = sound.visited;
        candidates =
            (subst (AllScored compute lt total_lt orders nodes query) e sound.candidates).1;
        results = sound.results;
        sorted = sound.sorted;
        bounded = sound.bounded;
      }

  loop_ends :
      (fuel : ℕ) (beam : Beam F)
      → BeamSound beam
      → beam_measure beam < fuel
      → (rs : List (SearchResult F)) × (round fuel beam ≡ done rs) × Answers rs
  loop_ends zero beam sound enough = absurd (omega arith)
  loop_ends (suc fuel) beam sound enough = elim (candidate_cases beam.candidates) [
    | inl e ↦ (beam.results, round-empty fuel beam e, answer beam sound)
    | inr (c, cs, e) ↦ elim (Bool-cases (stops compute lt total_lt nodes query ef layer c beam)) [
      | inl stop ↦ (beam.results, round-stops fuel beam c cs e stop, answer beam sound)
      | inr goes ↦
          let next = next-Steps beam c cs e sound in
          let (rs, ends, fine) =
            loop_ends fuel (next_beam beam c cs) next.0 (omega (arith, next.1)) in
          (rs, round-goes fuel beam c cs e goes ∙ ends, fine)
    ]
  ]

  abbrev layer_search : ℕ → Run (List (SearchResult F))
  layer_search = search_layer compute lt total_lt nodes query ef layer

  first_visited :
      (entry : ℕ) (d : F)
      → Scored compute lt total_lt orders nodes query entry d
      → (j : ℕ) (c : F) → lookup j ((entry, d) ∷ []) ≡ some c
      → Scored compute lt total_lt orders nodes query j c
  unfolding lookup
  first_visited entry d s j c h = elim (Bool-cases (entry == j)) [
    | inl same ↦
        subst (λ i. Scored compute lt total_lt orders nodes query i c) ((==_iff entry j).0 same)
          (subst (Scored compute lt total_lt orders nodes query entry) (cc (rw same at h)) s)
    | inr other ↦ cc (rw other at h)
  ]

  first-Sound :
      (entry : ℕ) (d : F)
      → Scored compute lt total_lt orders nodes query entry d
      → BeamSound (first_beam entry d)
  first-Sound entry d s = record {
    visited = first_visited entry d s;
    candidates = (s, tt);
    results = (s, tt);
    sorted = (tt, tt);
    bounded = omega arith;
  }

  first-measure :
      (entry : ℕ) (d : F) → beam_measure (first_beam entry d) < search_fuel ef (length nodes)
  first-measure entry d =
      rw (total-single compute lt total_lt orders nodes query (record { id = entry; score = d })) (
        step ef (length nodes) (rank_in compute lt total_lt orders nodes query nodes d)
          (rank_in-le compute lt total_lt orders nodes query nodes d))
    where
      less : (k n : ℕ) → (k - 1) * (n + 1) ≤ k * (n + 1)
      less k n = grind arith

      step : (k n r : ℕ) → r ≤ n → 1 + 2 * ((k - 1) * (n + 1) + r) < 2 * (k * (n + 1) + n) + 2
      step k n r h = omega (arith, less k n)

  -- From an entry point that is a node the search of a layer returns, whatever the layer.
  pub search_layer-Answers :
      (entry : ℕ) (n : HnswNode F)
      → lookup entry nodes ≡ some n
      → (rs : List (SearchResult F)) × (search_layer compute lt total_lt nodes query ef layer entry
          ≡ done rs)
        × Answers rs
  unfolding search_layer round
  search_layer-Answers entry n e =
      let s : Scored compute lt total_lt orders nodes query entry (compute query n.vector) =
        (n, e, refl) in
      rw e (
        loop_ends (search_fuel ef (length nodes)) (first_beam entry (compute query n.vector))
          (first-Sound entry (compute query n.vector) s)
          (first-measure entry (compute query n.vector)))
