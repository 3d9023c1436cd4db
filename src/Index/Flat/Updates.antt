-- ===== src/Index/Flat/Updates.antt =====
-- `insert` and `remove` of flat.rs as changes of a map from ids to vectors.
use mathlib.Core.Option
use embeddb.Base.{
  ℕ, zero, suc, Bool, true, false, not, Option, none, some, List, [], ◌∷◌, ◌==◌, ◌≡◌, ◌≢◌, refl, ap,
  ◌∙◌, if◌then◌else◌, length, arith, Bool-cases, Option-cases, ◌⊎◌, inl, inr, ==_refl, ==_ne,
}
use embeddb.Base.Assoc.{nat_key, lookup, Distinct, lookup-insert, insert-Distinct}
use embeddb.Base.Assoc.{insert as assoc_insert}
use embeddb.Base.Outcome.{ok, err}
use embeddb.Index.{dimension_mismatch, vector_not_found}
use embeddb.Index.Flat.{
  FlatIndex, position, find_idx, set_at, last_of, butlast, swap_remove, put, insert, remove,
  remove_at,
}

found_here :
    (b : Bool) (o : Option ℕ) → (if b then some 0 else Option.map suc o) ≡ some 0 → b ≡ true
found_here true o h = refl
found_here false none h = cc
found_here false (some i) h = ground arith

found_none :
    (b : Bool) (o : Option ℕ)
    → (if b then some 0 else Option.map suc o) ≡ none
    → (b ≡ false) × (o ≡ none)
found_none true o h = cc
found_none false none h = (refl, refl)
found_none false (some n) h = cc

found_later :
    (b : Bool) (o : Option ℕ) (i : ℕ)
    → (if b then some 0 else Option.map suc o) ≡ some (suc i)
    → (b ≡ false) × (o ≡ some i)
found_later true o i h = ground arith
found_later false none i h = cc
found_later false (some n) i h = (refl, ground arith)

module _ {F : Type 0} where
  put-suc :
      (id : ℕ) (v : List F) (y : ℕ × List F) (m : List (ℕ × List F)) (o : Option ℕ)
      → put id v (y ∷ m) (Option.map suc o) ≡ y ∷ put id v m o
  unfolding set_at
  put-suc id v y m none = refl
  put-suc id v y m (some i) = refl

  put-insert :
      (id : ℕ) (v : List F) (m : List (ℕ × List F))
      → put id v m (position id m) ≡ assoc_insert id v m
  unfolding position set_at assoc_insert
  put-insert id v [] = refl
  put-insert id v ((vid, w) ∷ m) = elim (Bool-cases (vid == id)) [
    | inl same ↦ rw same refl
    | inr other ↦
        rw other (put-suc id v (vid, w) m (position id m) ∙ ap (◌∷◌ (vid, w)) (put-insert id v m))
  ]

  lookup_swap :
      (j k : ℕ) (v : List F) (x : ℕ × List F) (t : List (ℕ × List F))
      → lookup k (x ∷ t) ≡ none
      → lookup j (x ∷ ((k, v) ∷ t)) ≡ lookup j ((k, v) ∷ (x ∷ t))
  unfolding lookup
  lookup_swap j k v (a, w) t fresh = ground (arith, fresh)

  swap-Distinct :
      (k : ℕ) (v : List F) (x : ℕ × List F) (t : List (ℕ × List F))
      → lookup k (x ∷ t) ≡ none
      → Distinct (x ∷ t)
      → Distinct (x ∷ ((k, v) ∷ t))
  unfolding lookup
  swap-Distinct k v (a, w) t fresh (alone, d) = ground (arith, fresh, alone)

  front :
      (j : ℕ) (k : ℕ) (v : List F) (ys : List (ℕ × List F))
      → Distinct ((k, v) ∷ ys)
      → lookup j (last_of (k, v) ys ∷ butlast (k, v) ys) ≡ lookup j ((k, v) ∷ ys)
  unfolding lookup
  front j k v [] d = refl
  front j k v ((k', v') ∷ ys) (fresh, d) =
      lookup_swap j k v (last_of (k', v') ys) (butlast (k', v') ys) (front k k' v' ys d ∙ fresh)
      ∙ ap (λ r. if k == j then some v else r) (front j k' v' ys d)

  front-Distinct :
      (k : ℕ) (v : List F) (ys : List (ℕ × List F))
      → Distinct ((k, v) ∷ ys)
      → Distinct (last_of (k, v) ys ∷ butlast (k, v) ys)
  front-Distinct k v [] d = d
  front-Distinct k v ((k', v') ∷ ys) (fresh, d) =
      swap-Distinct k v (last_of (k', v') ys) (butlast (k', v') ys) (front k k' v' ys d ∙ fresh)
        (front-Distinct k' v' ys d)

  swap_remove-first :
      (k : ℕ) (v : List F) (m : List (ℕ × List F)) (j : ℕ)
      → Distinct ((k, v) ∷ m)
      → (lookup j (swap_remove 0 ((k, v) ∷ m)) ≡ lookup j m) × Distinct (swap_remove 0 ((k, v) ∷ m))
  unfolding swap_remove
  swap_remove-first k v [] j d = (refl, tt)
  swap_remove-first k v ((k', v') ∷ m) j (fresh, d) = (front j k' v' m d, front-Distinct k' v' m d)

  lookup-swap_remove :
      (id i j : ℕ) (m : List (ℕ × List F))
      → Distinct m
      → position id m ≡ some i
      → (lookup j (swap_remove i m) ≡ (if id == j then none else lookup j m))
        × Distinct (swap_remove i m)
  unfolding position swap_remove lookup
  lookup-swap_remove id i j [] d at = cc
  lookup-swap_remove id zero j ((k, v) ∷ m) (fresh, d) at =
      let head = swap_remove-first k v m j (fresh, d) in
      (head.0 ∙ ground (arith, fresh, found_here (k == id) (position id m) at), head.1)
  lookup-swap_remove id (suc i) j ((k, v) ∷ m) (fresh, d) at =
      let later = found_later (k == id) (position id m) i at in
      let rest = lookup-swap_remove id i j m d later.1 in
      let self = lookup-swap_remove id i k m d later.1 in
      (ground (arith, later.0, rest.0), (ground (arith, later.0, self.0, fresh), rest.1))

  -- Every id has one vector, of the index's dimension.
  abbrev pub OfDimension : ℕ → List (ℕ × List F) → Type 0
  OfDimension n [] = Unit
  OfDimension n ((id, v) ∷ m) = (length v ≡ n) × OfDimension n m

  pub record WellFormed (index : FlatIndex F) : Type 0 where
    pub distinct : Distinct index.vectors
    pub dimensions : OfDimension index.dimension index.vectors

  abbrev pub vector_of : FlatIndex F → ℕ → Option (List F)
  vector_of index id = lookup id index.vectors

  insert-fitting :
      (index : FlatIndex F) (id : ℕ) (v : List F)
      → length v ≡ index.dimension
      → insert index id v ≡ (ok tt, record index { vectors = assoc_insert id v index.vectors })
  unfolding insert find_idx
  insert-fitting index id v fit =
      rw (fit, ==_refl index.dimension, put-insert id v index.vectors) refl

  insert-OfDimension :
      (n id : ℕ) (v : List F) (m : List (ℕ × List F))
      → length v ≡ n
      → OfDimension n m
      → OfDimension n (assoc_insert id v m)
  unfolding assoc_insert
  insert-OfDimension n id v [] fit all = (fit, tt)
  insert-OfDimension n id v ((k, w) ∷ m) fit (first, rest) =
      ground (arith, fit, first, rest, insert-OfDimension n id v m fit rest)

  insert-refused :
      (index : FlatIndex F) (id : ℕ) (v : List F)
      → length v ≢ index.dimension
      → insert index id v ≡ (err (dimension_mismatch index.dimension (length v)), index)
  unfolding insert
  insert-refused index id v ne = rw (==_ne (length v) index.dimension ne) refl

  same_dimension :
      (index : FlatIndex F) (v : List F)
      → (length v ≡ index.dimension) ⊎ (length v ≢ index.dimension)
  same_dimension index v = ground arith

  pub insert-dimension :
      (index : FlatIndex F) (id : ℕ) (v : List F)
      → (insert index id v).1.dimension ≡ index.dimension
  unfolding insert
  insert-dimension index id v = elim (Bool-cases (not (length v == index.dimension))) [
    | inl other ↦ rw other refl
    | inr fit ↦ rw fit refl
  ]

  -- insert keeps one vector per id and all vectors of the index's dimension, whether it stores or
  -- refuses.
  pub insert-WellFormed :
      (index : FlatIndex F) (id : ℕ) (v : List F)
      → WellFormed index
      → WellFormed (insert index id v).1
  insert-WellFormed index id v wf = elim (same_dimension index v) [
    | inl fit ↦ rw (insert-fitting index id v fit) (record {
      distinct = insert-Distinct id v index.vectors wf.distinct;
      dimensions = insert-OfDimension index.dimension id v index.vectors fit wf.dimensions;
    })
    | inr ne ↦ rw (insert-refused index id v ne) wf
  ]

  last-OfDimension :
      (n k : ℕ) (v : List F) (ys : List (ℕ × List F))
      → OfDimension n ((k, v) ∷ ys)
      → OfDimension n (last_of (k, v) ys ∷ butlast (k, v) ys)
  last-OfDimension n k v [] all = all
  last-OfDimension n k v ((k', v') ∷ ys) (first, rest) =
      let moved = last-OfDimension n k' v' ys rest in (moved.0, (first, moved.1))

  swap_remove-OfDimension :
      (n i : ℕ) (m : List (ℕ × List F)) → OfDimension n m → OfDimension n (swap_remove i m)
  unfolding swap_remove
  swap_remove-OfDimension n i [] all = tt
  swap_remove-OfDimension n zero (x ∷ []) all = tt
  swap_remove-OfDimension n zero (x ∷ ((k, v) ∷ ys)) (first, rest) = last-OfDimension n k v ys rest
  swap_remove-OfDimension n (suc i) ((k, v) ∷ ys) (first, rest) =
      (first, swap_remove-OfDimension n i ys rest)

  absent : (id : ℕ) (m : List (ℕ × List F)) → position id m ≡ none → lookup id m ≡ none
  unfolding position lookup
  absent id [] h = refl
  absent id ((k, v) ∷ m) h =
      let later = found_none (k == id) (position id m) h in
      ground (arith, later.0, absent id m later.1)

  present :
      (id i : ℕ) (m : List (ℕ × List F))
      → position id m ≡ some i
      → (v : List F) × (lookup id m ≡ some v)
  unfolding position lookup
  present id i [] h = cc
  present id i ((k, v) ∷ m) h = elim (Bool-cases (k == id)) [
    | inl same ↦ (v, rw same refl)
    | inr other ↦ elim (Option-cases (position id m)) [
      | inl gone ↦ ground (arith, other, gone)
      | inr (n, at) ↦ let later = present id n m at in (later.0, rw other later.1)
    ]
  ]

  remove-idx :
      (index : FlatIndex F) (id : ℕ) (o : Option ℕ)
      → position id index.vectors ≡ o
      → remove index id ≡ remove_at index id o
  unfolding remove find_idx
  remove-idx index id o h = ap (remove_at index id) h

  -- A vector of the dimension is stored under its id, in place of the one there, and every other id
  -- keeps its vector.
  pub insert-view :
      (index : FlatIndex F) (id : ℕ) (v : List F) (j : ℕ)
      → length v ≡ index.dimension
      → ((insert index id v).0 ≡ ok tt)
        × (vector_of (insert index id v).1 j ≡ (if id == j then some v else vector_of index j))
  insert-view index id v j fit =
      rw (insert-fitting index id v fit) (refl, lookup-insert id j v index.vectors)

  -- In a well-formed index, remove of a missing id is refused and changes nothing; of an id that is
  -- there it returns, takes out that id only, and the index stays well-formed.
  pub remove-view :
      (index : FlatIndex F) (id : ℕ)
      → WellFormed index
      → ((vector_of index id ≡ none) × (remove index id ≡ (err (vector_not_found id), index)))
        ⊎ (((v : List F) × (vector_of index id ≡ some v))
            × ((remove index id).0 ≡ ok tt)
            × ((j : ℕ)
                → vector_of (remove index id).1 j ≡ (if id == j then none else vector_of index j))
            × WellFormed (remove index id).1)
  remove-view index id wf = elim (Option-cases (position id index.vectors)) [
    | inl gone ↦ inl (absent id index.vectors gone, remove-idx index id none gone)
    | inr (i, at) ↦ inr (
        rw (remove-idx index id (some i) at) (
          present id i index.vectors at,
          refl,
          (λ j. (lookup-swap_remove id i j index.vectors wf.distinct at).0),
          record {
            distinct = (lookup-swap_remove id i 0 index.vectors wf.distinct at).1;
            dimensions = swap_remove-OfDimension index.dimension i index.vectors wf.dimensions;
          },
        ))
  ]
