-- ===== src/Metadata/Filter.antt =====
-- crates/vexra-metadata/src/filter.rs: filters and their evaluation. The operations of serde_json
-- values, the `<` of f64 and `str::contains` are the fields of `JsonOps`.
use Prim.Native.String.{String}
use embeddb.Base.{
  ◌≡◌, refl, ap, ◌∙◌, ◌⊎◌, ◌↔◌, inl, inr, Bool, true, false, ◌&&◌, ◌||◌, Option, none, some, List,
  [], ◌∷◌,
}
use embeddb.Base.Assoc.{string_key}

-- `F` is f64.
pub record JsonOps (J F : Type 0) : Type 0 where
  pub field_of : J → String → Option J
  pub as_f64 : J → Option F
  pub as_str : J → Option String
  pub json_eq : J → J → Bool
  pub lt : F → F → Bool
  pub str_contains : String → String → Bool

pub data Filter (J F : Type 0) : Type 0 where
  equals : String → J → Filter J F
  greater_than : String → F → Filter J F
  less_than : String → F → Filter J F
  in_values : String → List String → Filter J F
  contains : String → String → Filter J F
  and_both : Filter J F → Filter J F → Filter J F
  or_either : Filter J F → Filter J F → Filter J F

-- `Option::and_then` and `Option::is_some_and`.
abbrev pub and_then : {A B : Type 0} → Option A → (A → Option B) → Option B
and_then none f = none
and_then (some a) f = f a

abbrev pub is_some_and : {A : Type 0} → Option A → (A → Bool) → Bool
is_some_and none p = false
is_some_and (some a) p = p a

abbrev pub mem_values : String → List String → Bool
mem_values s [] = false
mem_values s (v ∷ vs) = string_key.beq s v || mem_values s vs

module _ {J F : Type 0} (ops : JsonOps J F) where
  unfoldable pub evaluate : Filter J F → J → Bool
  evaluate (equals field value) metadata =
      is_some_and (ops.field_of metadata field) (λ v. ops.json_eq v value)
  evaluate (greater_than field value) metadata =
      is_some_and (and_then (ops.field_of metadata field) ops.as_f64) (λ v. ops.lt value v)
  evaluate (less_than field value) metadata =
      is_some_and (and_then (ops.field_of metadata field) ops.as_f64) (λ v. ops.lt v value)
  evaluate (in_values field values) metadata =
      is_some_and (and_then (ops.field_of metadata field) ops.as_str) (λ s. mem_values s values)
  evaluate (contains field value) metadata =
      is_some_and (and_then (ops.field_of metadata field) ops.as_str)
        (λ s. ops.str_contains s value)
  evaluate (and_both left right) metadata = evaluate left metadata && evaluate right metadata
  evaluate (or_either left right) metadata = evaluate left metadata || evaluate right metadata

  -- What a filter says, without the evaluation.
  abbrev pub OneOf : String → List String → Type 0
  OneOf s [] = ⊥
  OneOf s (v ∷ vs) = (s ≡ v) ⊎ OneOf s vs

  abbrev pub Holds : Filter J F → J → Type 0
  Holds (equals field value) metadata = ops.field_of metadata field ≡ some value
  Holds (greater_than field value) metadata =
      (v : J) × (x : F) × (ops.field_of metadata field ≡ some v)
      × (ops.as_f64 v ≡ some x)
      × (ops.lt value x ≡ true)
  Holds (less_than field value) metadata =
      (v : J) × (x : F) × (ops.field_of metadata field ≡ some v)
      × (ops.as_f64 v ≡ some x)
      × (ops.lt x value ≡ true)
  Holds (in_values field values) metadata =
      (v : J) × (s : String) × (ops.field_of metadata field ≡ some v)
      × (ops.as_str v ≡ some s)
      × OneOf s values
  Holds (contains field value) metadata =
      (v : J) × (s : String) × (ops.field_of metadata field ≡ some v)
      × (ops.as_str v ≡ some s)
      × (ops.str_contains s value ≡ true)
  Holds (and_both left right) metadata = Holds left metadata × Holds right metadata
  Holds (or_either left right) metadata = Holds left metadata ⊎ Holds right metadata

found :
    {A B : Type 0} (f : A → Option B) (p : B → Bool) (a : A) (x : Option B)
    → f a ≡ x
    → is_some_and x p ≡ true
    → (c : A) × (b : B) × (some a ≡ some c) × (f c ≡ some b) × (p b ≡ true)
found f p a none e h = cc
found f p a (some b) e h = (a, b, refl, e, h)

-- A value of the field, taken apart by `and_then` and tested.
taken :
    {A B : Type 0} (o : Option A) (f : A → Option B) (p : B → Bool)
    → is_some_and (and_then o f) p ≡ true
    → (a : A) × (b : B) × (o ≡ some a) × (f a ≡ some b) × (p b ≡ true)
taken none f p h = cc
taken (some a) f p h = found f p a (f a) refl h

put_back :
    {A B : Type 0} (o : Option A) (f : A → Option B) (p : B → Bool) (a : A) (b : B)
    → o ≡ some a
    → f a ≡ some b
    → p b ≡ true
    → is_some_and (and_then o f) p ≡ true
put_back o f p a b e g h = rw (e, g) h

tested :
    {A : Type 0} (o : Option A) (p : A → Bool)
    → is_some_and o p ≡ true
    → (a : A) × (o ≡ some a) × (p a ≡ true)
tested none p h = cc
tested (some a) p h = (a, refl, h)

and-both : (a b : Bool) → (a && b) ≡ true → (a ≡ true) × (b ≡ true)
and-both true b h = (refl, h)
and-both false b h = cc

or-either : (a b : Bool) → (a || b) ≡ true → (a ≡ true) ⊎ (b ≡ true)
or-either true b h = inl refl
or-either false b h = inr h

or-right : (a b : Bool) → b ≡ true → (a || b) ≡ true
or-right true b h = refl
or-right false b h = h

module _ {J F : Type 0} (ops : JsonOps J F) where
  mem-OneOf : (s : String) (vs : List String) → mem_values s vs ≡ true → OneOf ops s vs
  mem-OneOf s [] h = cc
  mem-OneOf s (v ∷ vs) h = elim (or-either (string_key.beq s v) (mem_values s vs) h) [
    | inl same ↦ inl ((string_key.beq_iff s v).0 same)
    | inr later ↦ inr (mem-OneOf s vs later)
  ]

  OneOf-mem : (s : String) (vs : List String) → OneOf ops s vs → mem_values s vs ≡ true
  OneOf-mem s [] none_of = absurd none_of
  OneOf-mem s (v ∷ vs) (inl same) = rw ((string_key.beq_iff s v).1 same) refl
  OneOf-mem s (v ∷ vs) (inr later) =
      or-right (string_key.beq s v) (mem_values s vs) (OneOf-mem s vs later)

  module _ (json_iff : (a b : J) → (ops.json_eq a b ≡ true) ↔ (a ≡ b)) where
    evaluate-Holds :
        (f : Filter J F) (metadata : J) → evaluate ops f metadata ≡ true → Holds ops f metadata
    unfolding evaluate
    evaluate-Holds (equals field value) m h =
        let t = tested (ops.field_of m field) (λ v. ops.json_eq v value) h in
        t.1 ∙ ap some ((json_iff t.0 value).0 t.2)
    evaluate-Holds (greater_than field value) m h =
        taken (ops.field_of m field) ops.as_f64 (λ v. ops.lt value v) h
    evaluate-Holds (less_than field value) m h =
        taken (ops.field_of m field) ops.as_f64 (λ v. ops.lt v value) h
    evaluate-Holds (in_values field values) m h =
        let t = taken (ops.field_of m field) ops.as_str (λ s. mem_values s values) h in
        (t.0, t.1, t.2, t.3, mem-OneOf t.1 values t.4)
    evaluate-Holds (contains field value) m h =
        taken (ops.field_of m field) ops.as_str (λ s. ops.str_contains s value) h
    evaluate-Holds (and_both left right) m h =
        let t = and-both (evaluate ops left m) (evaluate ops right m) h in
        (evaluate-Holds left m t.0, evaluate-Holds right m t.1)
    evaluate-Holds (or_either left right) m h =
        elim (or-either (evaluate ops left m) (evaluate ops right m) h) [
          | inl l ↦ inl (evaluate-Holds left m l)
          | inr r ↦ inr (evaluate-Holds right m r)
        ]

    Holds-evaluate :
        (f : Filter J F) (metadata : J) → Holds ops f metadata → evaluate ops f metadata ≡ true
    unfolding evaluate
    Holds-evaluate (equals field value) m h = rw h ((json_iff value value).1 refl)
    Holds-evaluate (greater_than field value) m (v, x, e, g, h) =
        put_back (ops.field_of m field) ops.as_f64 (λ y. ops.lt value y) v x e g h
    Holds-evaluate (less_than field value) m (v, x, e, g, h) =
        put_back (ops.field_of m field) ops.as_f64 (λ y. ops.lt y value) v x e g h
    Holds-evaluate (in_values field values) m (v, s, e, g, h) =
        put_back (ops.field_of m field) ops.as_str (λ t. mem_values t values) v s e g
          (OneOf-mem s values h)
    Holds-evaluate (contains field value) m (v, s, e, g, h) =
        put_back (ops.field_of m field) ops.as_str (λ t. ops.str_contains t value) v s e g h
    Holds-evaluate (and_both left right) m (l, r) =
        rw (Holds-evaluate left m l) (Holds-evaluate right m r)
    Holds-evaluate (or_either left right) m (inl l) = rw (Holds-evaluate left m l) refl
    Holds-evaluate (or_either left right) m (inr r) =
        or-right (evaluate ops left m) (evaluate ops right m) (Holds-evaluate right m r)

    -- A filter evaluates to true exactly where it holds, for an equality of JSON values that is right.
    pub evaluate-iff-Holds :
        (f : Filter J F) (metadata : J) → (evaluate ops f metadata ≡ true) ↔ Holds ops f metadata
    evaluate-iff-Holds f m = (evaluate-Holds f m, Holds-evaluate f m)
