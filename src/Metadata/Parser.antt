-- ===== src/Metadata/Parser.antt =====
-- crates/vexra-metadata/src/filter.rs: `Filter::parse` on the bytes of a text. What it takes from the Rust
-- library and the serde_json crate, the trimming of white space, the reading of f64 and the JSON values,
-- are the fields of `ParseOps`.
pub mod Ends
use Prim.Native.String.{String}
use embeddb.Base.{
  ℕ, zero, suc, ◌+◌, ◌-◌, Bool, true, false, not, ◌&&◌, Option, none, some, List, [], ◌∷◌, ◌++◌,
  map, ltb, leb, ◌==◌, if◌then◌else◌, length, take, drop,
}
use embeddb.Metadata.Filter.{
  Filter, equals, greater_than, less_than, in_values, contains, and_both, or_either,
}

pub record ParseOps (J F : Type 0) : Type 0 where
  pub trim : List ℕ → List ℕ
  pub to_text : List ℕ → String
  pub json_string : String → J
  pub json_number : F → J
  pub parse_f64 : List ℕ → Option F
  pub is_whole : F → Bool
  pub minus_epsilon : F → F
  pub plus_epsilon : F → F

-- What a call of the parser does.
pub data Parsed (A : Type 0) : Type 0 where
  parsed : A → Parsed A
  invalid : Parsed A
  panics : Parsed A
  out_of_fuel : Parsed A

abbrev pub bytes_eq : List ℕ → List ℕ → Bool
bytes_eq [] [] = true
bytes_eq [] (b ∷ bs) = false
bytes_eq (a ∷ as_bytes) [] = false
bytes_eq (a ∷ as_bytes) (b ∷ bs) = a == b && bytes_eq as_bytes bs

abbrev pub starts_with : List ℕ → List ℕ → Bool
starts_with pattern bytes = bytes_eq (take (length pattern) bytes) pattern

-- The test of `find_and_or` behind a byte: `opened` and `closed` count the parentheses so far.
unfoldable pub find_op : List ℕ → Bool → ℕ → ℕ → ℕ → List ℕ → Option ℕ
find_op op in_quote opened closed i [] = none
find_op op in_quote opened closed i (b ∷ bytes) =
    let quoted = if b == 34 then not in_quote else in_quote in
    let left = if b == 40 then opened + 1 else opened in
    let right = if b == 41 then closed + 1 else closed in
    let rest = find_op op quoted left right (i + 1) bytes in
    if not quoted && (left == right && starts_with op (b ∷ bytes)) then some i else rest

unfoldable pub find_and_or : List ℕ → List ℕ → Option ℕ
find_and_or input op = find_op op false 0 0 0 input

-- `str::find`.
unfoldable pub find : List ℕ → ℕ → List ℕ → Option ℕ
find pattern i [] = none
find pattern i (b ∷ bytes) =
    let rest = find pattern (i + 1) bytes in
    if starts_with pattern (b ∷ bytes) then some i else rest

abbrev pub last_is : ℕ → List ℕ → Bool
last_is c [] = false
last_is c (b ∷ []) = b == c
last_is c (b ∷ (d ∷ bytes)) = last_is c (d ∷ bytes)

-- `s[1..s.len() - 1]`, which panics on one byte.
abbrev pub inner : List ℕ → Option (List ℕ)
inner bytes = if ltb (length bytes) 2 then none else some (take (length bytes - 2) (drop 1 bytes))

unfoldable pub split : ℕ → List ℕ → List ℕ → List (List ℕ)
split c word [] = word ∷ []
split c word (b ∷ bytes) =
    if b == c then word ∷ split c [] bytes else split c (word ++ b ∷ []) bytes

-- `trim_matches('"')`.
unfoldable pub trim_front : List ℕ → List ℕ
trim_front [] = []
trim_front (b ∷ bytes) = let rest = trim_front bytes in if b == 34 then rest else b ∷ bytes

unfoldable pub trim_back : List ℕ → List ℕ
trim_back [] = []
trim_back (b ∷ bytes) = elim (trim_back bytes) [
  | [] ↦ if b == 34 then [] else b ∷ []
  | c ∷ rest ↦ b ∷ (c ∷ rest)
]

abbrev pub trim_quotes : List ℕ → List ℕ
trim_quotes bytes = trim_back (trim_front bytes)

-- " AND ", " OR ", " IN ", " CONTAINS ".
abbrev pub and_op : List ℕ
and_op = 32 ∷ 65 ∷ 78 ∷ 68 ∷ 32 ∷ []

abbrev pub or_op : List ℕ
or_op = 32 ∷ 79 ∷ 82 ∷ 32 ∷ []

abbrev pub in_op : List ℕ
in_op = 32 ∷ 73 ∷ 78 ∷ 32 ∷ []

abbrev pub contains_op : List ℕ
contains_op = 32 ∷ 67 ∷ 79 ∷ 78 ∷ 84 ∷ 65 ∷ 73 ∷ 78 ∷ 83 ∷ 32 ∷ []

-- The `?` on both sides of an operator, the left one first.
abbrev pub combine : {A : Type 0} → (A → A → A) → Parsed A → Parsed A → Parsed A
combine f (parsed a) (parsed b) = parsed (f a b)
combine f (parsed a) invalid = invalid
combine f (parsed a) panics = panics
combine f (parsed a) out_of_fuel = out_of_fuel
combine f invalid r = invalid
combine f panics r = panics
combine f out_of_fuel r = out_of_fuel

module _ {J F : Type 0} (ops : ParseOps J F) where
  abbrev pub field_at : ℕ → List ℕ → String
  field_at pos input = ops.to_text (ops.trim (take pos input))

  abbrev pub number_at : (F → Filter J F) → Option F → Parsed (Filter J F)
  number_at f none = invalid
  number_at f (some x) = parsed (f x)

  -- `field < number`, with `=` behind the sign.
  abbrev pub parse_less : List ℕ → Option ℕ → Parsed (Filter J F)
  parse_less input none = invalid
  parse_less input (some pos) =
      let with_equal = starts_with (61 ∷ []) (drop (pos + 1) input) in
      number_at (λ x. less_than (field_at pos input) (if with_equal then ops.plus_epsilon x else x))
        (ops.parse_f64 (ops.trim (drop (if with_equal then pos + 2 else pos + 1) input)))

  abbrev pub parse_greater : List ℕ → Option ℕ → Parsed (Filter J F)
  parse_greater input none = parse_less input (find (60 ∷ []) 0 input)
  parse_greater input (some pos) =
      let with_equal = starts_with (61 ∷ []) (drop (pos + 1) input) in
      number_at
        (λ x. greater_than (field_at pos input) (if with_equal then ops.minus_epsilon x else x))
        (ops.parse_f64 (ops.trim (drop (if with_equal then pos + 2 else pos + 1) input)))

  abbrev pub quoted_value : String → Option (List ℕ) → Parsed (Filter J F)
  quoted_value field none = panics
  quoted_value field (some bytes) = parsed (equals field (ops.json_string (ops.to_text bytes)))

  abbrev pub plain_value : String → List ℕ → Option F → Parsed (Filter J F)
  plain_value field value none =
      parsed (equals field (ops.json_string (ops.to_text (trim_quotes value))))
  plain_value field value (some num) =
      if ops.is_whole num && is_none (find (46 ∷ []) 0 value)
      then parsed (equals field (ops.json_number num))
      else parsed (equals field (ops.json_string (ops.to_text (trim_quotes value))))
    where
      is_none : Option ℕ → Bool
      is_none none = true
      is_none (some i) = false

  abbrev pub parse_value : String → List ℕ → Parsed (Filter J F)
  parse_value field value =
      if starts_with (34 ∷ []) value && last_is 34 value
      then quoted_value field (inner value)
      else plain_value field value (ops.parse_f64 value)

  abbrev pub parse_equals : List ℕ → Option ℕ → Parsed (Filter J F)
  parse_equals input none = parse_greater input (find (62 ∷ []) 0 input)
  parse_equals input (some pos) = parse_value (field_at pos input) (ops.trim (drop (pos + 1) input))

  abbrev pub parse_contains : List ℕ → Option ℕ → Parsed (Filter J F)
  parse_contains input none = parse_equals input (find (61 ∷ []) 0 input)
  parse_contains input (some pos) =
      parsed (
        contains (field_at pos input)
          (ops.to_text (trim_quotes (ops.trim (drop (pos + 10) input)))))

  abbrev pub in_list : String → Option (List ℕ) → Parsed (Filter J F)
  in_list field none = panics
  in_list field (some bytes) = parsed (
      in_values field (map (λ word. ops.to_text (trim_quotes (ops.trim word))) (split 44 [] bytes)))

  -- Without a list in parentheses the text is read on as one of the other conditions.
  abbrev pub parse_in : List ℕ → Option ℕ → Parsed (Filter J F)
  parse_in input none = parse_contains input (find contains_op 0 input)
  parse_in input (some pos) =
      let rest = ops.trim (drop (pos + 4) input) in
      if starts_with (40 ∷ []) rest && last_is 41 rest
      then in_list (field_at pos input) (inner rest)
      else parse_contains input (find contains_op 0 input)

  unfoldable pub parse_condition : List ℕ → Parsed (Filter J F)
  parse_condition input = parse_in (ops.trim input) (find in_op 0 (ops.trim input))

  unfoldable pub parse : ℕ → List ℕ → Parsed (Filter J F)
  parse zero input = out_of_fuel
  parse (suc fuel) input = elim (find_and_or (ops.trim input) and_op) [
    | some pos ↦
        combine and_both (parse fuel (take pos (ops.trim input)))
          (parse fuel (drop (pos + 5) (ops.trim input)))
    | none ↦ elim (find_and_or (ops.trim input) or_op) [
      | some pos ↦
          combine or_either (parse fuel (take pos (ops.trim input)))
            (parse fuel (drop (pos + 4) (ops.trim input)))
      | none ↦ parse_condition (ops.trim input)
    ]
  ]
