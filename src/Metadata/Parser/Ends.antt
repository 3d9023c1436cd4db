-- ===== src/Metadata/Parser/Ends.antt =====
-- The fuel of `Filter::parse` in filter.rs.
use Prim.Native.String.{String}
use embeddb.Base.{
  ℕ, zero, suc, ◌+◌, ◌<◌, ◌≤◌, ◌≡◌, ◌⊎◌, subst, sym, inl, inr, Bool, true, false, not, ◌&&◌, Option,
  none, some, List, [], ◌∷◌, ◌==◌, if◌then◌else◌, length, take, drop, arith, Option-cases,
  length-take, length-drop,
}
use embeddb.Metadata.Filter.{Filter, and_both, or_either}
use embeddb.Metadata.Parser.{
  ParseOps, Parsed, parsed, invalid, panics, out_of_fuel, find_op, find_and_or, starts_with, and_op,
  or_op, combine, number_at, parse_less, parse_greater, quoted_value, plain_value, parse_value,
  parse_equals, parse_contains, in_list, parse_in, parse_condition, parse, field_at, find, inner,
  last_is,
}

-- The call ends with a filter, an error or a panic.
abbrev pub Ended : {A : Type 0} → Parsed A → Type 0
Ended (parsed a) = Unit
Ended invalid = Unit
Ended panics = Unit
Ended out_of_fuel = ⊥

some_eq : (a b : ℕ) → some a ≡ some b → a ≡ b
some_eq a b h = cc

if_some :
    (b : Bool) (i pos : ℕ) (o : Option ℕ)
    → (if b then some i else o) ≡ some pos
    → (pos ≡ i) ⊎ (o ≡ some pos)
if_some true i pos o h = inl (sym (some_eq i pos h))
if_some false i pos o h = inr h

find_op-bound :
    (op : List ℕ) (in_quote : Bool) (opened closed i : ℕ) (bytes : List ℕ) (pos : ℕ)
    → find_op op in_quote opened closed i bytes ≡ some pos
    → pos < i + length bytes
unfolding find_op
find_op-bound op in_quote opened closed i [] pos h = cc
find_op-bound op in_quote opened closed i (b ∷ bytes) pos h =
    let quoted = if b == 34 then not in_quote else in_quote in
    let left = if b == 40 then opened + 1 else opened in
    let right = if b == 41 then closed + 1 else closed in
    elim (if_some (not quoted && (left == right && starts_with op (b ∷ bytes))) i pos
      (find_op op quoted left right (i + 1) bytes) h) [
        | inl here ↦ omega (arith, here)
        | inr later ↦ omega (arith, find_op-bound op quoted left right (i + 1) bytes pos later)
      ]

op-bound : (op text : List ℕ) (pos : ℕ) → find_and_or text op ≡ some pos → pos < length text
unfolding find_and_or
op-bound op text pos e = omega (arith, find_op-bound op false 0 0 0 text pos e)

combine-Ended :
    {A : Type 0} (f : A → A → A) (r s : Parsed A) → Ended r → Ended s → Ended (combine f r s)
combine-Ended f (parsed a) (parsed b) h k = tt
combine-Ended f (parsed a) invalid h k = tt
combine-Ended f (parsed a) panics h k = tt
combine-Ended f (parsed a) out_of_fuel h k = k
combine-Ended f invalid s h k = tt
combine-Ended f panics s h k = tt
combine-Ended f out_of_fuel s h k = h

if-Ended : {A : Type 0} (b : Bool) (r s : Parsed A) → Ended r → Ended s → Ended (if b then r else s)
if-Ended true r s h k = h
if-Ended false r s h k = k

module _ {J F : Type 0} (ops : ParseOps J F) where
  number-Ended : (f : F → Filter J F) (o : Option F) → Ended (number_at ops f o)
  number-Ended f none = tt
  number-Ended f (some x) = tt

  less-Ended : (input : List ℕ) (o : Option ℕ) → Ended (parse_less ops input o)
  less-Ended input none = tt
  less-Ended input (some pos) = number-Ended _ _

  greater-Ended : (input : List ℕ) (o : Option ℕ) → Ended (parse_greater ops input o)
  greater-Ended input none = less-Ended input (find (60 ∷ []) 0 input)
  greater-Ended input (some pos) = number-Ended _ _

  quoted-Ended : (field : String) (o : Option (List ℕ)) → Ended (quoted_value ops field o)
  quoted-Ended field none = tt
  quoted-Ended field (some bytes) = tt

  plain-Ended :
      (field : String) (value : List ℕ) (o : Option F) → Ended (plain_value ops field value o)
  plain-Ended field value none = tt
  plain-Ended field value (some num) = if-Ended _ (parsed _) (parsed _) tt tt

  value-Ended : (field : String) (value : List ℕ) → Ended (parse_value ops field value)
  value-Ended field value =
      if-Ended (starts_with (34 ∷ []) value && last_is 34 value)
        (quoted_value ops field (inner value)) (plain_value ops field value (ops.parse_f64 value))
        (quoted-Ended field (inner value)) (plain-Ended field value (ops.parse_f64 value))

  equals-Ended : (input : List ℕ) (o : Option ℕ) → Ended (parse_equals ops input o)
  equals-Ended input none = greater-Ended input (find (62 ∷ []) 0 input)
  equals-Ended input (some pos) =
      value-Ended (field_at ops pos input) (ops.trim (drop (pos + 1) input))

  contains-Ended : (input : List ℕ) (o : Option ℕ) → Ended (parse_contains ops input o)
  contains-Ended input none = equals-Ended input (find (61 ∷ []) 0 input)
  contains-Ended input (some pos) = tt

  in_list-Ended : (field : String) (o : Option (List ℕ)) → Ended (in_list ops field o)
  in_list-Ended field none = tt
  in_list-Ended field (some bytes) = tt

  in-Ended : (input : List ℕ) (o : Option ℕ) → Ended (parse_in ops input o)
  in-Ended input none = contains-Ended input _
  in-Ended input (some pos) =
      if-Ended _ (in_list ops _ _) (parse_contains ops input _) (in_list-Ended _ _)
        (contains-Ended input _)

  condition-Ended : (input : List ℕ) → Ended (parse_condition ops input)
  unfolding parse_condition
  condition-Ended input = in-Ended (ops.trim input) _

  parse-both :
      (fuel : ℕ) (input : List ℕ) (pos : ℕ)
      → find_and_or (ops.trim input) and_op ≡ some pos
      → parse ops (suc fuel) input
        ≡ combine and_both
            (parse ops fuel (take pos (ops.trim input)))
            (parse ops fuel (drop (pos + 5) (ops.trim input)))
  unfolding parse
  parse-both fuel input pos e = simp (e, parse)

  parse-either :
      (fuel : ℕ) (input : List ℕ) (pos : ℕ)
      → find_and_or (ops.trim input) and_op ≡ none
      → find_and_or (ops.trim input) or_op ≡ some pos
      → parse ops (suc fuel) input
        ≡ combine or_either
            (parse ops fuel (take pos (ops.trim input)))
            (parse ops fuel (drop (pos + 4) (ops.trim input)))
  unfolding parse
  parse-either fuel input pos no_and e = simp (no_and, e, parse)

  parse-single :
      (fuel : ℕ) (input : List ℕ)
      → find_and_or (ops.trim input) and_op ≡ none
      → find_and_or (ops.trim input) or_op ≡ none
      → parse ops (suc fuel) input ≡ parse_condition ops (ops.trim input)
  unfolding parse
  parse-single fuel input no_and no_or = simp (no_and, no_or, parse)

  -- With fuel for each byte of the text and one more, parse ends with a filter, an error or a panic, for a
  -- trim that does not make a text longer.
  pub parse-Ended :
      ((bytes : List ℕ) → length (ops.trim bytes) ≤ length bytes)
      → (fuel : ℕ) (input : List ℕ) → length input < fuel
      → Ended (parse ops fuel input)
  parse-Ended shorter zero input enough = absurd (omega arith)
  parse-Ended shorter (suc fuel) input enough =
      let text = ops.trim input in
      let fits = shorter input in
      elim (Option-cases (find_and_or text and_op)) [
        | inr (pos, e) ↦
            let bound = op-bound and_op text pos e in
            subst Ended (sym (parse-both fuel input pos e)) (
              combine-Ended and_both (parse ops fuel (take pos text))
                (parse ops fuel (drop (pos + 5) text))
                (parse-Ended shorter fuel (take pos text)
                  (omega (arith, fits, bound, length-take pos text)))
                (parse-Ended shorter fuel (drop (pos + 5) text)
                  (omega (arith, fits, bound, length-drop (pos + 5) text))))
        | inl no_and ↦ elim (Option-cases (find_and_or text or_op)) [
          | inr (pos, e) ↦
              let bound = op-bound or_op text pos e in
              subst Ended (sym (parse-either fuel input pos no_and e)) (
                combine-Ended or_either (parse ops fuel (take pos text))
                  (parse ops fuel (drop (pos + 4) text))
                  (parse-Ended shorter fuel (take pos text)
                    (omega (arith, fits, bound, length-take pos text)))
                  (parse-Ended shorter fuel (drop (pos + 4) text)
                    (omega (arith, fits, bound, length-drop (pos + 4) text))))
          | inl no_or ↦
              subst Ended (sym (parse-single fuel input no_and no_or)) (condition-Ended text)
        ]
      ]
