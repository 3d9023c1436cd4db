-- ===== src/Metadata/Tests.antt =====
-- The metadata store and the filters at concrete inputs, with numbers for JSON values and for f64.
use Prim.Native.String.{String}
use embeddb.Base.{
  ℕ, ◌≡◌, refl, ◌⊎◌, ◌↔◌, true, none, some, List, arith, [], ◌∷◌, ◌==◌, ltb, ==_iff, if◌then◌else◌,
}
use embeddb.Base.Assoc.{string_key, lookup}
use embeddb.Base.Outcome.{ok, err}
use embeddb.Metadata.{document_not_found}
use embeddb.Metadata.Parser.{ParseOps, panics, parse, parse_condition, find_and_or, find_op, find}
use embeddb.Metadata.Parser.Ends.{Ended, parse-Ended}
use embeddb.Metadata.Store.{
  MetadataEntry, MetadataStore, insert, remove, get, WellFormed, insert-get, remove-get,
}
use embeddb.Metadata.Filter.{
  JsonOps, and_both, greater_than, contains, evaluate, Holds, evaluate-iff-Holds,
}

abbrev two_entries : MetadataStore ℕ
two_entries = record {
  entries =
      ("a", record { id = "a"; metadata = 1 }) ∷ ("b", record { id = "b"; metadata = 2 }) ∷ [];
  collection_name = "docs";
}

two_entries-WellFormed : WellFormed two_entries
unfolding lookup
two_entries-WellFormed = (refl, (refl, tt))

insert-get_example :
    ((j : String)
      → get (insert two_entries "b" 5).1 j ≡ (
          if string_key.beq "b" j
          then some (record { id = "b"; metadata = 5 })
          else get two_entries j))
    × WellFormed (insert two_entries "b" 5).1
insert-get_example = insert-get two_entries "b" 5 two_entries-WellFormed

remove-get_example :
    ((get two_entries "a" ≡ none)
      × (remove two_entries "a" ≡ (err (document_not_found "a"), two_entries)))
    ⊎ (((entry : MetadataEntry ℕ) × (get two_entries "a" ≡ some entry))
        × ((remove two_entries "a").0 ≡ ok tt)
        × ((j : String)
            → get (remove two_entries "a").1 j
              ≡ (if string_key.beq "a" j then none else get two_entries j))
        × WellFormed (remove two_entries "a").1)
remove-get_example = remove-get two_entries "a" two_entries-WellFormed

abbrev number_ops : JsonOps ℕ ℕ
number_ops = record {
  field_of = λ j name. if string_key.beq name "year" then some j else none;
  as_f64 = λ j. some j;
  as_str = λ j. none;
  json_eq = ◌==◌;
  lt = ltb;
  str_contains = string_key.beq;
}

evaluate-iff-Holds_example :
    (evaluate number_ops (and_both (greater_than "year" 4) (contains "year" "x")) 7 ≡ true)
    ↔ Holds number_ops (and_both (greater_than "year" 4) (contains "year" "x")) 7
evaluate-iff-Holds_example =
    evaluate-iff-Holds number_ops ==_iff (and_both (greater_than "year" 4) (contains "year" "x")) 7

abbrev plain_ops : ParseOps ℕ ℕ
plain_ops = record {
  trim = λ b. b;
  to_text = λ b. "a";
  json_string = λ s. 0;
  json_number = λ n. n;
  parse_f64 = λ b. none;
  is_whole = λ n. true;
  minus_epsilon = λ n. n;
  plus_epsilon = λ n. n;
}

-- `a=1 AND b=2`.
abbrev two_conditions : List ℕ
two_conditions = 97 ∷ 61 ∷ 49 ∷ 32 ∷ 65 ∷ 78 ∷ 68 ∷ 32 ∷ 98 ∷ 61 ∷ 50 ∷ []

parse-Ended_example : Ended (parse plain_ops 12 two_conditions)
parse-Ended_example = parse-Ended plain_ops (λ bytes. omega arith) 12 two_conditions (omega arith)

-- `a="` panics.
parse-quote : parse plain_ops 4 (97 ∷ 61 ∷ 34 ∷ []) ≡ panics
unfolding parse parse_condition find_and_or find_op find
parse-quote = refl
