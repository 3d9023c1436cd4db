-- ===== src/Collection/Searching.antt =====
-- crates/vexra-core/src/collection.rs: `search` of a collection, which only reads it.
use Prim.Native.String.{String}
use mathlib.Core.Option
use embeddb.Base.{
  ℕ, ◌+◌, Bool, true, false, not, Option, none, some, List, [], ◌∷◌, if◌then◌else◌, ◌==◌, length,
}
use embeddb.Base.Assoc.{nat_key, lookup}
use embeddb.Index.{SearchResult}
use embeddb.Metadata.Store
use embeddb.Metadata.Store.{MetadataEntry}
use embeddb.Metadata.Filter.{Filter, evaluate}
use embeddb.Metadata.Parser.{Parsed, parsed, invalid, parse}
use embeddb.Collection.Config.{SearchQuery, SearchHit}
use embeddb.Collection.Backend
use embeddb.Collection.Backend.{Answer, answered, refused, panicked, endless}
use embeddb.Collection.Session.{
  Collection, Reply, returned, failed, panics, runs_on, dimension_mismatch, invalid_config, other,
  index,
}
use embeddb.Collection.Methods.{Platform}

module _ {J D : Type 0} (p : Platform J D) where
  -- The document of an internal id.
  abbrev pub doc_of : ℕ → Option String → String
  doc_of internal_id (some doc_id) = doc_id
  doc_of internal_id none = p.unknown_name internal_id

  abbrev pub entry_passes : Filter J D → Option (MetadataEntry J) → Bool
  entry_passes filter none = false
  entry_passes filter (some entry) = evaluate p.json filter entry.metadata

  abbrev pub passes : Collection J → Option (Filter J D) → String → Bool
  passes c none doc_id = true
  passes c (some filter) doc_id = entry_passes filter (Store.get c.metadata doc_id)

  abbrev pub hit : Collection J → SearchQuery → SearchResult ℕ → String → SearchHit J
  hit c query result doc_id = record {
    id = doc_id;
    score = result.score;
    vector = if query.include_vectors then Backend.get_vector c.index result.id else none;
    metadata =
        if query.include_metadata
        then Option.map MetadataEntry.metadata (Store.get c.metadata doc_id)
        else none;
  }

  -- The loop over the raw results.
  unfoldable pub hits :
      Collection J → SearchQuery → Option (Filter J D) → List (SearchResult ℕ) → List (SearchHit J)
  hits c query filter [] = []
  hits c query filter (r ∷ rs) =
      let doc_id = doc_of r.id (lookup r.id c.reverse_id_map) in
      let rest = hits c query filter rs in
      if passes c filter doc_id then hit c query r doc_id ∷ rest else rest

  abbrev pub reply_hits :
      Collection J
      → SearchQuery
      → Option (Filter J D)
      → Answer (List (SearchResult ℕ))
      → Reply (List (SearchHit J))
  reply_hits c query filter (answered rs) = returned (hits c query filter rs)
  reply_hits c query filter (refused e) = failed (index e)
  reply_hits c query filter panicked = panics
  reply_hits c query filter endless = runs_on

  abbrev pub search_raw :
      Collection J → SearchQuery → List ℕ → Option (Filter J D) → Reply (List (SearchHit J))
  search_raw c query vector filter =
      reply_hits c query filter
        (Backend.search (p.compute c.config.distance) p.lt p.total_lt c.index vector query.top_k)

  abbrev pub search_parsed :
      Collection J → SearchQuery → List ℕ → Parsed (Filter J D) → Reply (List (SearchHit J))
  search_parsed c query vector (parsed filter) = search_raw c query vector (some filter)
  search_parsed c query vector invalid = failed other
  search_parsed c query vector Parsed.panics = Reply.panics
  search_parsed c query vector Parsed.out_of_fuel = runs_on

  abbrev pub search_filtered :
      Collection J → SearchQuery → List ℕ → Option String → Reply (List (SearchHit J))
  search_filtered c query vector none = search_raw c query vector none
  search_filtered c query vector (some text) =
      search_parsed c query vector (parse p.parser (length (p.as_bytes text) + 1) (p.as_bytes text))

  abbrev pub search_vector :
      Collection J → SearchQuery → Option (List ℕ) → Reply (List (SearchHit J))
  search_vector c query none = failed invalid_config
  search_vector c query (some vector) =
      if not (length vector == c.config.dimension)
      then failed (dimension_mismatch c.config.dimension (length vector))
      else search_filtered c query vector query.filter

  unfoldable pub search : Collection J → SearchQuery → Reply (List (SearchHit J))
  search c query = search_vector c query query.vector
