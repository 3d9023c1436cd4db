-- ===== src/Index/Hnsw/Graph/Loads.antt =====
-- What `load_from_page` of graph.rs leaves of a graph.
use embeddb.Base.{
  ℕ, zero, suc, ◌+◌, ◌≡◌, refl, ap, ◌⊎◌, inl, inr, Bool, true, Option, none, some, List, [], ◌∷◌,
  ltb, ◌==◌, length, Bool-cases, Option-cases, ==_refl, min, max, ◌-◌, take,
}
use embeddb.Base.Outcome.{Outcome, ok, err, panic}
use embeddb.Base.Assoc.{nat_key, lookup}
use embeddb.Storage.Error.{StorageError}
use embeddb.Storage.Format.{PageHeader}
use embeddb.Storage.Cache.{PageCache, CachedPage, continue, get_page, header, cell_data_under}
use embeddb.Index.{vector_not_found}
use embeddb.Index.Hnsw.Run.{done, failed, ◌>>=◌ as ◌>>>=◌}
use embeddb.Index.Hnsw.Beam.{search_layer}
use embeddb.Index.Hnsw.Graph
use embeddb.Index.Hnsw.Graph.{HnswGraph, HnswConfig, search, search_at, descend, down_to}
use embeddb.Index.Hnsw.Graph.Pages.{
  page_result, load_entry, load_node, load_nodes, load_page, load_from_page, decode_node_edge_cell,
}

module _ (F : Type 0) where
  -- A graph without nodes, of this dimension.
  Bare : ℕ → HnswGraph F → Type 0
  Bare dimension g = (g.nodes ≡ []) × (g.dimension ≡ dimension)

  new-Bare : (dimension : ℕ) (config : HnswConfig) → Bare dimension (Graph.new dimension config)
  unfolding Bare Graph.new
  new-Bare dimension config = (refl, refl)

  load_entry-Bare :
      (dimension : ℕ) (g : HnswGraph F) (o : Option (List ℕ))
      → Bare dimension g
      → Bare dimension (load_entry g o)
  unfolding Bare
  load_entry-Bare dimension g none h = h
  load_entry-Bare dimension g (some bytes) h = elim (Bool-cases (ltb (length bytes) 16)) [
    | inl short ↦ rw short h
    | inr long ↦ rw long h
  ]

  load_node-Bare :
      (dimension : ℕ) (g : HnswGraph F) (o : Option (List ℕ))
      → Bare dimension g
      → Bare dimension (load_node g o)
  unfolding Bare lookup
  load_node-Bare dimension g none h = h
  load_node-Bare dimension g (some bytes) h = rw (no_node (decode_node_edge_cell bytes).0) h
    where
      no_node : (id : ℕ) → lookup id g.nodes ≡ none
      no_node id = ap (lookup id) h.0

  load_nodes-Bare :
      (dimension : ℕ) (h : PageHeader) (bytes : List ℕ) (n i : ℕ) (g : HnswGraph F)
      → Bare dimension g
      → Bare dimension (load_nodes h bytes n i g)
  unfolding load_nodes
  load_nodes-Bare dimension h bytes zero i g b = b
  load_nodes-Bare dimension h bytes (suc n) i g b =
      load_nodes-Bare dimension h bytes n (i + 1) _
        (load_node-Bare dimension g (cell_data_under h bytes i) b)

  -- Where the call answers, its graph is bare.
  AnswersBare : {E : Type 0} → ℕ → Outcome E (HnswGraph F) → Type 0
  AnswersBare dimension (ok g) = Bare dimension g
  AnswersBare dimension (err e) = Unit
  AnswersBare dimension panic = Unit

  load_page-Bare :
      (dimension : ℕ) (config : HnswConfig) (pg : CachedPage) (c : PageCache)
      → AnswersBare dimension (load_page dimension config pg c).0
  unfolding AnswersBare
  load_page-Bare dimension config pg c = elim (Option-cases (header pg)) [
    | inl none_read ↦ rw none_read tt
    | inr (h, read) ↦ rw read (
        load_nodes-Bare dimension h pg.bytes (h.num_cells - 1) 1 _ (
          load_entry-Bare dimension (Graph.new dimension config) (cell_data_under h pg.bytes 0)
            (new-Bare dimension config)))
  ]

  continue-Bare :
      (dimension : ℕ) (config : HnswConfig) (o : Outcome StorageError CachedPage) (c : PageCache)
      → AnswersBare dimension (page_result (continue o (load_page dimension config) c)).0
  unfolding AnswersBare
  continue-Bare dimension config (ok pg) c =
      of_result (load_page dimension config pg c) (load_page-Bare dimension config pg c)
    where
      of_result :
          (r : Outcome StorageError (HnswGraph F) × PageCache)
          → AnswersBare dimension r.0
          → AnswersBare dimension (page_result r).0
      of_result (ok g, c) h = h
      of_result (err e, c) h = tt
      of_result (panic, c) h = tt
  continue-Bare dimension config (err e) c = tt
  continue-Bare dimension config panic c = tt

  load_from_page-Bare :
      (page_id dimension : ℕ) (config : HnswConfig) (c : PageCache)
      → AnswersBare dimension (load_from_page page_id dimension config c).0
  unfolding load_from_page AnswersBare
  load_from_page-Bare page_id dimension config c = elim (Bool-cases (page_id == 0)) [
    | inl first ↦ rw first (new-Bare dimension config)
    | inr other ↦
        rw other (continue-Bare dimension config (get_page page_id c).0 (get_page page_id c).1)
  ]

  module _ (compute : List F → List F → F) (lt total_lt : F → F → Bool) where
    descend-none :
        (g : HnswGraph F) (query : List F) (ef layer e : ℕ)
        → g.nodes ≡ []
        → search_layer compute lt total_lt g.nodes query ef layer e ≡ failed (vector_not_found e)
    unfolding search_layer lookup
    descend-none g query ef layer e h = rw (ap (lookup e) h) refl

    search_at-none :
        (g : HnswGraph F) (query : List F) (k : ℕ) (layers : List ℕ) (e : ℕ)
        → g.nodes ≡ []
        → (descend compute lt total_lt g query layers e >>>= λ curr.
            search_layer compute lt total_lt g.nodes query (max g.config.ef_search k) 0 curr
            >>>= λ rs. done (take (min k (length rs)) rs))
          ≡ failed (vector_not_found e)
    unfolding descend
    search_at-none g query k [] e h =
        rw (descend-none g query (max g.config.ef_search k) 0 e h) refl
    search_at-none g query k (layer ∷ layers) e h = rw (descend-none g query 1 layer e h) refl

    bare-search :
        (g : HnswGraph F) (query : List F) (k : ℕ) (o : Option ℕ)
        → g.nodes ≡ []
        → (search_at compute lt total_lt g query k o ≡ done [])
          ⊎ ((e : ℕ) × (search_at compute lt total_lt g query k o ≡ failed (vector_not_found e)))
    bare-search g query k none h = inl refl
    bare-search g query k (some e) h =
        inr (e, rw (search_at-none g query k (down_to 1 g.max_layer) e h) refl)

    -- Whatever page a graph is loaded from, where load_from_page answers with a graph, the graph has the
    -- given dimension and no nodes, and a search of it for a vector of that dimension gives no result or
    -- fails with a vector that is not found.
    pub load_from_page-search :
        (page_id : ℕ) (config : HnswConfig) (c d : PageCache) (g : HnswGraph F) (query : List F)
        (k : ℕ)
        → load_from_page page_id (length query) config c ≡ (ok g, d)
        → (g.nodes ≡ [])
          × (g.dimension ≡ length query)
          × ((search compute lt total_lt g query k ≡ done [])
              ⊎ ((e : ℕ) × (search compute lt total_lt g query k ≡ failed (vector_not_found e))))
    unfolding search Bare AnswersBare
    load_from_page-search page_id config c d g query k loaded =
        let bare : Bare (length query) g =
          rw loaded at (load_from_page-Bare page_id (length query) config c) in
        let fits : (length query == g.dimension) ≡ true = rw bare.1 (==_refl (length query)) in
        (bare.0, bare.1, rw fits (bare-search g query k g.entry_point bare.0))
