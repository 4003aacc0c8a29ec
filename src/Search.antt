-- ===== src/Search.antt =====
-- The query graph of nhpc_qa/retrieval/graph/build.py with the nodes retrieve, fuse and rerank of
-- nhpc_qa/retrieval/graph/nodes.py. The search in the database, the models and the other nodes are
-- the record `Deps`; none stands for an exception.
pub mod Plan
pub mod Rerank
pub mod Assemble
use nhpc_parliament_rag_syst.Prelude.{
  ℕ, zero, suc, ◌+◌, ◌-◌, ◌*◌, Bool, true, false, not, Option, none, some, List, [], ◌∷◌, ◌++◌, map,
  filter, length, take, get_elem?, String, str_eq, if◌then◌else◌, leb,
}
use nhpc_parliament_rag_syst.Fuse.{
  Numbers, Hit, Reason, FuseConfig, Fused, Stats, fuse, should_widen, has_name,
}

-- The integers of Python over the native numbers.
pub data ℤ : Type 0 where
  pos : ℕ → ℤ
  negsuc : ℕ → ℤ

abbrev pub int_minus : ℕ → ℕ → ℤ
int_minus m n = if leb n m then pos (m - n) else negsuc (n - m - 1)

pub record Filters : Type 0 where
  pub house : Option String
  pub session : Option String
  pub nhpc_only : Bool

pub data Node : Type 0 where
  query_process retrieve fuse_results widen rerank verify assemble generate finished : Node

module _ (num : Numbers) where
  open num use {Number, round_to}

  pub record Ranked : Type 0 where
    pub fused : Fused num
    pub rerank_logit : Option Number
    pub rerank_movement : ℤ

  pub record SearchConfig : Type 0 where
    pub fusion : FuseConfig num
    pub dense_top_n : ℕ
    pub entity_top_n : ℕ
    pub answer_top_n : ℕ
    pub widen_top_n_factor : ℕ
    pub use_answer_embeddings : Bool
    pub final_top_k : ℕ
    pub rerank_enabled : Bool
    pub generation_enabled : Bool

  -- `QueryState`: the keys that these nodes read and write. An absent key is none, false or [].
  pub record QueryState : Type 0 where
    pub query : String
    pub filters : Filters
    pub query_vec : List Number
    pub query_canon : Option String
    pub entity_ids : List ℕ
    pub retrieved : List (String × List Hit)
    pub fused : List (Fused num)
    pub fuse_stats : Option (Stats num)
    pub widened : Bool
    pub widen_reason : Option Reason
    pub reranked : List Ranked
    pub rerank_failed : Bool

  -- What `query_process` writes, but for `widened`, which it hands on.
  pub record QueryPatch : Type 0 where
    pub query_vec : List Number
    pub query_canon : String
    pub entity_ids : List ℕ

  pub record Deps : Type 0 where
    pub process : String → Option QueryPatch
    pub dense_search : List Number → ℕ → Filters → Option (List Hit)
    pub entity_search : List ℕ → ℕ → Filters → Option (List Hit)
    pub answer_search : List Number → ℕ → Filters → Option (List Hit)
    pub reranker : Option (String → List String → Option (List (ℕ × Number)))
    pub verify_node : QueryState → Option QueryState
    pub assemble_node : QueryState → Option QueryState
    pub generate_node : QueryState → Option QueryState

  abbrev patched : QueryState → Option QueryPatch → Option QueryState
  patched s none = none
  patched s (some p) = some (record s {
    query_vec = p.query_vec;
    query_canon = some p.query_canon;
    entity_ids = p.entity_ids;
  })

  abbrev no_filters : Filters
  no_filters = record { house = none; session = none; nhpc_only = false }

  abbrev with_lists :
      QueryState
      → Option (List Hit)
      → Option (List Hit)
      → Option (List (String × List Hit))
      → Option QueryState
  with_lists s (some ds) (some es) (some more) =
      some (record s { retrieved = ("dense", ds) ∷ ("entity", es) ∷ more })
  with_lists s none es more = none
  with_lists s (some ds) none more = none
  with_lists s (some ds) (some es) none = none

  abbrev answer_list : Option (List Hit) → Option (List (String × List Hit))
  answer_list none = none
  answer_list (some hs) = some (("dense_answer", hs) ∷ [])

  unfoldable pub hybrid_retrieve : Deps → SearchConfig → QueryState → Option QueryState
  hybrid_retrieve deps cfg s =
      let factor = if s.widened then cfg.widen_top_n_factor else 1 in
      let filters = if s.widened then no_filters else s.filters in
      with_lists s (deps.dense_search s.query_vec (cfg.dense_top_n * factor) filters)
        (deps.entity_search s.entity_ids (cfg.entity_top_n * factor) filters)
        (if cfg.use_answer_embeddings
          then answer_list (deps.answer_search s.query_vec (cfg.answer_top_n * factor) filters)
          else some [])

  abbrev entity_names : List ℕ → List String
  entity_names [] = []
  entity_names (i ∷ is) = "entity" ∷ []

  unfoldable pub eligible_for : SearchConfig → QueryState → List String
  eligible_for cfg s =
      "dense" ∷ entity_names s.entity_ids
      ++ (if cfg.use_answer_embeddings then "dense_answer" ∷ [] else [])

  -- `retrieved.get(r)` is a list with a hit in it.
  abbrev pub has_hits : List (String × List Hit) → String → Bool
  has_hits [] r = false
  has_hits ((s, hs) ∷ lists) r =
      let rest = has_hits lists r in
      if str_eq s r then elim hs [ [] ↦ false | _ ∷ _ ↦ true ] else rest

  unfoldable pub fuse_node : SearchConfig → QueryState → QueryState
  unfolding eligible_for
  fuse_node cfg s =
      let eligible = eligible_for cfg s in
      let out = fuse num s.retrieved cfg.fusion eligible (filter (has_hits s.retrieved) eligible) in
      record s { fused = out.0; fuse_stats = some out.1 }

  abbrev pub unmoved : Fused num → Ranked
  unmoved c = record { fused = c; rerank_logit = none; rerank_movement = pos 0 }

  abbrev pub passage : Fused num → String
  passage c = elim c.question_text [ none ↦ "" | some t ↦ t ]

  abbrev pub moved_next :
      ℕ → ℕ → Number → Option (Fused num) → Option (List Ranked) → Option (List Ranked)
  moved_next new_pos idx logit none others = none
  moved_next new_pos idx logit (some c) none = none
  moved_next new_pos idx logit (some c) (some rs) = some (
      record {
        fused = c;
        rerank_logit = some (round_to 4 logit);
        rerank_movement = int_minus (idx + 1) new_pos;
      }
      ∷ rs)

  -- The order of the cross-encoder, numbered from `new_pos`; none is an index out of range.
  unfoldable pub moved : List (Fused num) → ℕ → List (ℕ × Number) → Option (List Ranked)
  moved fused new_pos [] = some []
  moved fused new_pos ((idx, logit) ∷ rest) =
      moved_next new_pos idx logit (get_elem? fused idx) (moved fused (suc new_pos) rest)

  abbrev pub rrf_order : SearchConfig → QueryState → Bool → QueryState
  rrf_order cfg s has_failed = record s {
    reranked = map unmoved (take cfg.final_top_k s.fused);
    rerank_failed = has_failed;
  }

  abbrev reordered : QueryState → Option (List Ranked) → Option QueryState
  reordered s none = none
  reordered s (some rs) = some (record s { reranked = rs; rerank_failed = false })

  abbrev pub rerank_by : SearchConfig → QueryState → Option (List (ℕ × Number)) → Option QueryState
  rerank_by cfg s none = some (rrf_order cfg s true)
  rerank_by cfg s (some ranking) = reordered s (moved s.fused 1 (take cfg.final_top_k ranking))

  -- `state.get("query_canon") or state["query"]`
  abbrev pub rerank_query : QueryState → String
  rerank_query s = elim s.query_canon [
    | none ↦ s.query
    | some q ↦ if str_eq q "" then s.query else q
  ]

  abbrev pub rerank_with :
      SearchConfig
      → QueryState
      → Option (String → List String → Option (List (ℕ × Number)))
      → Option QueryState
  rerank_with cfg s none = some (rrf_order cfg s false)
  rerank_with cfg s (some model) =
      if cfg.rerank_enabled
      then rerank_by cfg s (model (rerank_query s) (map passage s.fused))
      else some (rrf_order cfg s false)

  unfoldable pub rerank_node : Deps → SearchConfig → QueryState → Option QueryState
  unfolding moved
  rerank_node deps cfg s = elim s.fused [
    | [] ↦ some (record s { reranked = []; rerank_failed = false })
    | _ ∷ _ ↦ rerank_with cfg s deps.reranker
  ]

  -- The reason is computed again, with no retry used; without stats, `stats["n_candidates"]` raises
  -- where it is read.
  unfoldable pub widen_node : SearchConfig → QueryState → Option QueryState
  widen_node cfg s = elim s.fuse_stats [
    | none ↦
        if cfg.fusion.widen_enabled
        then none
        else some (record s { widened = true; widen_reason = none })
    | some stats ↦
        some (record s { widened = true; widen_reason = should_widen num stats cfg.fusion false })
  ]

  unfoldable pub after_fuse : SearchConfig → QueryState → Option Node
  after_fuse cfg s = elim s.fuse_stats [
    | none ↦
        if not cfg.fusion.widen_enabled
        then some rerank
        else if s.widened
        then some rerank
        else none
    | some stats ↦ elim (should_widen num stats cfg.fusion s.widened) [
      | none ↦ some rerank
      | some _ ↦ some widen
    ]
  ]

  -- The nodes and the edges of the graph.
  unfoldable pub run_node : Deps → SearchConfig → Node → QueryState → Option QueryState
  unfolding hybrid_retrieve fuse_node rerank_node widen_node
  run_node deps cfg query_process s = patched s (deps.process s.query)
  run_node deps cfg retrieve s = hybrid_retrieve deps cfg s
  run_node deps cfg fuse_results s = some (fuse_node cfg s)
  run_node deps cfg widen s = widen_node cfg s
  run_node deps cfg rerank s = rerank_node deps cfg s
  run_node deps cfg verify s = deps.verify_node s
  run_node deps cfg assemble s = deps.assemble_node s
  run_node deps cfg generate s = deps.generate_node s
  run_node deps cfg finished s = some s

  unfoldable pub next_node : SearchConfig → Node → QueryState → Option Node
  unfolding after_fuse
  next_node cfg query_process s = some retrieve
  next_node cfg retrieve s = some fuse_results
  next_node cfg fuse_results s = after_fuse cfg s
  next_node cfg widen s = some retrieve
  next_node cfg rerank s = some verify
  next_node cfg verify s = some assemble
  next_node cfg assemble s = some (if cfg.generation_enabled then generate else finished)
  next_node cfg generate s = some finished
  next_node cfg finished s = some finished

  pub data Outcome : Type 0 where
    answered : QueryState → Outcome
    raised : Outcome
    out_of_steps : Outcome

  -- The compiled graph under a limit on its steps, from a node on.
  unfoldable pub run_graph : Deps → SearchConfig → ℕ → Node → QueryState → Outcome
  unfolding run_node next_node
  run_graph deps cfg steps finished s = answered s
  run_graph deps cfg zero node s = out_of_steps
  run_graph deps cfg (suc steps) node s = elim (run_node deps cfg node s) [
    | none ↦ raised
    | some s' ↦ elim (next_node cfg node s') [
      | none ↦ raised
      | some node' ↦ run_graph deps cfg steps node' s'
    ]
  ]
