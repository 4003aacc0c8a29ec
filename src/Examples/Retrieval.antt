-- ===== src/Examples/Retrieval.antt =====
-- Runs of nhpc_qa/retrieval/search/fuse.py, of the query graph in nhpc_qa/retrieval/graph and of
-- nhpc_qa/entities/dedupe.py. The numbers are naturals, of millionths.
use nhpc_parliament_rag_syst.Prelude.{
  leb, ◌&&◌, take, get_elem?, ◌==◌, All, map, ℕ, ◌+◌, ◌-◌, ◌*◌, ◌/◌, ◌≤◌, ◌≡◌, true, false, Option,
  none, some, List, [], ◌∷◌, ltb, String, str_eq, ◌&&◌, any, All, codes, arith, ◌<◌, false≢true,
  Bool-cases, inl, inr, split, length, count, ap, subst, eq_of_some, none-some, eq_iff,
}
use nhpc_parliament_rag_syst.Fuse.{Numbers, Hit, FuseConfig, fuse}
use nhpc_parliament_rag_syst.Fuse.Slots.{hits_on, tagged}
use nhpc_parliament_rag_syst.Fuse.Places.{fuse_exact, IsFusedFrom, places_of}
use nhpc_parliament_rag_syst.Search.{
  SearchConfig, QueryState, Deps, query_process, run_graph, rerank_node,
}
use nhpc_parliament_rag_syst.Search.Plan.{outcome_of, search_plan, run_graph_refines}
use nhpc_parliament_rag_syst.Search.Rerank.{
  documents, order_of, answer_of, IsRerankOf, rerank_node_total,
}
use nhpc_parliament_rag_syst.Search.{unmoved}
use nhpc_parliament_rag_syst.Search.Assemble.{Row, assemble_results}
use nhpc_parliament_rag_syst.Search.Assemble.Display.{
  IsRankedFrom, IsNewestFirst, IsOfPick, times_shown, display_exact,
}
use nhpc_parliament_rag_syst.Match.{Alias, pad, match_entities}
use nhpc_parliament_rag_syst.Match.Sound.{IsMention, IsDisjoint, NamesOnce, match_entities_sound}
use nhpc_parliament_rag_syst.Dedupe.{Names, Entity, Dictionary, Merge, owns, apply_merges, plan}
use nhpc_parliament_rag_syst.Dedupe.Links.{IsApart, redirect_all, apply_merges_exact}
use nhpc_parliament_rag_syst.Dedupe.Survivor.{IsUnique, IsRightMerge, has_id, plan-IsRightMerge}

abbrev millionths : Numbers
millionths = record {
  Number = ℕ;
  zero_point = 0;
  minus_one = 0;
  plus = λ a b. a + b;
  minus = λ a b. a - b;
  over = λ w n. w / n;
  share = λ m n. m * 1000000 / n;
  round_to = λ _ a. a;
  below = ltb;
}

abbrev weights : FuseConfig millionths
weights = record {
  rrf_weight_dense = 1000000;
  rrf_weight_keyword = 700000;
  rrf_weight_entity = 500000;
  answer_embed_weight = none;
  rrf_k = 60;
  widen_enabled = true;
  widen_tau = 20000;
  widen_delta = 100;
}

abbrev hit : String → ℕ → ℕ → Hit
hit key id rank = record {
  doc_key = key;
  sub_question_id = id;
  sub_question_local = none;
  question_text = some "dams";
  rank = rank;
}

abbrev two_lists : List (String × List Hit)
two_lists =
    ("dense", hit "S/ls/1" 1 1 ∷ hit "S/ls/2" 2 2 ∷ hit "S/ls/2" 3 3 ∷ [])
    ∷ ("entity", hit "S/ls/2" 3 1 ∷ [])
    ∷ []

fuse_exact_example : IsFusedFrom millionths weights (hits_on "S/ls/2" (tagged two_lists)) (
    places_of millionths "S/ls/2"
      (fuse millionths two_lists weights ("dense" ∷ "entity" ∷ []) ("dense" ∷ "entity" ∷ [])).0)
fuse_exact_example =
    fuse_exact millionths two_lists weights ("dense" ∷ "entity" ∷ []) ("dense" ∷ "entity" ∷ [])
      "S/ls/2"

abbrev search_config : SearchConfig millionths
search_config = record {
  fusion = weights;
  dense_top_n = 50;
  entity_top_n = 20;
  answer_top_n = 20;
  widen_top_n_factor = 3;
  use_answer_embeddings = false;
  final_top_k = 5;
  rerank_enabled = true;
  generation_enabled = false;
}

abbrev asked : QueryState millionths
asked = record {
  query = "dams";
  filters = record { house = none; session = none; nhpc_only = true };
  query_vec = [];
  query_canon = none;
  entity_ids = [];
  retrieved = [];
  fused = [];
  fuse_stats = none;
  widened = false;
  widen_reason = none;
  reranked = [];
  rerank_failed = false;
}

-- The model puts the only passage first, whatever it is.
abbrev first_only : String → List String → Option (List (ℕ × ℕ))
first_only query [] = none
first_only query (p ∷ ps) = some ((0, 7) ∷ [])

abbrev deps : Deps millionths
deps = record {
  process = λ q. some (record { query_vec = 1 ∷ []; query_canon = q; entity_ids = [] });
  dense_search = λ _ n _. some (hit "S/ls/1" 1 1 ∷ []);
  entity_search = λ _ n _. some [];
  answer_search = λ _ n _. none;
  reranker = some first_only;
  verify_node = some;
  assemble_node = some;
  generate_node = some;
}

run_graph_refines_example :
    run_graph millionths deps search_config 25 query_process asked
    ≡ outcome_of millionths (search_plan millionths deps search_config asked)
run_graph_refines_example = run_graph_refines millionths deps search_config 25 asked (omega arith)

first_only-ranks :
    (query : String) (passages : List String) (ranking : List (ℕ × ℕ))
    → first_only query passages ≡ some ranking
    → All (λ e. e.0 < length passages) ranking
first_only-ranks query [] ranking h = absurd (none-some h)
first_only-ranks query (p ∷ ps) ranking h =
    subst (λ (l : List (ℕ × ℕ)). All (λ e. e.0 < length (p ∷ ps)) l) (eq_of_some h)
      (omega arith, tt)

abbrev fused_once : QueryState millionths
fused_once = record asked {
  fused = (fuse millionths two_lists weights ("dense" ∷ []) ("dense" ∷ [])).0;
}

rerank_node_total_example :
    (s' : QueryState millionths) × (rerank_node millionths deps search_config fused_once ≡ some s')
    × (IsRerankOf millionths 5 fused_once.fused s'.reranked)
    × (documents millionths s'.reranked
        ≡ take 5 (
            order_of millionths fused_once.fused
              (answer_of millionths search_config fused_once fused_once.fused deps.reranker)))
rerank_node_total_example =
    rerank_node_total millionths deps search_config fused_once first_only-ranks

abbrev rows : List Row
rows =
    record { sub_question_id = 1; reply_date = none }
    ∷ record { sub_question_id = 3; reply_date = some (record { year = 2024; month = 2; day = 8 }) }
    ∷ []

display_exact_example :
    let picks = map (unmoved millionths) fused_once.fused in
    let shown = assemble_results millionths true picks rows in
    ((n : ℕ)
      → count (λ r. r.relevance_rank == 1 + n) shown
        ≡ times_shown millionths (get_elem? picks n) rows)
    × All (IsOfPick millionths 1 picks rows) shown
    × IsRankedFrom 1 shown
    × IsNewestFirst shown
display_exact_example = display_exact millionths (map (unmoved millionths) fused_once.fused) rows

abbrev lower_project : Entity
lower_project = record {
  entity_id = "subansiri_lower";
  canonical = codes "lower subansiri project";
  entity_type = "project";
  links = 9;
}

abbrev lower_again : Entity
lower_again = record {
  entity_id = "lower_subansiri";
  canonical = codes "subansiri lower";
  entity_type = "project";
  links = 2;
}

abbrev two_names : Dictionary
two_names = record {
  entities = "subansiri_lower" ∷ "lower_subansiri" ∷ [];
  aliases = record { from_key = "slp"; to_entity = "lower_subansiri" } ∷ [];
  sub_questions =
      record { from_key = "q1"; to_entity = "lower_subansiri" }
      ∷ record { from_key = "q1"; to_entity = "subansiri_lower" }
      ∷ [];
}

abbrev one_merge : Merge
one_merge = record { survivor = lower_project; losers = lower_again ∷ [] }

one_merge-IsApart : IsApart (one_merge ∷ [])
one_merge-IsApart =
    (((λ e. absurd (false≢true (ap (λ (x : String). str_eq x "lower_subansiri") e))), tt), tt)

apply_merges_exact_example :
    let d' = apply_merges (one_merge ∷ []) two_names in
    (owns d'.aliases "slp" "subansiri_lower"
      ≡ any
          (λ r.
            str_eq r.from_key "slp"
            && str_eq (redirect_all (one_merge ∷ []) r.to_entity) "subansiri_lower")
          two_names.aliases)
    × (owns d'.sub_questions "slp" "subansiri_lower"
        ≡ any
            (λ r.
              str_eq r.from_key "slp"
              && str_eq (redirect_all (one_merge ∷ []) r.to_entity) "subansiri_lower")
            two_names.sub_questions)
apply_merges_exact_example =
    apply_merges_exact (one_merge ∷ []) two_names "slp" "subansiri_lower" one_merge-IsApart

two_entities-IsUnique : IsUnique (lower_project ∷ lower_again ∷ [])
two_entities-IsUnique i = elim (Bool-cases (str_eq "subansiri_lower" i)) [
  | inl e ↦
      let same = (eq_iff "subansiri_lower" i).0 e in
      subst (λ (x : String). count (has_id x) (lower_project ∷ lower_again ∷ []) ≤ 1) same
        (omega arith)
  | inr e ↦ rw e (ground arith)
]

-- Words are split at spaces, and digits are those of ASCII.
abbrev plain_names : Names
plain_names = record { words = split 32; is_decimal = λ c. leb b'0' c && leb c b'9' }

plan-IsRightMerge_example :
    All (IsRightMerge plain_names) (plan plain_names (lower_project ∷ lower_again ∷ []))
    × IsApart (plan plain_names (lower_project ∷ lower_again ∷ []))
plan-IsRightMerge_example =
    plan-IsRightMerge plain_names (lower_project ∷ lower_again ∷ []) two_entities-IsUnique

abbrev aliases : List Alias
aliases =
    (
      codes "himachal",
      record {
        entity_id = "himachal_pradesh";
        entity_type = "state";
        canonical = codes "Himachal Pradesh";
      },
    )
    ∷ (
      codes "himachal pradesh",
      record {
        entity_id = "himachal_pradesh";
        entity_type = "state";
        canonical = codes "Himachal Pradesh";
      },
    )
    ∷ []

match_entities_sound_example :
    let norm = codes "dams in himachal pradesh" in
    All (IsMention (pad norm) aliases) (match_entities norm aliases)
    × IsDisjoint (match_entities norm aliases)
    × NamesOnce (match_entities norm aliases)
match_entities_sound_example = match_entities_sound (codes "dams in himachal pradesh") aliases
