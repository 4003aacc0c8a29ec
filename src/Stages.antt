-- ===== src/Stages.antt =====
-- nhpc_qa/pipeline/orchestrator.py: which stages run, in which order, with which arguments, and what
-- happens when one fails.
pub mod Order
pub mod Plan
use nhpc_parliament_rag_syst.Prelude.{
  ℕ, zero, suc, Bool, true, false, Option, none, some, List, [], ◌∷◌, ◌++◌, if◌then◌else◌, Text,
  codes, text_eq, filter, any, all,
}

abbrev pub crawl_stage : Text
crawl_stage = codes "crawl"

abbrev pub parse_stage : Text
parse_stage = codes "parse"

abbrev pub index_stage : Text
index_stage = codes "index"

-- STAGES
abbrev pub stages_in_order : List Text
stages_in_order = crawl_stage ∷ parse_stage ∷ index_stage ∷ []

abbrev pub is_in : List Text → Text → Bool
is_in names s = any (λ x. text_eq x s) names

-- STAGES[STAGES.index(name):]
unfoldable pub from_stage_on : Text → List Text → List Text
from_stage_on name [] = []
from_stage_on name (s ∷ ss) =
    let later = from_stage_on name ss in if text_eq s name then s ∷ ss else later

-- A missing list and an empty one are the same to the code, and so are a missing name and an empty
-- one. `none` is StageError.
unfoldable pub resolve_stages : List Text → Text → Option (List Text)
unfolding from_stage_on
resolve_stages stages (c ∷ from_stage) =
    if is_in stages_in_order (c ∷ from_stage)
    then some (from_stage_on (c ∷ from_stage) stages_in_order)
    else none
resolve_stages [] [] = some stages_in_order
resolve_stages (s ∷ stages) [] =
    if all (is_in stages_in_order) (s ∷ stages)
    then some (filter (is_in (s ∷ stages)) stages_in_order)
    else none

-- The entry points that the stages call with arguments; `none` is an exit code of None. The world is
-- what they read and write.
pub record Entries : Type 1 where
  pub World : Type 0
  pub crawler : List Text → World → World × Option ℕ
  pub parser : List Text → World → World × Option ℕ
  pub loader : List Text → World → World × Option ℕ
  pub embedder : List Text → World → World × Option ℕ
  pub str : ℕ → Text

pub record Options : Type 0 where
  pub source : Text
  pub organized_root : Text
  pub dry_run : Bool
  pub limit : ℕ
  pub force : Bool
  pub only : Option Text
  pub llm_grouping : Bool

pub data Exit : Type 0 where
  exit : Option ℕ → Exit
  stage_error : Exit

abbrev pub is_zero_or_none : Option ℕ → Bool
is_zero_or_none none = true
is_zero_or_none (some zero) = true
is_zero_or_none (some (suc n)) = false

abbrev pub exit_ok : Exit → Bool
exit_ok (exit rc) = is_zero_or_none rc
exit_ok stage_error = false

abbrev pub flag : Bool → Text → List Text
flag true name = name ∷ []
flag false name = []

abbrev pub only_args : Option Text → List Text
only_args none = []
only_args (some []) = []
only_args (some (c ∷ name)) = codes "--only" ∷ (c ∷ name) ∷ []

-- What `run_stages` returns or raises: the stages that succeeded, and the stage that stopped the run.
pub record Run (W : Type 0) : Type 0 where
  pub world : W
  pub finished : List Text
  pub failed_stage : Option Text

module _ (en : Entries) where
  open en use {World, str}

  abbrev pub limit_args : ℕ → List Text
  limit_args zero = []
  limit_args (suc n) = codes "--limit" ∷ str (suc n) ∷ []

  unfoldable pub run_crawl : Options → World → World × Exit
  run_crawl o w =
      let argv =
        codes "--source" ∷ o.source ∷ codes "--out" ∷ o.organized_root ∷ []
        ++ flag o.dry_run (codes "--dry-run")
        ++ limit_args o.limit in
      let (w', rc) = en.crawler argv w in (w', exit rc)

  unfoldable pub run_parse : Options → World → World × Exit
  run_parse o w =
      let argv =
        codes "--organized" ∷ o.organized_root ∷ []
        ++ flag o.dry_run (codes "--dry-run")
        ++ limit_args o.limit
        ++ flag o.force (codes "--force")
        ++ only_args o.only
        ++ flag o.llm_grouping (codes "--llm-grouping") in
      let (w', rc) = en.parser argv w in (w', exit rc)

  -- Embedding follows loading, unless loading failed or nothing is to be written.
  unfoldable pub run_index : Options → World → World × Exit
  run_index o w =
      let load_argv =
        flag o.dry_run (codes "--dry-run")
        ++ limit_args o.limit
        ++ flag o.force (codes "--force")
        ++ only_args o.only in
      let embed_argv = limit_args o.limit ++ flag o.force (codes "--force") in
      let (w', rc) = en.loader load_argv w in
      let (w'', rc') = en.embedder embed_argv w' in
      if is_zero_or_none rc
      then (if o.dry_run then (w', exit (some 0)) else (w'', exit rc'))
      else (w', stage_error)

  -- _RUNNERS
  unfoldable pub run_stage : Options → Text → World → World × Exit
  unfolding run_crawl run_parse run_index
  run_stage o stage w =
      if text_eq stage crawl_stage
      then run_crawl o w
      else if text_eq stage parse_stage
      then run_parse o w
      else run_index o w

  abbrev pub after_stage : Text → World × Exit → Run World → Run World
  after_stage stage (w, e) rest =
      if exit_ok e
      then record {
        world = rest.world;
        finished = stage ∷ rest.finished;
        failed_stage = rest.failed_stage;
      }
      else record { world = w; finished = []; failed_stage = some stage }

  unfoldable pub run_plan : Options → List Text → World → Run World
  unfolding run_stage
  run_plan o [] w = record { world = w; finished = []; failed_stage = none }
  run_plan o (stage ∷ plan) w =
      let out = run_stage o stage w in after_stage stage out (run_plan o plan out.0)

  unfoldable pub run_stages : Options → List Text → Text → World → Option (Run World)
  unfolding resolve_stages run_plan
  run_stages o stages from_stage w = elim (resolve_stages stages from_stage) [
    | none ↦ none
    | some plan ↦ some (run_plan o plan w)
  ]
