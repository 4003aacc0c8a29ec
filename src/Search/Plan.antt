-- ===== src/Search/Plan.antt =====
-- The query graph of nhpc_qa/retrieval/graph/build.py against the order that its head comment draws.
use nhpc_parliament_rag_syst.Prelude.{
  ℕ, suc, ◌-◌, ◌≤◌, ◌≡◌, refl, ap, sym, ◌∙◌, subst, Bool, true, false, Option, none, some, List, [],
  String, if◌then◌else◌, inl, inr, Bool-cases, eq_of_some, none-some, arith,
}
use nhpc_parliament_rag_syst.Fuse.{Numbers, Hit, Reason, FuseConfig, Stats, fuse, should_widen}
use nhpc_parliament_rag_syst.Search.{
  Node, query_process, retrieve, fuse_results, widen, rerank, generate, finished, QueryState,
  SearchConfig, Deps, patched, with_lists, hybrid_retrieve, fuse_node, rerank_node, widen_node,
  after_fuse, run_node, next_node, Outcome, answered, raised, run_graph,
}

module _ (num : Numbers) where
  abbrev State : Type 0
  State = QueryState num

  abbrev pub and_then : Option State → (State → Option State) → Option State
  and_then none f = none
  and_then (some s) f = f s

  abbrev pub outcome_of : Option State → Outcome num
  outcome_of none = raised
  outcome_of (some s) = answered s

  -- Why the fused documents of a state are not enough, or none.
  abbrev pub weakness : SearchConfig num → State → Option Reason
  weakness cfg s = elim s.fuse_stats [
    | none ↦ none
    | some stats ↦ should_widen num stats cfg.fusion s.widened
  ]

  abbrev pub finish_plan : Deps num → SearchConfig num → State → Option State
  finish_plan deps cfg s = and_then (rerank_node num deps cfg s) λ s₁.
      and_then (deps.verify_node s₁) λ s₂.
        and_then (deps.assemble_node s₂)
          λ s₃. if cfg.generation_enabled then deps.generate_node s₃ else some s₃

  abbrev pub retry_plan : Deps num → SearchConfig num → State → Option Reason → Option State
  retry_plan deps cfg s none = finish_plan deps cfg s
  retry_plan deps cfg s (some reason) =
      and_then
        (hybrid_retrieve num deps cfg (record s { widened = true; widen_reason = some reason }))
        λ s₁. finish_plan deps cfg (fuse_node num cfg s₁)

  -- The search as a program without a loop: a weak first result is searched once more.
  abbrev pub search_plan : Deps num → SearchConfig num → State → Option State
  search_plan deps cfg s = and_then (patched num s (deps.process s.query)) λ s₁.
      and_then (hybrid_retrieve num deps cfg s₁)
        λ s₂. retry_plan deps cfg (fuse_node num cfg s₂) (weakness cfg (fuse_node num cfg s₂))

  step_outcome :
      (o : Option State) (f : State → Outcome num) (g : State → Option State)
      → ((s : State) → o ≡ some s → f s ≡ outcome_of (g s))
      → (elim o as (λ _. Outcome num) [ none ↦ raised | some s ↦ f s ]) ≡ outcome_of (and_then o g)
  step_outcome none f g h = refl
  step_outcome (some s) f g h = h s refl

  outcome_of_answer :
      (o : Option State)
      → (elim o as (λ _. Outcome num) [ none ↦ raised | some s ↦ answered s ]) ≡ outcome_of o
  outcome_of_answer none = refl
  outcome_of_answer (some s) = refl

  widen_once : (stats : Stats num) (cfg : FuseConfig num) → should_widen num stats cfg true ≡ none
  unfolding should_widen
  widen_once stats cfg = elim (Bool-cases cfg.widen_enabled) [
    | inl e ↦ rw e refl
    | inr e ↦ rw e refl
  ]

  widen_reason_again :
      (stats : Stats num) (cfg : FuseConfig num) (b : Bool) (r : Reason)
      → should_widen num stats cfg b ≡ some r
      → should_widen num stats cfg false ≡ some r
  widen_reason_again stats cfg true r h = absurd (none-some (sym (widen_once stats cfg) ∙ h))
  widen_reason_again stats cfg false r h = h

  with_lists-widened :
      (s : State) (ds es : Option (List Hit)) (more : Option (List (String × List Hit)))
      (s' : State)
      → with_lists num s ds es more ≡ some s'
      → s'.widened ≡ s.widened
  with_lists-widened s (some ds) (some es) (some more) s' h =
      ap (λ (x : State). x.widened) (sym (eq_of_some h))
  with_lists-widened s none es more s' h = absurd (none-some h)
  with_lists-widened s (some ds) none more s' h = absurd (none-some h)
  with_lists-widened s (some ds) (some es) none s' h = absurd (none-some h)

  hybrid_retrieve-widened :
      (deps : Deps num) (cfg : SearchConfig num) (s s' : State)
      → hybrid_retrieve num deps cfg s ≡ some s'
      → s'.widened ≡ s.widened
  unfolding hybrid_retrieve
  hybrid_retrieve-widened deps cfg s s' h = with_lists-widened s _ _ _ s' h

  module _ (deps : Deps num) (cfg : SearchConfig num) where
    generate_run :
        (n : ℕ) (b : Bool) (s : State)
        → run_graph num deps cfg (suc n) (if b then generate else finished) s
          ≡ outcome_of (if b then deps.generate_node s else some s)
    unfolding run_graph run_node next_node
    generate_run n true s = outcome_of_answer (deps.generate_node s)
    generate_run n false s = refl

    finish_run :
        (n : ℕ) (s : State)
        → run_graph num deps cfg (suc (suc (suc (suc n)))) rerank s
          ≡ outcome_of (finish_plan deps cfg s)
    unfolding run_graph run_node next_node
    finish_run n s = step_outcome (rerank_node num deps cfg s) _ _ λ s₁ _.
        step_outcome (deps.verify_node s₁) _ _ λ s₂ _.
          step_outcome (deps.assemble_node s₂) _ _ λ s₃ _. generate_run n cfg.generation_enabled s₃

    after_fuse-rerank :
        (stats : Stats num) (s : State)
        → s.fuse_stats ≡ some stats
        → should_widen num stats cfg.fusion s.widened ≡ none
        → after_fuse num cfg s ≡ some rerank
    unfolding after_fuse
    after_fuse-rerank stats s e h = rw e (rw (h, after_fuse) refl)

    after_fuse-widen :
        (stats : Stats num) (s : State) (r : Reason)
        → s.fuse_stats ≡ some stats
        → should_widen num stats cfg.fusion s.widened ≡ some r
        → after_fuse num cfg s ≡ some widen
    unfolding after_fuse
    after_fuse-widen stats s r e h = rw e (rw (h, after_fuse) refl)

    -- The loop at a node whose successor is known.
    follow :
        (steps : ℕ) (s : State) (node : Node)
        → after_fuse num cfg (fuse_node num cfg s) ≡ some node
        → run_graph num deps cfg (suc steps) fuse_results s
          ≡ run_graph num deps cfg steps node (fuse_node num cfg s)
    unfolding run_graph run_node next_node
    follow steps s node h =
        ap
          (λ (o : Option Node). elim o as (λ _. Outcome num) [
            | none ↦ raised
            | some node' ↦ run_graph num deps cfg steps node' (fuse_node num cfg s)
          ])
          h

    stats_of_fuse : State → Stats num
    stats_of_fuse s = elim (fuse_node num cfg s).fuse_stats [
      | none ↦ (fuse num [] cfg.fusion [] []).1
      | some x ↦ x
    ]

    fuse_node-stats : (s : State) → (fuse_node num cfg s).fuse_stats ≡ some (stats_of_fuse s)
    unfolding fuse_node stats_of_fuse
    fuse_node-stats s = refl

    fuse_node-widened : (s : State) → (fuse_node num cfg s).widened ≡ s.widened
    unfolding fuse_node
    fuse_node-widened s = refl

    -- After the second fusion the graph goes on to rerank.
    second_run :
        (n : ℕ) (s : State)
        → s.widened ≡ true
        → run_graph num deps cfg (suc (suc (suc (suc (suc n))))) fuse_results s
          ≡ outcome_of (finish_plan deps cfg (fuse_node num cfg s))
    second_run n s h =
        follow (suc (suc (suc (suc n)))) s rerank (
          after_fuse-rerank (stats_of_fuse s) (fuse_node num cfg s) (fuse_node-stats s) (
            ap (should_widen num (stats_of_fuse s) cfg.fusion) (fuse_node-widened s ∙ h)
            ∙ widen_once (stats_of_fuse s) cfg.fusion))
        ∙ finish_run n (fuse_node num cfg s)

    widen_node-some :
        (stats : Stats num) (s : State) (r : Reason)
        → s.fuse_stats ≡ some stats
        → should_widen num stats cfg.fusion false ≡ some r
        → widen_node num cfg s ≡ some (record s { widened = true; widen_reason = some r })
    unfolding widen_node
    widen_node-some stats s r e h =
        ap
          (λ (o : Option (Stats num)). elim o as (λ _. Option State) [
            | none ↦
                if cfg.fusion.widen_enabled
                then none
                else some (record s { widened = true; widen_reason = none })
            | some x ↦
                some
                  (record s { widened = true; widen_reason = should_widen num x cfg.fusion false })
          ])
          e
        ∙ ap (λ (o : Option Reason). some (record s { widened = true; widen_reason = o })) h

    retry_run :
        (n : ℕ) (s : State)
        → s.widened ≡ true
        → run_graph num deps cfg (suc (suc (suc (suc (suc (suc n)))))) retrieve s
          ≡ outcome_of (
              and_then
                (hybrid_retrieve num deps cfg s)
                λ s₁. finish_plan deps cfg (fuse_node num cfg s₁))
    unfolding run_graph run_node next_node
    retry_run n s h =
        step_outcome (hybrid_retrieve num deps cfg s) _ _
          λ s₁ found. second_run n s₁ (hybrid_retrieve-widened deps cfg s s₁ found ∙ h)

    widen_run :
        (n : ℕ) (stats : Stats num) (s : State) (r : Reason)
        → s.fuse_stats ≡ some stats
        → should_widen num stats cfg.fusion s.widened ≡ some r
        → run_graph num deps cfg (suc (suc (suc (suc (suc (suc (suc n))))))) widen s
          ≡ outcome_of (retry_plan deps cfg s (some r))
    unfolding run_graph run_node next_node
    widen_run n stats s r e h =
        ap
          (λ (o : Option State). elim o as (λ _. Outcome num) [
            | none ↦ raised
            | some s' ↦ run_graph num deps cfg (suc (suc (suc (suc (suc (suc n)))))) retrieve s'
          ])
          (widen_node-some stats s r e (widen_reason_again stats cfg.fusion s.widened r h))
        ∙ retry_run n (record s { widened = true; widen_reason = some r }) refl

    first_run :
        (n : ℕ) (s : State) (o : Option Reason)
        → should_widen num (stats_of_fuse s) cfg.fusion (fuse_node num cfg s).widened ≡ o
        → run_graph num deps cfg (suc (suc (suc (suc (suc (suc (suc (suc n)))))))) fuse_results s
          ≡ outcome_of (retry_plan deps cfg (fuse_node num cfg s) o)
    first_run n s none h =
        follow _ s rerank
          (after_fuse-rerank (stats_of_fuse s) (fuse_node num cfg s) (fuse_node-stats s) h)
        ∙ finish_run (suc (suc (suc n))) (fuse_node num cfg s)
    first_run n s (some r) h =
        follow _ s widen
          (after_fuse-widen (stats_of_fuse s) (fuse_node num cfg s) r (fuse_node-stats s) h)
        ∙ widen_run n (stats_of_fuse s) (fuse_node num cfg s) r (fuse_node-stats s) h

    fuse_node-weakness :
        (s : State)
        → should_widen num (stats_of_fuse s) cfg.fusion (fuse_node num cfg s).widened
          ≡ weakness cfg (fuse_node num cfg s)
    unfolding fuse_node stats_of_fuse
    fuse_node-weakness s = refl

    whole_run :
        (n : ℕ) (s : State)
        → run_graph num deps cfg
            (suc (suc (suc (suc (suc (suc (suc (suc (suc (suc n))))))))))
            query_process
            s
          ≡ outcome_of (search_plan deps cfg s)
    unfolding run_graph run_node next_node
    whole_run n s = step_outcome (patched num s (deps.process s.query)) _ _ λ s₁ _.
        step_outcome (hybrid_retrieve num deps cfg s₁) _ _
          λ s₂ _. first_run n s₂ (weakness cfg (fuse_node num cfg s₂)) (fuse_node-weakness s₂)

    -- The query graph implements the straight program: process the query, search, fuse, search once more
    -- with the broader request if the result is weak and no retry was used before, then rerank, verify,
    -- assemble and, if it is switched on, generate. With ten steps or more it never runs out of them,
    -- though the graph has a loop, and it raises only where a node of the program raises.
    pub run_graph_refines :
        (steps : ℕ) (s : State)
        → 10 ≤ steps
        → run_graph num deps cfg steps query_process s ≡ outcome_of (search_plan deps cfg s)
    run_graph_refines steps s h =
        subst
          (λ (n : ℕ).
            run_graph num deps cfg n query_process s ≡ outcome_of (search_plan deps cfg s))
          (omega (arith, h)) (whole_run (steps - 10) s)
