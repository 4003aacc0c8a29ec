-- ===== src/Stages/Plan.antt =====
-- `run_stages` of nhpc_qa/pipeline/orchestrator.py: a stage that fails ends the run.
use nhpc_parliament_rag_syst.Prelude.{
  ◌≡◌, refl, sym, ap, Bool, true, false, Option, none, some, List, [], ◌∷◌, ◌++◌, Text,
  if◌then◌else◌, none-some, false≢true, subst, eq_of_some, ◌⊎◌, inl, inr, ◌∙◌, zero, suc,
}
use nhpc_parliament_rag_syst.Stages.{
  Entries, Options, Run, Exit, exit, stage_error, exit_ok, run_stage, run_plan,
}

abbrev pub as_list : Option Text → List Text
as_list none = []
as_list (some stage) = stage ∷ []

-- A stage succeeds when it ends with no exit code, or with 0.
abbrev pub Succeeds : Exit → Type 0
Succeeds e = (e ≡ exit none) ⊎ (e ≡ exit (some 0))

exit_ok-Succeeds : (e : Exit) → exit_ok e ≡ true → Succeeds e
exit_ok-Succeeds (exit none) h = inl refl
exit_ok-Succeeds (exit (some zero)) h = inr refl
exit_ok-Succeeds (exit (some (suc n))) h = absurd (false≢true h)
exit_ok-Succeeds stage_error h = absurd (false≢true h)

Succeeds-exit_ok : (e : Exit) → Succeeds e → exit_ok e ≡ true
Succeeds-exit_ok e (inl h) = ap exit_ok h
Succeeds-exit_ok e (inr h) = ap exit_ok h

module _ (en : Entries) (o : Options) where
  -- The world after stages that run one after the other, whatever their outcome.
  unfoldable pub run_each : List Text → en.World → en.World
  run_each [] w = w
  run_each (stage ∷ plan) w = run_each plan (run_stage en o stage w).0

  -- Each stage succeeds in the world that the stages before it leave.
  unfoldable pub AllSucceed : List Text → en.World → Type 0
  AllSucceed [] w = Unit
  AllSucceed (stage ∷ plan) w =
      Succeeds (run_stage en o stage w).1 × AllSucceed plan (run_stage en o stage w).0

  -- What a run amounts to: the plan is the finished stages, then the failed one if there is one, then
  -- what is left, which is nothing unless a stage failed; exactly the finished stages and the failed
  -- one have run; the finished ones succeeded, and the failed one did not.
  abbrev pub Amounts : List Text → en.World → Run en.World → Type 0
  Amounts plan w r =
      (rest : List Text) × (plan ≡ r.finished ++ as_list r.failed_stage ++ rest)
      × (r.failed_stage ≡ none → rest ≡ [])
      × (r.world ≡ run_each (r.finished ++ as_list r.failed_stage) w)
      × AllSucceed r.finished w
      × ((stage : Text)
          → r.failed_stage ≡ some stage
          → ¬ Succeeds (run_stage en o stage (run_each r.finished w)).1)

  after_stage-Amounts :
      (stage : Text) (plan : List Text) (w : en.World) (b : Bool) (r : Run en.World)
      → exit_ok (run_stage en o stage w).1 ≡ b
      → Amounts plan (run_stage en o stage w).0 r
      → Amounts (stage ∷ plan) w (
          if b
          then record {
            world = r.world;
            finished = stage ∷ r.finished;
            failed_stage = r.failed_stage;
          }
          else record {
            world = (run_stage en o stage w).0;
            finished = [];
            failed_stage = some stage;
          })
  unfolding run_each AllSucceed
  after_stage-Amounts stage plan w true r ok (rest, split, whole, same, good, bad) = (
    rest,
    ap (λ (l : List Text). stage ∷ l) split,
    whole,
    same,
    (exit_ok-Succeeds (run_stage en o stage w).1 ok, good),
    bad,
  )
  after_stage-Amounts stage plan w false r ok h = (
    plan,
    refl,
    λ e. absurd (none-some (sym e)),
    refl,
    tt,
    λ s e good. false≢true (
        sym ok
        ∙ Succeeds-exit_ok (run_stage en o stage w).1
            (subst (λ (t : Text). Succeeds (run_stage en o t w).1) (sym (eq_of_some e)) good)),
  )

  -- A stage that fails ends the run: the plan is the stages that succeeded, each with no exit code or
  -- with 0 in the world that the ones before it left, then the failed one, which ended with another exit
  -- code or with an error, then stages of which none has run; without a failure the whole plan has run,
  -- in its order.
  pub run_plan_exact : (plan : List Text) (w : en.World) → Amounts plan w (run_plan en o plan w)
  unfolding run_plan run_each AllSucceed
  run_plan_exact [] w = ([], refl, λ e. refl, refl, tt, λ s e. absurd (none-some e))
  run_plan_exact (stage ∷ plan) w =
      after_stage-Amounts stage plan w (exit_ok (run_stage en o stage w).1) _ refl
        (run_plan_exact plan (run_stage en o stage w).0)
