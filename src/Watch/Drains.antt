-- ===== src/Watch/Drains.antt =====
-- A tick of the worker of nhpc_qa/watcher/runner.py ends: how often a job can still be tried bounds the
-- turns of its loop.
use nhpc_parliament_rag_syst.Prelude.{
  if◌then◌else◌, ℕ, zero, suc, ◌≤◌, ◌<◌, ◌≡◌, refl, ap, sym, ◌∙◌, subst, Bool, true, false, Option,
  none, some, List, [], ◌∷◌, String, map, filter, count, any, All, length, inl, inr, arith, ◌==◌,
  length-take-le, count-split,
}
use nhpc_parliament_rag_syst.SyncQueue.{
  Job, Queue, done, is_processing, is_ready, has_id, update_where, claim_row, sort_by_settle, ready,
  claim_ready, complete, fail, fail_row, recover_stale,
}
use nhpc_parliament_rag_syst.SyncQueue.Live.{IsValid}
use nhpc_parliament_rag_syst.SyncQueue.Claim.{claim_ready-IsValid, count-ready-le, picked_by_id}
use nhpc_parliament_rag_syst.SyncQueue.Finish.{complete-IsValid, recover_stale-IsValid}
use nhpc_parliament_rag_syst.SyncQueue.Reach.{fail-IsValid}
use nhpc_parliament_rag_syst.Watch.{
  SyncOps, WatchConfig, Others, Tick, stopped, ended, raised, out_of_fuel, counted, run_job,
  settle_job, run_claimed, work_loop, work_once,
}
use nhpc_parliament_rag_syst.Watch.Turns.{
  turns, unlocked, picked-cases, turns-after, complete_turns, fail_turns, claimed_busy,
  fail_recorded,
}

cons-nil : {j : Job} {js : List Job} → j ∷ js ≡ [] → ⊥
cons-nil h = cc

module _ (ops : SyncOps) where
  open ops use {Corpus}

  -- The tick ended: at the time of its last claim no job was ready, or it had been told to stop.
  abbrev pub IsDrained : Others ops → Tick ops → Type 0
  IsDrained others (ended at q c n) = count (is_ready at unlocked) q.rows ≡ 0
  IsDrained others (stopped turn q c n) = others.is_stopped turn ≡ true
  IsDrained others (raised q c) = ⊥
  IsDrained others (out_of_fuel q c) = ⊥

  -- What the observer writes while the tick runs leaves the table valid and gives no job a new try:
  -- events on files that wait already do so.
  abbrev pub IsQuiet : ℕ → Others ops → Type 0
  IsQuiet max_attempts others =
      (n : ℕ) (q : Queue)
      → IsValid q
      → IsValid (others.observed n q)
        × (turns max_attempts (others.observed n q).rows ≤ turns max_attempts q.rows)

  counted-IsDrained :
      (others : Others ops) (b : Bool) (t : Tick ops)
      → IsDrained others t
      → IsDrained others (counted ops b t)
  counted-IsDrained others true (ended at q c n) h = h
  counted-IsDrained others true (stopped turn q c n) h = h
  counted-IsDrained others true (raised q c) h = h
  counted-IsDrained others true (out_of_fuel q c) h = h
  counted-IsDrained others false (ended at q c n) h = h
  counted-IsDrained others false (stopped turn q c n) h = h
  counted-IsDrained others false (raised q c) h = h
  counted-IsDrained others false (out_of_fuel q c) h = h

  module _ (cfg : WatchConfig) (worker : String) (others : Others ops) where
    -- What the rest of the loop does from every table that is valid and has fewer turns left.
    abbrev Ends : ℕ → Type 0
    Ends fuel =
        (q : Queue) (c : Corpus)
        → IsValid q
        → turns cfg.max_attempts q.rows < fuel
        → IsDrained others (work_loop ops cfg worker fuel others q c)

    settled-IsDrained :
        (fuel now : ℕ) (job : Job) (q : Queue) (c₀ : Corpus) (out : Corpus × Bool)
        → Ends fuel
        → IsValid q
        → All (λ r. has_id job.id r ≡ true → is_processing r.status ≡ true) q.rows
        → turns cfg.max_attempts (
            update_where
              (has_id job.id)
              (λ j. record j { status = done; last_error = none })
              q.rows)
          < fuel
        → turns cfg.max_attempts
            (update_where (has_id job.id) (fail_row now "exception" cfg.max_attempts) q.rows)
          < fuel
        → IsDrained others (elim (settle_job ops cfg now job q out) as (λ _. Tick ops) [
          | none ↦ raised q c₀
          | some (q'', c') ↦ counted ops out.1 (work_loop ops cfg worker fuel others q'' c')
        ])
    unfolding complete
    settled-IsDrained fuel now job q c₀ (c, true) go v busy less less' =
        counted-IsDrained others true (work_loop ops cfg worker fuel others (complete q job.id) c)
          (go (complete q job.id) c (complete-IsValid q job.id v) less)
    settled-IsDrained fuel now job q c₀ (c, false) go v busy less less' =
        let q₁ = record q {
          rows = update_where (has_id job.id) (fail_row now "exception" cfg.max_attempts) q.rows;
        } in
        let e : fail q now job.id "exception" cfg.max_attempts ≡ some q₁ =
          fail_recorded q now job.id "exception" cfg.max_attempts v busy in
        subst
          (λ (o : Option Queue).
            IsDrained others
              (elim (elim o as (λ _. Option (Queue × Corpus)) [
                | none ↦ none
                | some q' ↦ some (q', ops.log_failed job.source_path c)
              ])
                as (λ _. Tick ops) [
                  | none ↦ raised q c₀
                  | some (q'', c') ↦ counted ops false (work_loop ops cfg worker fuel others q'' c')
                ]))
          (sym e)
          (counted-IsDrained others false
            (work_loop ops cfg worker fuel others q₁ (ops.log_failed job.source_path c))
            (go q₁ (ops.log_failed job.source_path c)
              (fail-IsValid q now job.id "exception" cfg.max_attempts v e) less'))

    turn-IsDrained :
        (fuel : ℕ) (q : Queue) (c : Corpus) (picked : List Job)
        → Ends fuel
        → IsValid q
        → turns cfg.max_attempts q.rows < suc fuel
        → ready (others.clock fuel) unlocked 1 q.rows ≡ picked
        → (picked ≡ [] → count (is_ready (others.clock fuel) unlocked) q.rows ≡ 0)
        → let q' = record q {
          rows =
              update_where
                (λ r. any (has_id r.id) picked)
                (claim_row worker (others.clock fuel))
                q.rows;
        } in
          IsDrained others
            (elim (map (claim_row worker (others.clock fuel)) picked) as (λ _. Tick ops) [
              | [] ↦ ended (others.clock fuel) q c 0
              | job ∷ _ ↦
                  elim (run_claimed ops cfg (others.clock fuel) job q' c) as (λ _. Tick ops) [
                    | none ↦ raised q' c
                    | some (q'', c') ↦
                        counted ops
                          (run_job ops (others.clock fuel) job c).1
                          (work_loop ops cfg worker fuel others q'' c')
                  ]
            ])
    unfolding run_claimed claim_ready
    turn-IsDrained fuel q c [] go v less e idle = idle refl
    turn-IsDrained fuel q c (j ∷ k ∷ ks) go v less e idle = absurd (
        omega (
          arith,
          ap length e,
          length-take-le 1 (sort_by_settle (filter (is_ready (others.clock fuel) unlocked) q.rows)),
        ))
    turn-IsDrained fuel q c (j ∷ []) go v less e idle =
        let now = others.clock fuel in
        let job = claim_row worker now j in
        let q' = record q {
          rows = update_where (λ r. any (has_id r.id) (j ∷ [])) (claim_row worker now) q.rows;
        } in
        let named =
          subst
            (λ (l : List Job).
              All (λ r. any (has_id r.id) l ≡ true → is_ready now unlocked r ≡ true) q.rows)
            e (picked_by_id now unlocked 1 q.rows v.ids_unique) in
        let v' =
          subst
            (λ (l : List Job). IsValid (record q {
              rows = update_where (λ r. any (has_id r.id) l) (claim_row worker now) q.rows;
            }))
            e (claim_ready-IsValid q now worker unlocked 1 v) in
        let itself : (j.id == j.id) ≡ true = ground arith in
        let one : count (has_id j.id) (ready now unlocked 1 q.rows) ≡ 1 =
          ap (count (has_id j.id)) e ∙ rw itself (omega arith) in
        let there : 1 ≤ count (has_id j.id) q.rows = omega (
          arith,
          one,
          count-ready-le now unlocked 1 (has_id j.id) q.rows,
          count-split (has_id j.id) (is_ready now unlocked) q.rows,
        ) in
        settled-IsDrained fuel now job q' c (run_job ops now job c) go v'
          (claimed_busy now worker j q.rows)
          (omega (
            arith,
            there,
            less,
            turns-after cfg.max_attempts now worker j
                (λ r. record r { status = done; last_error = none }) q.rows
                (complete_turns cfg.max_attempts) named,
          ))
          (omega (
            arith,
            there,
            less,
            turns-after cfg.max_attempts now worker j (fail_row now "exception" cfg.max_attempts)
                q.rows (fail_turns cfg.max_attempts now now worker "exception") named,
          ))

    told_to_stop :
        (fuel : ℕ) (b : Bool) (q : Queue) (c : Corpus) (turn : Tick ops)
        → others.is_stopped fuel ≡ b
        → IsDrained others turn
        → IsDrained others (if b then stopped fuel q c 0 else turn)
    told_to_stop fuel true q c turn h d = h
    told_to_stop fuel false q c turn h d = d

    work_loop-Ends : IsQuiet cfg.max_attempts others → (fuel : ℕ) → Ends fuel
    unfolding work_loop claim_ready
    work_loop-Ends quiet zero q c v less = absurd (omega (arith, less))
    work_loop-Ends quiet (suc fuel) q c v less =
        let seen = others.observed fuel q in
        let (v', fewer) = quiet fuel q v in
        told_to_stop fuel (others.is_stopped fuel) q c _ refl (
          turn-IsDrained fuel seen c (ready (others.clock fuel) unlocked 1 seen.rows)
            (work_loop-Ends quiet fuel) v' (omega (arith, fewer, less)) refl
            (elim (picked-cases (others.clock fuel) seen.rows) [
              | inl (none_picked, idle) ↦ λ e. idle
              | inr (j, one) ↦ λ e. absurd (cons-nil (sym one ∙ e))
            ]))

    -- A tick of the worker ends. From a valid table, with more fuel than the tries that are left to the
    -- jobs once stale claims are released, whatever the jobs do and however the time goes on, the tick
    -- neither runs on nor stops with an exception: it ends because it was told to stop, or no job was
    -- ready at the time of its last claim. This holds where what the observer writes meanwhile keeps the
    -- table valid and gives no job a new try.
    pub work_once_ends :
        (fuel : ℕ) (q : Queue) (c : Corpus)
        → IsQuiet cfg.max_attempts others
        → IsValid q
        → turns cfg.max_attempts (recover_stale q (others.clock fuel) cfg.stale_seconds).0.rows
          < fuel
        → IsDrained others (work_once ops cfg worker fuel others q c)
    unfolding work_once
    work_once_ends fuel q c quiet v less =
        work_loop-Ends quiet fuel _ c
          (recover_stale-IsValid q (others.clock fuel) cfg.stale_seconds v) less
