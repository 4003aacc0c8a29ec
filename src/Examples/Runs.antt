-- ===== src/Examples/Runs.antt =====
-- Runs of nhpc_qa/watcher/purge.py and runner.py and of nhpc_qa/pipeline/orchestrator.py.
use mathlib.Core.List.Memᴰ.{head}
use nhpc_parliament_rag_syst.Prelude.{
  ◌↔◌, inl, inr, Bool, ◌&&◌, ◌==◌, ltb, any, text_eq, if◌then◌else◌, count, str_eq, arith, ℕ, ◌≡◌,
  refl, true, false, not, none, some, [], ◌∷◌, ◌++◌, ◌+◌, is_space, codes, filter, any, text_eq,
}
use nhpc_parliament_rag_syst.OsPath.{AbsPath}
use nhpc_parliament_rag_syst.Corpus.{Diary, Corpus, visible}
use nhpc_parliament_rag_syst.SyncQueue.{empty, recover_stale, enqueue}
use nhpc_parliament_rag_syst.SyncQueue.Folder.{question_folder}
use nhpc_parliament_rag_syst.SyncQueue.Live.{empty-IsValid}
use nhpc_parliament_rag_syst.Purge.{purge, is_candidate, parse_age, is_confirmed}
use nhpc_parliament_rag_syst.Purge.Grace.{HasExpired, purge_exact, purge_ignores_reactivation}
use nhpc_parliament_rag_syst.Stages.{Entries, Options, run_plan, stages_in_order}
use nhpc_parliament_rag_syst.Stages.Plan.{run_plan_exact, Amounts}
use nhpc_parliament_rag_syst.Watch.{
  SyncOps, Others, WatchConfig, last_part, ignored, created, modified, moved, deleted, on_event,
  work_once,
}
use nhpc_parliament_rag_syst.Watch.Events.{on_event_hidden, on_event-IsValid}
use nhpc_parliament_rag_syst.Watch.Supporting.{
  Timer, Timers, support_created, on_support_event, start_timer, fire, finish,
}
use nhpc_parliament_rag_syst.Watch.Supporting.Settling.{
  quiet_start, quiet_event, quiet_fire, quiet_finish, IsOrderly, Quiet-IsOrderly, timer_forgotten,
}
use nhpc_parliament_rag_syst.Watch.Drains.{work_once_ends, IsDrained}

abbrev old_row : Diary
old_row = record {
  doc_key = codes "S25/ls/12";
  session = codes "S25";
  house = codes "ls";
  question_id = codes "12";
  active = false;
  deleted_at = some 100;
  deleted_reason = none;
  n_sub_questions = 2;
  updated_at = 100;
}

abbrev one_deleted : Corpus
one_deleted = record { diaries = old_row ∷ []; log = [] }

-- The row is reactivated.
abbrev back_again : Corpus → Corpus
back_again c = record {
  diaries = record old_row { active = true; deleted_at = none } ∷ [];
  log = c.log;
}

abbrev root : AbsPath
root = codes "data" ∷ []

abbrev config : WatchConfig
config = record {
  source_root = root;
  settle_seconds = 10;
  stale_seconds = 900;
  max_attempts = 3;
  path_text = λ _. "a/b/c";
}

abbrev ops : SyncOps
ops = record {
  Corpus = Corpus;
  exists_path = λ _ _. true;
  process_upsert = λ _ _ c. (c, true);
  process_delete = λ _ _ c. (c, false);
  log_skipped = λ _ c. c;
  log_failed = λ _ c. c;
}

-- The loader fails.
abbrev entries : Entries
entries = record {
  World = ℕ;
  crawler = λ _ w. (w + 1, none);
  parser = λ _ w. (w + 10, some 0);
  loader = λ _ w. (w + 100, some 2);
  embedder = λ _ w. (w + 1000, none);
  str = λ _. codes "5";
}

abbrev options : Options
options = record {
  source = codes "in";
  organized_root = codes "organized";
  dry_run = false;
  limit = 5;
  force = false;
  only = none;
  llm_grouping = true;
}

purge_exact_example :
    let c' = (purge 5000 (codes "1h") false true [] (λ x. x) one_deleted).0 in
    (c'.diaries ≡ filter (λ d. not (is_candidate 5000 3600 d)) one_deleted.diaries)
    × ((d : Diary) → (is_candidate 5000 3600 d ≡ true) ↔ HasExpired 5000 3600 d)
    × (visible c'.diaries ≡ visible one_deleted.diaries)
unfolding is_confirmed
purge_exact_example =
    purge_exact 5000 b'1' [] b'h' 3600 true [] one_deleted refl (inr (inl (refl, refl))) refl
      ((λ _. refl), tt)

purge_ignores_reactivation_example :
    any
      (λ x. text_eq x.doc_key old_row.doc_key)
      (purge 5000 (codes "1h") false true [] back_again one_deleted).0.diaries
    ≡ false
unfolding parse_age is_confirmed is_space
purge_ignores_reactivation_example =
    purge_ignores_reactivation 5000 3600 (codes "1h") true [] back_again one_deleted old_row refl
      refl refl

run_plan_exact_example :
    Amounts entries options stages_in_order 0 (run_plan entries options stages_in_order 0)
run_plan_exact_example = run_plan_exact entries options stages_in_order 0

on_event_hidden_example :
    let staged = root ++ codes ".upload_staging" ∷ codes "reply.pdf" ∷ [] in
    (on_event config 3 (created false staged) empty ≡ empty)
    × (on_event config 3 (modified false staged) empty ≡ empty)
    × (on_event config 3 (deleted staged) empty ≡ empty)
    × ((dest : AbsPath)
        → on_event config 3 (moved staged dest) empty
          ≡ on_event config 3 (created false dest) empty)
    × ((src : AbsPath)
        → on_event config 3 (moved src staged) empty ≡ on_event config 3 (deleted src) empty)
on_event_hidden_example =
    on_event_hidden config 3 false root (codes ".upload_staging") (codes "reply.pdf" ∷ []) empty
      refl refl

-- Nothing happens meanwhile, and nobody tells the worker to stop.
abbrev nobody : Others ops
nobody = record { clock = λ _. 50; is_stopped = λ _. false; observed = λ _ q. q }

work_once_ends_example : IsDrained ops nobody (
    work_once ops config "w" 5 nobody
      (on_event config 3 (deleted (root ++ codes "S" ∷ [])) empty)
      one_deleted)
unfolding recover_stale on_event question_folder enqueue
work_once_ends_example =
    work_once_ends ops config "w" nobody 5
      (on_event config 3 (deleted (root ++ codes "S" ∷ [])) empty) one_deleted
      (λ n q v. (v, omega arith))
      (on_event-IsValid config 3 (deleted (root ++ codes "S" ∷ [])) empty empty-IsValid)
      (omega arith)

abbrev file : AbsPath
file = root ++ codes "rules" ∷ codes "act.pdf" ∷ []

abbrev no_timers : Timers
no_timers = record { entries = []; pending = []; next_timer = 0 }

abbrev is_no_dir : AbsPath → Bool
is_no_dir _ = false

-- The text of a path is its last component.
abbrev named : WatchConfig
named = record config {
  path_text = λ p. if text_eq (last_part p) (codes "act.pdf") then "act" else "fee";
}

abbrev other_file : AbsPath
other_file = root ++ codes "rules" ∷ codes "fee.pdf" ∷ []

abbrev act_timer : Timer
act_timer = record { timer_id = 0; path = "act"; kind = "upsert"; due = 150 }

-- A file is created and its timer fires; while it is processed another file is created, and then the
-- processing ends.
abbrev processed : Timers
processed = finish act_timer (
    on_support_event named is_no_dir 160 (support_created false other_file)
      (fire act_timer (on_support_event named is_no_dir 50 (support_created false file) no_timers)))

Quiet-IsOrderly_example : IsOrderly processed []
unfolding on_support_event ignored last_part
Quiet-IsOrderly_example = Quiet-IsOrderly {cfg = named} {is_dir = is_no_dir} (
    quiet_finish
      (quiet_event
        (quiet_fire (quiet_event quiet_start 50 (support_created false file) (tt, tt)) act_timer
          (head {xs = []} refl))
        160 (support_created false other_file) ((refl, tt), tt))
      act_timer (head refl))

abbrev first_timer : Timer
first_timer = record { timer_id = 0; path = "act.pdf"; kind = "upsert"; due = 100 }

abbrev one_file : Timers
one_file = record { entries = ("act.pdf", 0) ∷ []; pending = first_timer ∷ []; next_timer = 1 }

timer_forgotten_example :
    let after = start_timer (250 + 100) "act.pdf" "upsert" (
      finish first_timer
        (start_timer (210 + 100) "act.pdf" "upsert" (fire first_timer one_file))) in
    (count (λ u. str_eq "act.pdf" u.path) after.pending ≡ 2)
    × (any
          (λ u. str_eq "act.pdf" u.path && (u.due == 210 + 100) && ltb u.due (250 + 100))
          after.pending
        ≡ true)
timer_forgotten_example =
    timer_forgotten first_timer 210 250 100 "upsert" "upsert" one_file (refl, tt) (omega arith)
