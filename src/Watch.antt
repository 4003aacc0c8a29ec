-- ===== src/Watch.antt =====
-- nhpc_qa/watcher/runner.py: which file events reach the queue, and how the worker drains it.
pub mod Events
pub mod Turns
pub mod Drains
pub mod Supporting
use nhpc_parliament_rag_syst.Prelude.{
  ℕ, zero, suc, Bool, true, false, not, ◌&&◌, ◌||◌, Option, none, some, List, [], ◌∷◌, ◌++◌,
  if◌then◌else◌, String, Text, codes, text_eq, str_eq, starts_with, ends_with, split, join, replace,
  any,
}
use nhpc_parliament_rag_syst.OsPath.{AbsPath, dot, dot_dot}
use nhpc_parliament_rag_syst.SyncQueue.{
  Queue, Job, enqueue, claim_ready, complete, fail, recover_stale,
}
use nhpc_parliament_rag_syst.SyncQueue.Folder.{question_folder}

-- A component that hides the path below it, or a lock file of Word and Excel.
abbrev pub hides : Text → Bool
hides seg =
    (starts_with dot seg && not (text_eq seg dot) && not (text_eq seg dot_dot))
    || starts_with (codes "~$") seg

-- _IGNORE
abbrev pub ignored_endings : List Text
ignored_endings =
    codes ".tmp" ∷ codes ".swp" ∷ codes ".crdownload" ∷ codes ".part" ∷ codes "~$" ∷ []

unfoldable pub last_part : List Text → Text
last_part [] = []
last_part (p ∷ []) = p
last_part (p ∷ q ∷ ps) = last_part (q ∷ ps)

-- The parts of the text of an absolute path: before the first slash stands nothing.
unfoldable pub path_parts : AbsPath → List Text
unfolding split join
path_parts p = split b'/' (replace 92 b'/' (join b'/' ([] ∷ p)))

unfoldable pub ignored : AbsPath → Bool
unfolding path_parts last_part
ignored p =
    let parts = path_parts p in
    any hides parts || any (λ e. ends_with e (last_part parts)) ignored_endings

-- The events of the observer; `is_directory` where the handler asks for it.
pub data Event : Type 0 where
  created modified : (is_directory : Bool) (src_path : AbsPath) → Event
  moved : (src_path dest_path : AbsPath) → Event
  deleted : (src_path : AbsPath) → Event

-- The configuration, and the text by which the queue knows a path.
pub record WatchConfig : Type 0 where
  pub source_root : AbsPath
  pub settle_seconds : ℕ
  pub stale_seconds : ℕ
  pub max_attempts : ℕ
  pub path_text : AbsPath → String

-- An enqueue that raises leaves the queue as it is.
abbrev pub queue_or : Queue → Option (Queue × ℕ × Bool) → Queue
queue_or q none = q
queue_or q (some (q', id, coalesced)) = q'

abbrev pub enqueue_folder : WatchConfig → ℕ → String → Queue → Option AbsPath → Queue
enqueue_folder cfg now event_type q none = q
enqueue_folder cfg now event_type q (some folder) =
    queue_or q (enqueue q now (cfg.path_text folder) event_type cfg.settle_seconds)

-- `_enqueue` of the handler.
unfoldable pub enqueue_event : WatchConfig → ℕ → AbsPath → String → Queue → Queue
unfolding ignored
enqueue_event cfg now path event_type q =
    if ignored path
    then q
    else enqueue_folder cfg now event_type q (question_folder cfg.source_root path)

unfoldable pub on_event : WatchConfig → ℕ → Event → Queue → Queue
unfolding enqueue_event
on_event cfg now (created is_directory p) q =
    if is_directory then q else enqueue_event cfg now p "upsert" q
on_event cfg now (modified is_directory p) q =
    if is_directory then q else enqueue_event cfg now p "upsert" q
on_event cfg now (moved src_path dest_path) q =
    enqueue_event cfg now src_path "delete" (enqueue_event cfg now dest_path "upsert" q)
on_event cfg now (deleted p) q = enqueue_event cfg now p "delete" q

-- What the worker calls to change the corpus: `none` is an exception, whose text `fail` records.
pub record SyncOps : Type 1 where
  pub Corpus : Type 0
  pub exists_path : String → Corpus → Bool
  pub process_upsert : ℕ → String → Corpus → Corpus × Bool
  pub process_delete : ℕ → String → Corpus → Corpus × Bool
  pub log_skipped : String → Corpus → Corpus
  pub log_failed : String → Corpus → Corpus

module _ (ops : SyncOps) where
  open ops use {Corpus}

  -- The corpus after a job, and whether the job ended without an exception.
  unfoldable pub run_job : ℕ → Job → Corpus → Corpus × Bool
  run_job now job c =
      let path = job.source_path in
      if str_eq job.event_type "delete"
      then (if ops.exists_path path c
          then ops.process_upsert now path c
          else ops.process_delete now path c)
      else if ops.exists_path path c
      then ops.process_upsert now path c
      else (ops.log_skipped path c, true)

  -- The exception of `fail` itself, on the unique index, is not caught.
  abbrev pub settle_job : WatchConfig → ℕ → Job → Queue → Corpus × Bool → Option (Queue × Corpus)
  settle_job cfg now job q (c, true) = some (complete q job.id, c)
  settle_job cfg now job q (c, false) = elim (fail q now job.id "exception" cfg.max_attempts) [
    | none ↦ none
    | some q' ↦ some (q', ops.log_failed job.source_path c)
  ]

  -- What a tick comes to: it ended after so many jobs, at the time at which a claim found none, or at a
  -- turn at which it was told to stop; it raised, or the fuel ran out.
  pub data Tick : Type 0 where
    ended : (at : ℕ) → Queue → Corpus → ℕ → Tick
    stopped : (turn : ℕ) → Queue → Corpus → ℕ → Tick
    raised out_of_fuel : Queue → Corpus → Tick

  abbrev pub counted : Bool → Tick → Tick
  counted true (ended at q c n) = ended at q c (suc n)
  counted true (stopped turn q c n) = stopped turn q c (suc n)
  counted false (ended at q c n) = ended at q c n
  counted false (stopped turn q c n) = stopped turn q c n
  counted b (raised q c) = raised q c
  counted b (out_of_fuel q c) = out_of_fuel q c

  -- One turn of the loop with the job that was claimed.
  unfoldable pub run_claimed : WatchConfig → ℕ → Job → Queue → Corpus → Option (Queue × Corpus)
  unfolding run_job
  run_claimed cfg now job q c = settle_job cfg now job q (run_job now job c)

  -- What the other threads do at each turn, counted down with the fuel: the time, whether _STOP is set,
  -- and what the observer has written to the queue since the turn before.
  pub record Others : Type 0 where
    pub clock : ℕ → ℕ
    pub is_stopped : ℕ → Bool
    pub observed : ℕ → Queue → Queue

  -- A turn that claims: the loop ends where there is no job.
  unfoldable pub work_loop : WatchConfig → String → ℕ → Others → Queue → Corpus → Tick
  unfolding claim_ready run_claimed
  work_loop cfg worker zero others q c = out_of_fuel q c
  work_loop cfg worker (suc fuel) others q c =
      let now = others.clock fuel in
      let seen = others.observed fuel q in
      let (q', jobs) = claim_ready seen now worker (λ _. false) 1 in
      let turn : Tick = elim jobs [
        | [] ↦ ended now seen c 0
        | job ∷ _ ↦ elim (run_claimed cfg now job q' c) [
          | none ↦ raised q' c
          | some (q'', c') ↦ counted (run_job now job c).1 (work_loop cfg worker fuel others q'' c')
        ]
      ] in
      if others.is_stopped fuel then stopped fuel q c 0 else turn

  unfoldable pub work_once : WatchConfig → String → ℕ → Others → Queue → Corpus → Tick
  unfolding work_loop recover_stale
  work_once cfg worker fuel others q c =
      work_loop cfg worker fuel others (recover_stale q (others.clock fuel) cfg.stale_seconds).0 c
