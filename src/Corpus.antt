-- ===== src/Corpus.antt =====
-- The rows of the table diaries that the watcher and the purge read and write, and the sync_log:
-- migrations/004_watcher_queue_and_soft_delete.sql and `log_action` of nhpc_qa/core/queue.py. The
-- column updated_at is set by the trigger trg_diaries_updated_at on every UPDATE of a row. The
-- rows that hang on a diary by ON DELETE CASCADE appear as their number, `n_sub_questions`.
use nhpc_parliament_rag_syst.Prelude.{
  ℕ, Bool, Option, none, some, List, [], ◌∷◌, ◌++◌, Text, text_eq, any, filter,
}

pub record Diary : Type 0 where
  pub doc_key : Text
  pub session : Text
  pub house : Text
  pub question_id : Text
  pub active : Bool
  pub deleted_at : Option ℕ
  pub deleted_reason : Option Text
  pub n_sub_questions : ℕ
  pub updated_at : ℕ

pub data Action : Type 0 where
  added soft_deleted reactivated purged failed skipped : Action

pub record LogEntry : Type 0 where
  pub action : Action
  pub doc_key : Option Text
  pub n_sub_questions : Option ℕ

pub record Corpus : Type 0 where
  pub diaries : List Diary
  pub log : List LogEntry

-- `log_action`, whose own failures are swallowed by the code.
unfoldable pub log_action : Action → Option Text → Option ℕ → Corpus → Corpus
log_action a key n c = record c {
  log = c.log ++ record { action = a; doc_key = key; n_sub_questions = n } ∷ [];
}

-- One entry for each key.
unfoldable pub log_keys : Action → List Text → Corpus → Corpus
unfolding log_action
log_keys a [] c = c
log_keys a (k ∷ ks) c = log_keys a ks (log_action a (some k) none c)

abbrev pub mem_key : List Text → Text → Bool
mem_key ks k = any (λ x. text_eq x k) ks

-- What retrieval can see: every query carries `AND d.active`.
abbrev pub visible : List Diary → List Diary
visible = filter (λ d. d.active)
