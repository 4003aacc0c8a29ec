-- ===== src/Sync.antt =====
-- nhpc_qa/watcher/sync.py: from a path to the slice of the corpus that it affects, and the soft
-- deletion, reactivation and ingestion of that slice.
pub mod Slice
pub mod Delete
pub mod Upsert
use nhpc_parliament_rag_syst.Prelude.{
  ℕ, zero, suc, Bool, true, false, not, ◌&&◌, Option, none, some, List, [], ◌∷◌, ◌++◌,
  if◌then◌else◌, Text, codes, text_eq, starts_with, join, filter, map, get_elem?,
}
use nhpc_parliament_rag_syst.OsPath.{AbsPath, dot_dot, or_dot, rel_parts}
use nhpc_parliament_rag_syst.SyncQueue.Folder.{real_parts}
use nhpc_parliament_rag_syst.Corpus.{
  Diary, Corpus, Action, LogEntry, added, soft_deleted, reactivated, skipped, log_action, log_keys,
  mem_key,
}

abbrev slice_of_parts : List Text → Option (Text × Option Text)
slice_of_parts [] = none
slice_of_parts (p ∷ ps) = some (p, get_elem? (p ∷ ps) 2)

-- The name of the session folder (under the source root) and the question id, which is `none` for an
-- event above the question level.
unfoldable pub source_slice : AbsPath → AbsPath → Option (Text × Option Text)
unfolding rel_parts join real_parts
source_slice src_root p =
    let rel = join b'/' (or_dot (rel_parts p src_root)) in
    if starts_with dot_dot rel then none else slice_of_parts (real_parts rel)

-- WHERE session = … AND question_id = … AND active, or without the session.
abbrev pub same_question : Text → Diary → Bool
same_question question_id d = text_eq d.question_id question_id

abbrev pub deletes_in : Text → Text → Diary → Bool
deletes_in question_id session d =
    text_eq d.session session && (same_question question_id d && d.active)

-- An empty slug is no slug: `if session_slug:`.
abbrev pub deletes : Text → Option Text → Diary → Bool
deletes question_id none d = same_question question_id d && d.active
deletes question_id (some []) d = same_question question_id d && d.active
deletes question_id (some (k ∷ session)) d = deletes_in question_id (k ∷ session) d

abbrev pub mark_deleted : ℕ → Text → Diary → Diary
mark_deleted now reason d = record d {
  active = false;
  deleted_at = some now;
  deleted_reason = some reason;
  updated_at = now;
}

abbrev pub doc_keys : List Diary → List Text
doc_keys = map (λ d. d.doc_key)

unfoldable pub soft_delete : ℕ → Text → Text → Option Text → Corpus → Corpus × List Text
unfolding log_keys
soft_delete now question_id reason session_slug c =
    let keys = doc_keys (filter (deletes question_id session_slug) c.diaries) in
    (
      log_keys soft_deleted keys (record c {
        diaries =
            map (λ d. if deletes question_id session_slug d then mark_deleted now reason d else d)
              c.diaries;
      }),
      keys,
    )

abbrev pub restore : ℕ → Diary → Diary
restore now d = record d {
  active = true;
  deleted_at = none;
  deleted_reason = none;
  updated_at = now;
}

abbrev pub returns : List Text → Diary → Bool
returns keys d = mem_key keys d.doc_key && not d.active

unfoldable pub reactivate : ℕ → List Text → Corpus → Corpus × List Text
unfolding log_keys
reactivate now [] c = (c, [])
reactivate now (k ∷ ks) c =
    let back = doc_keys (filter (returns (k ∷ ks)) c.diaries) in
    (
      log_keys reactivated back (record c {
        diaries = map (λ d. if returns (k ∷ ks) d then restore now d else d) c.diaries;
      }),
      back,
    )

abbrev pub in_slice : Option Text → Text → Diary → Bool
in_slice none session d = text_eq d.session session
in_slice (some question_id) session d = text_eq d.session session && same_question question_id d

-- The documents of the slice; of a session folder that has no recognisable name, none.
unfoldable pub docs_for_slice : Option Text → Option Text → List Diary → List Diary
docs_for_slice only_token none ds = []
docs_for_slice only_token (some session) ds = filter (in_slice only_token session) ds

pub data DeleteResult : Type 0 where
  refused : DeleteResult
  deleted : List Text → DeleteResult

abbrev pub reason_removed : Text
reason_removed = codes "source path removed"

delete_slice :
    (Text → Option Text) → ℕ → Option (Text × Option Text) → Corpus → Corpus × DeleteResult
unfolding soft_delete log_action
delete_slice normalize_session now (some (session_dir, some only_token)) c =
    let (c', keys) = soft_delete now only_token reason_removed (normalize_session session_dir) c in
    (c', deleted keys)
delete_slice normalize_session now _ c = (log_action skipped none none c, refused)

-- `process_delete`. `normalize_session` is that of the crawler.
unfoldable pub process_delete :
    (Text → Option Text) → ℕ → AbsPath → AbsPath → Corpus → Corpus × DeleteResult
unfolding source_slice delete_slice
process_delete normalize_session now src_root path =
    delete_slice normalize_session now (source_slice src_root path)

-- What the ingestion calls: the stages of the pipeline with their exit codes (`none` and 0 are
-- success), the entity build, whose failure is logged and ignored, the crawler's reading of a
-- session folder's name, and the time at which the documents are reactivated.
pub record Stages : Type 0 where
  pub is_dir : Text → Bool
  pub normalize_session : Text → Option Text
  pub crawl : Corpus → Option ℕ × Corpus
  pub parse : Option Text → Corpus → Option ℕ × Corpus
  pub load : Option Text → Corpus → Option ℕ × Corpus
  pub embed : Corpus → Option ℕ × Corpus
  pub build_entities : Option Text → Corpus → Corpus
  pub report_time : ℕ

pub data UpsertResult : Type 0 where
  outside : UpsertResult
  ingested : List Text → List Text → UpsertResult
  unrecognised_session crawl_failed parse_failed load_failed embed_failed ingested_nothing :
      UpsertResult

-- `rc in (0, None)`
abbrev pub is_ok : Option ℕ → Bool
is_ok none = true
is_ok (some zero) = true
is_ok (some (suc n)) = false

-- An "added" entry for each document that was not reactivated.
log_added : List Diary → List Text → Corpus → Corpus
unfolding log_action
log_added [] back c = c
log_added (d ∷ ds) back c = log_added ds back (
    if mem_key back d.doc_key
    then c
    else log_action added (some d.doc_key) (some d.n_sub_questions) c)

finish_report : List Diary → Corpus × List Text → Corpus × UpsertResult
unfolding log_added
finish_report [] (c, back) = (c, ingested_nothing)
finish_report (d ∷ ds) (c, back) = (log_added (d ∷ ds) back c, ingested (doc_keys (d ∷ ds)) back)

-- The documents are read before the reactivation, which is run even where there are none.
report : ℕ → Option Text → Text → Corpus → Corpus × UpsertResult
unfolding docs_for_slice reactivate finish_report
report now only_token slug c =
    let docs = docs_for_slice only_token (some slug) c.diaries in
    finish_report docs (reactivate now (doc_keys docs) c)

module _ (st : Stages) where
  open st use {is_dir, normalize_session, crawl, parse, load, embed, build_entities, report_time}

  run_embed : Option Text → Text → Corpus → Corpus × UpsertResult
  unfolding report
  run_embed only_token slug c =
      let (rc, c') = embed c in
      if is_ok rc
      then report report_time only_token slug (build_entities only_token c')
      else (c', embed_failed)

  run_load : Option Text → Text → Corpus → Corpus × UpsertResult
  unfolding run_embed
  run_load only_token slug c =
      let (rc, c') = load only_token c in
      if is_ok rc then run_embed only_token slug c' else (c', load_failed)

  run_parse : Option Text → Text → Corpus → Corpus × UpsertResult
  unfolding run_load
  run_parse only_token slug c =
      let (rc, c') = parse only_token c in
      if is_ok rc then run_load only_token slug c' else (c', parse_failed)

  run_slice : Option Text → Text → Corpus → Corpus × UpsertResult
  unfolding run_parse
  run_slice only_token slug c =
      let (rc, c') = crawl c in
      if is_ok rc then run_parse only_token slug c' else (c', crawl_failed)

  upsert_slice : Option (Text × Option Text) → Corpus → Corpus × UpsertResult
  unfolding log_action run_slice
  upsert_slice none c = (log_action skipped none none c, outside)
  upsert_slice (some (session_dir, only_token)) c =
      if is_dir session_dir
      then elim (normalize_session session_dir) [
        | none ↦ (c, unrecognised_session)
        | some slug ↦ run_slice only_token slug c
      ]
      else (log_action skipped none none c, outside)

  unfoldable pub process_upsert : AbsPath → AbsPath → Corpus → Corpus × UpsertResult
  unfolding source_slice upsert_slice
  process_upsert src_root path = upsert_slice (source_slice src_root path)
