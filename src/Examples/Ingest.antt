-- ===== src/Examples/Ingest.antt =====
-- Runs of nhpc_qa/watcher/sync.py on a corpus with two documents.
use mathlib.Core.Option
use nhpc_parliament_rag_syst.Prelude.{
  ◌≡◌, refl, true, false, not, none, some, [], ◌∷◌, ◌++◌, Text, codes, filter,
}
use nhpc_parliament_rag_syst.OsPath.{AbsPath}
use nhpc_parliament_rag_syst.Corpus.{Diary, Corpus, visible}
use nhpc_parliament_rag_syst.SyncQueue.Folder.{question_folder}
use nhpc_parliament_rag_syst.Sync.{
  source_slice, soft_delete, reactivate, in_slice, doc_keys, process_delete, docs_for_slice, Stages,
}
use nhpc_parliament_rag_syst.Sync.Slice.{slice_of_key}
use nhpc_parliament_rag_syst.Sync.Delete.{
  soft_delete_scoped, delete_in_unrecognised_session, has_number, reactivate-soft_delete,
  slice_keys,
}

abbrev root : AbsPath
root = codes "data" ∷ []

abbrev s25 : Text
s25 = codes "S25"

abbrev document : Text → Text → Diary
document session number = record {
  doc_key = session ++ codes "/ls/" ++ number;
  session = session;
  house = codes "ls";
  question_id = number;
  active = true;
  deleted_at = none;
  deleted_reason = none;
  n_sub_questions = 2;
  updated_at = 1;
}

abbrev two_documents : Corpus
two_documents = record {
  diaries = document s25 (codes "12") ∷ document (codes "S26") (codes "12") ∷ [];
  log = [];
}

-- One document, deleted at 100.
abbrev one_deleted : Corpus
one_deleted = record {
  diaries =
      record (document s25 (codes "12")) {
        active = false;
        deleted_at = some 100;
        deleted_reason = none;
      }
      ∷ [];
  log = [];
}

abbrev stages : Stages
stages = record {
  is_dir = λ _. true;
  normalize_session = λ s. some s;
  crawl = λ c. (none, c);
  parse = λ _ c. (some 0, c);
  load = λ _ _. (some 0, two_documents);
  embed = λ c. (none, c);
  build_entities = λ _ c. c;
  report_time = 20;
}

abbrev question_path : AbsPath
question_path = root ++ s25 ∷ codes "ls" ∷ codes "12" ∷ []

slice_of_key_example :
    (source_slice root (root ++ s25 ∷ codes "ls" ∷ codes "12" ∷ codes "a.pdf" ∷ [])
      ≡ some (s25, some (codes "12")))
    × (Option.map
          (source_slice root)
          (question_folder root (root ++ s25 ∷ codes "ls" ∷ codes "12" ∷ codes "a.pdf" ∷ []))
        ≡ some (source_slice root (root ++ s25 ∷ codes "ls" ∷ codes "12" ∷ codes "a.pdf" ∷ [])))
slice_of_key_example =
    slice_of_key root s25 (codes "ls") (codes "12") (codes "a.pdf" ∷ []) refl refl

soft_delete_scoped_example :
    let c' = (soft_delete 9 (codes "12") [] (some s25) two_documents).0 in
    (visible c'.diaries
      ≡ filter (λ d. not (in_slice (some (codes "12")) s25 d)) (visible two_documents.diaries))
    × (doc_keys c'.diaries ≡ doc_keys two_documents.diaries)
soft_delete_scoped_example = soft_delete_scoped 9 (codes "12") [] b'S' (codes "25") two_documents

delete_in_unrecognised_session_example :
    visible (process_delete (λ _. none) 9 root question_path two_documents).0.diaries
    ≡ filter (λ d. not (has_number (codes "12") d)) (visible two_documents.diaries)
unfolding source_slice
delete_in_unrecognised_session_example =
    delete_in_unrecognised_session (λ _. none) 9 root question_path s25 (codes "12") two_documents
      refl refl

reactivate-soft_delete_example :
    let c' = (soft_delete 9 (codes "12") [] (some s25) two_documents).0 in
    (reactivate 20 (slice_keys (codes "12") s25 c'.diaries) c').0.diaries
    ≡ record (document s25 (codes "12")) { updated_at = 20 }
      ∷ document (codes "S26") (codes "12")
      ∷ []
unfolding docs_for_slice
reactivate-soft_delete_example =
    reactivate-soft_delete 9 20 (codes "12") [] b'S' (codes "25") two_documents
      ((λ _. (refl, refl, refl), λ _. refl), ((λ h. cc, λ h. cc), tt))
