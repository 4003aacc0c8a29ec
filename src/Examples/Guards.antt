-- ===== src/Examples/Guards.antt =====
-- Runs of nhpc_qa/api/security/upload_guard.py, paths.py and rbac.py, of
-- nhpc_qa/pipeline/parse/routing.py and of nhpc_qa/retrieval/verify.py.
use nhpc_parliament_rag_syst.Prelude.{
  ℕ, ◌≡◌, inl, refl, true, false, none, some, List, [], ◌∷◌, ◌++◌, Text, codes, has, strip_by,
  is_space,
}
use nhpc_parliament_rag_syst.OsPath.{AbsPath, below, raw_join, normalise, step}
use nhpc_parliament_rag_syst.Upload.{Unicode, jail, sanitize_component}
use nhpc_parliament_rag_syst.Upload.Jail.{jail_inside, sanitize_component-has}
use nhpc_parliament_rag_syst.Files.{FileSystem, Files}
use nhpc_parliament_rag_syst.Routing.{RoutingConfig, Page}
use nhpc_parliament_rag_syst.Verify.{entry, unusable, Candidate, Model}

abbrev root : AbsPath
root = codes "data" ∷ []

abbrev plain_unicode : Unicode
plain_unicode = record { nfc = λ n. n; is_control = λ c. false }

abbrev disk : FileSystem
disk = record { realpath = normalise []; is_file = λ p. true }

abbrev files : Files
files = record {
  replies = record { reply_key = codes "k"; answer_file_path = some (codes "a/b.pdf") } ∷ [];
  annexures = [];
}

jail_inside_example :
    (c : Text) × (rest : AbsPath) × (root ++ codes "S" ∷ codes "a.pdf" ∷ []
      ≡ normalise [] root ++ c ∷ rest)
unfolding jail raw_join normalise below step
jail_inside_example =
    jail_inside (normalise []) root (codes "S/x/../a.pdf") (root ++ codes "S" ∷ codes "a.pdf" ∷ [])
      refl

sanitize_component-has_example : has b'/' (codes "a_b.pdf") ≡ false
unfolding sanitize_component strip_by is_space
sanitize_component-has_example =
    sanitize_component-has plain_unicode b'/' (codes " a/b.pdf.") (codes "a_b.pdf") (inl refl) refl

abbrev thresholds : RoutingConfig
thresholds = record {
  scanned_char_threshold_per_page = 2;
  visual_min_text_chars = 2;
  image_coverage_threshold = 500;
}

abbrev two_pages : List Page
two_pages =
    record { page_text = codes "text"; image_coverage = 0; n_images = 0 }
    ∷ record { page_text = []; image_coverage = 900; n_images = 1 }
    ∷ []

abbrev candidate : ℕ → ℕ → Candidate
candidate n logit = record {
  position = n;
  doc_key = codes "k";
  sub_question_id = none;
  question_text = codes "dams";
  rerank_logit = some logit;
  relevance = none;
  verify_verdict = none;
}

abbrev two_candidates : List Candidate
two_candidates = candidate 0 5 ∷ candidate 1 1 ∷ []

-- A model that keeps the first of two, and gives no verdict on the second.
abbrev answering : Model
answering = record {
  complete_text = λ _ _. some (codes "[]");
  load_list = λ _. some (entry (some 0) (codes "similar") ∷ unusable ∷ []);
}
