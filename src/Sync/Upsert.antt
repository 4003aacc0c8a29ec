-- ===== src/Sync/Upsert.antt =====
-- The ingestion of a slice, `process_upsert` of nhpc_qa/watcher/sync.py: what a success means.
use nhpc_parliament_rag_syst.Prelude.{
  ℕ, ◌≡◌, ◌≢◌, refl, true, false, Bool, Option, some, List, [], ◌∷◌, Text, All, inl, inr, ◌⊎◌,
}
use nhpc_parliament_rag_syst.OsPath.{AbsPath}
use nhpc_parliament_rag_syst.Corpus.{Diary, Corpus}
use nhpc_parliament_rag_syst.Sync.{
  doc_keys, reactivate, in_slice, docs_for_slice, source_slice, Stages, UpsertResult, ingested,
  ingested_nothing, is_ok, finish_report, report, run_embed, run_load, run_parse, run_slice,
  upsert_slice, process_upsert,
}

-- The slice in the table that an ingestion leaves: its documents are those that were reported, there
-- is at least one, and all of them are active.
abbrev pub IsIngested : Option Text → Text → List Text → Corpus → Type 0
IsIngested only_token slug keys c =
    (keys ≡ doc_keys (docs_for_slice only_token (some slug) c.diaries))
    × (keys ≢ [])
    × All (λ d. in_slice only_token slug d ≡ true → d.active ≡ true) c.diaries

-- The keys of a success.
abbrev keys_of : UpsertResult → List Text
keys_of (ingested keys back) = keys
keys_of _ = []

abbrev is_failure : UpsertResult → Bool
is_failure (ingested keys back) = false
is_failure _ = true

-- The table when the entities are built.
abbrev pub staged : Stages → Option Text → Corpus → Corpus
staged st t c = st.build_entities t (st.embed (st.load t (st.parse t (st.crawl c).1).1).1).1

abbrev pub StagesSucceed : Stages → Option Text → Corpus → Type 0
StagesSucceed st t c =
    (is_ok (st.crawl c).0 ≡ true)
    × (is_ok (st.parse t (st.crawl c).1).0 ≡ true)
    × (is_ok (st.load t (st.parse t (st.crawl c).1).1).0 ≡ true)
    × (is_ok (st.embed (st.load t (st.parse t (st.crawl c).1).1).1).0 ≡ true)

finish_report_total :
    (now : ℕ) (c : Corpus) (docs : List Diary)
    → ((docs ≡ []) × ((finish_report docs (reactivate now (doc_keys docs) c)).1 ≡ ingested_nothing))
      ⊎ ((docs ≢ [])
          × ((back : List Text) × ((finish_report docs (reactivate now (doc_keys docs) c)).1
                ≡ ingested (doc_keys docs) back)))
unfolding finish_report
finish_report_total now c [] = inl (refl, refl)
finish_report_total now c (d ∷ ds) = inr (λ e. cc, ((reactivate now (doc_keys (d ∷ ds)) c).1, refl))

-- Where the session folder is there and recognised, every stage succeeds, and the stages leave a
-- document of the slice in the table, the ingestion succeeds and reports those documents; where they
-- leave none, it fails, and does not report a success.
process_upsert_total :
    (st : Stages) (src_root path : AbsPath) (dir slug : Text) (only_token : Option Text)
    (c : Corpus)
    → source_slice src_root path ≡ some (dir, only_token)
    → st.is_dir dir ≡ true
    → st.normalize_session dir ≡ some slug
    → StagesSucceed st only_token c
    → let docs = docs_for_slice only_token (some slug) (staged st only_token c).diaries in
      ((docs ≡ []) × ((process_upsert st src_root path c).1 ≡ ingested_nothing))
      ⊎ ((docs ≢ [])
          × ((back : List Text) × ((process_upsert st src_root path c).1
                ≡ ingested (doc_keys docs) back)))
unfolding process_upsert upsert_slice run_slice run_parse run_load run_embed report
process_upsert_total st src_root path dir slug t c slice there known (a, b, d, e) =
    let c1 = staged st t c in
    rw (slice, upsert_slice)
      (rw (there, known)
        (rw (a, run_slice)
          (rw (b, run_parse)
            (rw (d, run_load)
              (rw (e, run_embed)
                (finish_report_total st.report_time c1
                  (docs_for_slice t (some slug) c1.diaries)))))))
