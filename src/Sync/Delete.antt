-- ===== src/Sync/Delete.antt =====
-- Soft deletion and reactivation in nhpc_qa/watcher/sync.py: what disappears from retrieval, what
-- stays, and that a folder that comes back restores what its removal hid.
use nhpc_parliament_rag_syst.Prelude.{
  ℕ, ◌≡◌, refl, ap, ap₂, sym, ◌∙◌, true, Bool, not, ◌&&◌, Option, none, some, List, [], ◌∷◌, ◌++◌,
  arith, if◌then◌else◌, Text, text_eq, text_eq_refl, filter, any, map, All, All-map, all,
}
use nhpc_parliament_rag_syst.OsPath.{AbsPath}
use nhpc_parliament_rag_syst.SyncQueue.Folder.{is_clean}
use nhpc_parliament_rag_syst.Sync.Slice.{IsShallow, source_slice-session, source_slice-house}
use nhpc_parliament_rag_syst.Corpus.{
  Diary, Corpus, Action, soft_deleted, reactivated, log_action, log_keys, mem_key, visible,
}
use nhpc_parliament_rag_syst.Sync.{
  same_question, deletes, deletes_in, mark_deleted, doc_keys, soft_delete, restore, returns,
  reactivate, in_slice, docs_for_slice, refused, reason_removed, source_slice, delete_slice,
  process_delete,
}

pub diaries-log_keys :
    (a : Action) (ks : List Text) (c : Corpus) → (log_keys a ks c).diaries ≡ c.diaries
unfolding log_keys log_action
diaries-log_keys a [] c = refl
diaries-log_keys a (k ∷ ks) c = diaries-log_keys a ks (log_action a (some k) none c)

visible-mark :
    (now : ℕ) (question_id reason session : Text) (ds : List Diary)
    → visible
        (map (λ d. if deletes_in question_id session d then mark_deleted now reason d else d) ds)
      ≡ filter (λ d. not (in_slice (some question_id) session d)) (visible ds)
visible-mark now q reason s [] = refl
visible-mark now q reason s (d ∷ ds) = ground (arith, visible-mark now q reason s ds)

keys-mark :
    (now : ℕ) (question_id reason session : Text) (ds : List Diary)
    → doc_keys
        (map (λ d. if deletes_in question_id session d then mark_deleted now reason d else d) ds)
      ≡ doc_keys ds
keys-mark now q reason s [] = refl
keys-mark now q reason s (d ∷ ds) = ground (arith, keys-mark now q reason s ds)

-- A soft deletion of one question of one session, whose slug is not empty,
-- takes exactly the documents of that session and
-- number out of retrieval; every other document that was visible stays visible as it was, also one
-- of another session with the same number, and no row is removed.
pub soft_delete_scoped :
    (now : ℕ) (question_id reason : Text) (k : ℕ) (session : Text) (c : Corpus)
    → let c' = (soft_delete now question_id reason (some (k ∷ session)) c).0 in
      (visible c'.diaries
        ≡ filter (λ d. not (in_slice (some question_id) (k ∷ session) d)) (visible c.diaries))
      × (doc_keys c'.diaries ≡ doc_keys c.diaries)
unfolding soft_delete
soft_delete_scoped now q reason k s c =
    let marked =
      map (λ d. if deletes_in q (k ∷ s) d then mark_deleted now reason d else d) c.diaries in
    let e =
      diaries-log_keys soft_deleted (doc_keys (filter (deletes_in q (k ∷ s)) c.diaries))
        (record c { diaries = marked }) in
    (
      ap visible e ∙ visible-mark now q reason (k ∷ s) c.diaries,
      ap doc_keys e ∙ keys-mark now q reason (k ∷ s) c.diaries,
    )

-- A test of the rows by number alone, as `soft_delete` makes it without a session.
abbrev pub has_number : Text → Diary → Bool
has_number question_id d = same_question question_id d

visible-mark_unscoped :
    (now : ℕ) (question_id reason : Text) (ds : List Diary)
    → visible (map (λ d. if deletes question_id none d then mark_deleted now reason d else d) ds)
      ≡ filter (λ d. not (has_number question_id d)) (visible ds)
visible-mark_unscoped now q reason [] = refl
visible-mark_unscoped now q reason (d ∷ ds) = ground (arith, visible-mark_unscoped now q reason ds)

-- A question folder that vanishes from a session folder whose name is not recognised takes every
-- visible document with that number out of retrieval, of every session.
pub delete_in_unrecognised_session :
    (normalize_session : Text → Option Text) (now : ℕ) (src_root path : AbsPath)
    (session_dir question_id : Text) (c : Corpus)
    → source_slice src_root path ≡ some (session_dir, some question_id)
    → normalize_session session_dir ≡ none
    → visible (process_delete normalize_session now src_root path c).0.diaries
      ≡ filter (λ d. not (has_number question_id d)) (visible c.diaries)
unfolding process_delete
delete_in_unrecognised_session normalize now src_root path dir q c slice unknown =
    let marked =
      map (λ d. if deletes q none d then mark_deleted now reason_removed d else d) c.diaries in
    rw (slice, delete_slice)
      (rw (unknown, soft_delete)
        (ap visible (
            diaries-log_keys soft_deleted (doc_keys (filter (deletes q none) c.diaries))
              (record c { diaries = marked }))
          ∙ visible-mark_unscoped now q reason_removed c.diaries))

shallow_refused :
    (normalize_session : Text → Option Text) (now : ℕ) (slice : Option (Text × Option Text))
    (c : Corpus)
    → IsShallow slice
    → ((delete_slice normalize_session now slice c).0.diaries ≡ c.diaries)
      × ((delete_slice normalize_session now slice c).1 ≡ refused)
unfolding delete_slice
shallow_refused normalize now none c h = (refl, refl)
shallow_refused normalize now (some (s, none)) c h = (refl, refl)
shallow_refused normalize now (some (s, some q)) c h = absurd h

-- An event at the level of a session or a house deletes nothing: the diaries stay as they are and the
-- deletion is reported as refused.
delete_refuses_session :
    (normalize_session : Text → Option Text) (now : ℕ) (src_root : AbsPath) (session house : Text)
    (c : Corpus)
    → all is_clean (session ∷ house ∷ []) ≡ true
    → ((process_delete normalize_session now src_root (src_root ++ session ∷ []) c).0.diaries
        ≡ c.diaries)
      × ((process_delete normalize_session now src_root (src_root ++ session ∷ []) c).1 ≡ refused)
      × ((process_delete normalize_session now src_root
            (src_root ++ session ∷ house ∷ [])
            c).0.diaries
          ≡ c.diaries)
      × ((process_delete normalize_session now src_root (src_root ++ session ∷ house ∷ []) c).1
          ≡ refused)
unfolding process_delete
delete_refuses_session normalize now src_root s h c clean =
    let one =
      shallow_refused normalize now (source_slice src_root (src_root ++ s ∷ [])) c
        (source_slice-session src_root s (ground arith)) in
    let two =
      shallow_refused normalize now (source_slice src_root (src_root ++ s ∷ h ∷ [])) c
        (source_slice-house src_root s h clean) in
    (one.0, one.1, two.0, two.1)

pub mem_key-filter :
    (p : Diary → Bool) (ds : List Diary) (k : Text)
    → mem_key (doc_keys (filter p ds)) k ≡ any (λ d. p d && text_eq d.doc_key k) ds
mem_key-filter p [] k = refl
mem_key-filter p (d ∷ ds) k = ground (arith, mem_key-filter p ds k)

pub own_key :
    (p : Diary → Bool) (ds : List Diary)
    → All (λ d. p d ≡ true → any (λ x. p x && text_eq x.doc_key d.doc_key) ds ≡ true) ds
own_key p [] = tt
own_key p (d ∷ ds) = (
  λ e. ground (arith, e, text_eq_refl d.doc_key),
  All-map _ _ ds (λ x h e. ground (arith, h e)) (own_key p ds),
)

keys_of_slice-mark :
    (now : ℕ) (q reason s : Text) (ds : List Diary)
    → doc_keys (
        filter
          (in_slice (some q) s)
          (map (λ d. if deletes_in q s d then mark_deleted now reason d else d) ds))
      ≡ doc_keys (filter (in_slice (some q) s) ds)
keys_of_slice-mark now q reason s [] = refl
keys_of_slice-mark now q reason s (d ∷ ds) = ground (arith, keys_of_slice-mark now q reason s ds)

-- A document of the slice that retrieval shows, with no trace of an earlier deletion.
abbrev pub IsFresh : Diary → Type 0
IsFresh d = (d.active ≡ true) × (d.deleted_at ≡ none) × (d.deleted_reason ≡ none)

-- What the doc_key, which begins with the session and ends with the number, tells of a row.
abbrev pub KeyedBy : Text → Text → List Text → Diary → Type 0
KeyedBy question_id session keys d =
    (in_slice (some question_id) session d ≡ true → IsFresh d)
    × (mem_key keys d.doc_key ≡ true → in_slice (some question_id) session d ≡ true)

-- A row of the slice is updated at this time; another row is left as it is.
abbrev pub touched : ℕ → Text → Text → Diary → Diary
touched later question_id session d =
    if in_slice (some question_id) session d then record d { updated_at = later } else d

restored_row :
    (now later : ℕ) (q reason s : Text) (keys : List Text) (d : Diary)
    → KeyedBy q s keys d
    → (in_slice (some q) s d ≡ true → mem_key keys d.doc_key ≡ true)
    → let d' = if deletes_in q s d then mark_deleted now reason d else d in
      (if returns keys d' then restore later d' else d') ≡ touched later q s d
restored_row now later q reason s keys d k m = ground (arith, k.0, k.1, m)

restored_rows :
    (now later : ℕ) (q reason s : Text) (keys : List Text) (ds : List Diary)
    → All (KeyedBy q s keys) ds
    → All (λ d. in_slice (some q) s d ≡ true → mem_key keys d.doc_key ≡ true) ds
    → map
        (λ d. if returns keys d then restore later d else d)
        (map (λ d. if deletes_in q s d then mark_deleted now reason d else d) ds)
      ≡ map (touched later q s) ds
restored_rows now later q reason s keys [] k m = refl
restored_rows now later q reason s keys (d ∷ ds) k m =
    ap₂ (λ (x : Diary) (xs : List Diary). x ∷ xs) (restored_row now later q reason s keys d k.0 m.0)
      (restored_rows now later q reason s keys ds k.1 m.1)

returns_nothing :
    (later : ℕ) (ds : List Diary) → map (λ d. if returns [] d then restore later d else d) ds ≡ ds
returns_nothing later [] = refl
returns_nothing later (d ∷ ds) = ap (λ (xs : List Diary). d ∷ xs) (returns_nothing later ds)

pub diaries-reactivate :
    (later : ℕ) (keys : List Text) (c : Corpus)
    → (reactivate later keys c).0.diaries
      ≡ map (λ d. if returns keys d then restore later d else d) c.diaries
unfolding reactivate
diaries-reactivate later [] c = sym (returns_nothing later c.diaries)
diaries-reactivate later (k ∷ ks) c =
    diaries-log_keys reactivated (doc_keys (filter (returns (k ∷ ks)) c.diaries)) (record c {
      diaries = map (λ d. if returns (k ∷ ks) d then restore later d else d) c.diaries;
    })

-- The keys that the ingestion of a slice hands to `reactivate`.
abbrev pub slice_keys : Text → Text → List Diary → List Text
slice_keys question_id session ds = doc_keys (docs_for_slice (some question_id) (some session) ds)

-- A folder that vanishes and comes back restores the diaries: a soft deletion of a question of a
-- session, followed by the reactivation of the documents of that slice, leaves every row of the slice
-- as it was but for updated_at, which is the time of the reactivation, and every other row as it was;
-- this where the slug is not empty, the slice was visible, and a doc_key of the slice belongs to no
-- other row.
pub reactivate-soft_delete :
    (now later : ℕ) (question_id reason : Text) (k : ℕ) (session : Text) (c : Corpus)
    → All
        (KeyedBy question_id (k ∷ session) (slice_keys question_id (k ∷ session) c.diaries))
        c.diaries
    → let c' = (soft_delete now question_id reason (some (k ∷ session)) c).0 in
      (reactivate later (slice_keys question_id (k ∷ session) c'.diaries) c').0.diaries
      ≡ map (touched later question_id (k ∷ session)) c.diaries
unfolding soft_delete docs_for_slice
reactivate-soft_delete now later q reason k s c keyed =
    let marked =
      map (λ d. if deletes_in q (k ∷ s) d then mark_deleted now reason d else d) c.diaries in
    let keys = slice_keys q (k ∷ s) c.diaries in
    let c' = (soft_delete now q reason (some (k ∷ s)) c).0 in
    let e : c'.diaries ≡ marked =
      diaries-log_keys soft_deleted (doc_keys (filter (deletes_in q (k ∷ s)) c.diaries))
        (record c { diaries = marked }) in
    let same : slice_keys q (k ∷ s) c'.diaries ≡ keys =
      ap (slice_keys q (k ∷ s)) e ∙ keys_of_slice-mark now q reason (k ∷ s) c.diaries in
    let back = λ (ks : List Text) (ds : List Diary).
      map (λ d. if returns ks d then restore later d else d) ds in
    diaries-reactivate later (slice_keys q (k ∷ s) c'.diaries) c'
    ∙ ap₂ back same e
    ∙ restored_rows now later q reason (k ∷ s) keys c.diaries keyed (
        All-map _ _ c.diaries
          (λ d h i. mem_key-filter (in_slice (some q) (k ∷ s)) c.diaries d.doc_key ∙ h i)
          (own_key (in_slice (some q) (k ∷ s)) c.diaries))
