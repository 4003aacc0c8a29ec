-- ===== src/Watch/Events.antt =====
-- The observer half of nhpc_qa/watcher/runner.py: what the events do to the queue.
use nhpc_parliament_rag_syst.Prelude.{
  ℕ, ◌≡◌, refl, Bool, true, false, Option, none, some, List, [], ◌∷◌, ◌++◌, String, Text, join, any,
  all, if◌then◌else◌, split-join, has-join, replace-fresh, Bool-cases, inl, inr, Option-cases,
  arith,
}
use nhpc_parliament_rag_syst.OsPath.{AbsPath}
use nhpc_parliament_rag_syst.SyncQueue.{Queue, enqueue}
use nhpc_parliament_rag_syst.SyncQueue.Live.{IsValid}
use nhpc_parliament_rag_syst.SyncQueue.Enqueue.{enqueue-IsValid}
use nhpc_parliament_rag_syst.SyncQueue.Folder.{question_folder, is_clean, no_slash, no_backslash}
use nhpc_parliament_rag_syst.Watch.{
  WatchConfig, Event, hides, path_parts, ignored, enqueue_folder, enqueue_event, on_event, created,
  modified, moved, deleted,
}

any-append-cons :
    (f : Text → Bool) (xs : List Text) (x : Text) (ys : List Text)
    → f x ≡ true
    → any f (xs ++ x ∷ ys) ≡ true
any-append-cons f [] x ys h = ground arith
any-append-cons f (y ∷ xs) x ys h = ground (arith, any-append-cons f xs x ys h)

-- The parts of a clean path are its components.
path_parts-clean : (p : AbsPath) → all is_clean p ≡ true → path_parts p ≡ [] ∷ p
unfolding path_parts
path_parts-clean p h =
    rw
      (replace-fresh 92 b'/' (join b'/' ([] ∷ p))
        (has-join 92 b'/' ([] ∷ p) (λ e. omega (arith, e)) (ground (arith, no_backslash p h))))
      (split-join b'/' [] p (no_slash p h))

ignored-hidden :
    (above : AbsPath) (seg : Text) (rest : AbsPath)
    → all is_clean (above ++ seg ∷ rest) ≡ true
    → hides seg ≡ true
    → ignored (above ++ seg ∷ rest) ≡ true
unfolding ignored
ignored-hidden above seg rest clean h =
    rw (path_parts-clean (above ++ seg ∷ rest) clean)
      (ground (arith, any-append-cons hides ([] ∷ above) seg rest h))

if_either : (b : Bool) (q : Queue) {q' : Queue} → q' ≡ q → (if b then q else q') ≡ q
if_either true q h = refl
if_either false q h = h

-- A file below a hidden folder never reaches the queue, however deep it lies: its creation, its change
-- and its removal leave the queue as it is (so a half-copied upload in the staging folder is not
-- parsed). A move out of the hidden folder is to the queue what the creation of the destination is, and
-- a move into it what the removal of the source is.
pub on_event_hidden :
    (cfg : WatchConfig) (now : ℕ) (is_directory : Bool) (above : AbsPath) (seg : Text)
    (rest : AbsPath) (q : Queue)
    → all is_clean (above ++ seg ∷ rest) ≡ true
    → hides seg ≡ true
    → (on_event cfg now (created is_directory (above ++ seg ∷ rest)) q ≡ q)
      × (on_event cfg now (modified is_directory (above ++ seg ∷ rest)) q ≡ q)
      × (on_event cfg now (deleted (above ++ seg ∷ rest)) q ≡ q)
      × ((dest : AbsPath)
          → on_event cfg now (moved (above ++ seg ∷ rest) dest) q
            ≡ on_event cfg now (created false dest) q)
      × ((src : AbsPath)
          → on_event cfg now (moved src (above ++ seg ∷ rest)) q ≡ on_event cfg now (deleted src) q)
unfolding on_event enqueue_event
on_event_hidden cfg now is_dir above seg rest q clean h =
    let e = ignored-hidden above seg rest clean h in
    (
      if_either is_dir q (rw e refl),
      if_either is_dir q (rw e refl),
      rw e refl,
      λ dest. rw e refl,
      λ src. rw e refl,
    )

enqueue_folder-IsValid :
    (cfg : WatchConfig) (now : ℕ) (event_type : String) (q : Queue) (folder : Option AbsPath)
    → IsValid q
    → IsValid (enqueue_folder cfg now event_type q folder)
enqueue_folder-IsValid cfg now event_type q none v = v
enqueue_folder-IsValid cfg now event_type q (some folder) v =
    elim (Option-cases (enqueue q now (cfg.path_text folder) event_type cfg.settle_seconds)) [
      | inl e ↦ rw e v
      | inr ((q', i, c), e) ↦
          rw e (enqueue-IsValid q now (cfg.path_text folder) event_type cfg.settle_seconds v e)
    ]

enqueue_event-IsValid :
    (cfg : WatchConfig) (now : ℕ) (path : AbsPath) (event_type : String) (q : Queue)
    → IsValid q
    → IsValid (enqueue_event cfg now path event_type q)
unfolding enqueue_event
enqueue_event-IsValid cfg now path event_type q v = elim (Bool-cases (ignored path)) [
  | inl e ↦ rw e v
  | inr e ↦
      rw e (enqueue_folder-IsValid cfg now event_type q (question_folder cfg.source_root path) v)
]

-- Every event keeps the queue's invariant: one live job for each path, and distinct ids.
pub on_event-IsValid :
    (cfg : WatchConfig) (now : ℕ) (e : Event) (q : Queue)
    → IsValid q
    → IsValid (on_event cfg now e q)
unfolding on_event
on_event-IsValid cfg now (created true p) q v = v
on_event-IsValid cfg now (created false p) q v = enqueue_event-IsValid cfg now p "upsert" q v
on_event-IsValid cfg now (modified true p) q v = v
on_event-IsValid cfg now (modified false p) q v = enqueue_event-IsValid cfg now p "upsert" q v
on_event-IsValid cfg now (moved p p') q v =
    enqueue_event-IsValid cfg now p "delete" _ (enqueue_event-IsValid cfg now p' "upsert" q v)
on_event-IsValid cfg now (deleted p) q v = enqueue_event-IsValid cfg now p "delete" q v
