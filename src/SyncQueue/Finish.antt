-- ===== src/SyncQueue/Finish.antt =====
-- `complete`, `fail` and `recover_stale` of nhpc_qa/core/queue.py: how a claim ends.
use nhpc_parliament_rag_syst.Prelude.{
  ℕ, ◌+◌, ◌≤◌, String, ◌≡◌, refl, ap, true, Option, none, some, List, [], ◌∷◌, arith, All-trivial,
  Bool-cases, inl, inr,
}
use nhpc_parliament_rag_syst.SyncQueue.{
  Job, Queue, processing, done, is_stale, is_event_type, holds_path, has_id, update_where,
  release_row, coalesce, live_row, enqueue, complete, recover_stale,
}
use nhpc_parliament_rag_syst.SyncQueue.Live.{IsValid, live_count, update_where-IsValid}
use nhpc_parliament_rag_syst.SyncQueue.Enqueue.{enqueue_coalesces, enqueue-IsValid}

abbrev done_row : Job → Job
done_row j = record j { status = done; last_error = none }

pub complete-IsValid : (q : Queue) (queue_id : ℕ) → IsValid q → IsValid (complete q queue_id)
unfolding complete
complete-IsValid q i v =
    update_where-IsValid q (has_id i) done_row (λ j. refl)
      (λ path. All-trivial _ (λ j. ground arith) q.rows) v

id_of : {k j : Job} → some k ≡ some j → k.id ≡ j.id
id_of e = ap (λ (o : Option Job). elim o [ none ↦ 0 | some i ↦ i.id ]) e

live_row-none :
    (path : String) (rows : List Job) → live_count path rows ≡ 0 → live_row path rows ≡ none
unfolding live_row
live_row-none path [] h = refl
live_row-none path (j ∷ js) h = ground (arith, live_row-none path js)

done_count-le :
    (path : String) (i : ℕ) (rows : List Job)
    → live_count path (update_where (has_id i) done_row rows) ≤ live_count path rows
done_count-le path i [] = omega arith
done_count-le path i (j ∷ js) = ground (arith, done_count-le path i js)

-- Completing the live job of a path leaves the path with no live job.
complete-live_row :
    (path : String) (rows : List Job) (j : Job)
    → live_count path rows ≤ 1
    → live_row path rows ≡ some j
    → live_count path (update_where (has_id j.id) done_row rows) ≡ 0
unfolding live_row
complete-live_row path [] j v h = refl
complete-live_row path (k ∷ ks) j v h = elim (Bool-cases (holds_path path k)) [
  | inl hit ↦
      let same : k.id ≡ j.id = id_of (rw hit at h) in
      ground (arith, same, done_count-le path j.id ks)
  | inr miss ↦ ground (arith, complete-live_row path ks j (ground arith) (rw miss at h))
]

pub recover_stale-IsValid :
    (q : Queue) (now stale_after : ℕ) → IsValid q → IsValid (recover_stale q now stale_after).0
unfolding recover_stale
recover_stale-IsValid q now s v =
    update_where-IsValid q (is_stale now s) release_row (λ j. refl)
      (λ path. All-trivial _ (λ j. ground arith) q.rows) v

-- An event of a known type that arrives while the job of its path is being processed is counted on
-- that job, and when that processing completes the path has no live job left: nothing will process
-- the change that the event reported.
pub event_during_processing_dropped :
    (q : Queue) (now : ℕ) (path event_type : String) (s : ℕ) (j : Job)
    → IsValid q
    → is_event_type event_type ≡ true
    → live_row path q.rows ≡ some j
    → j.status ≡ processing
    → ((q' : Queue) × (enqueue q now path event_type s ≡ some (q', j.id, true))
        × (live_row path (complete q' j.id).rows ≡ none))
unfolding complete
event_during_processing_dropped q now path event_type s j v known live busy =
    let (q', e, live', _) = enqueue_coalesces q now path event_type s j known live in
    (
      q',
      e,
      live_row-none path (update_where (has_id j.id) done_row q'.rows) (
          complete-live_row path q'.rows (coalesce event_type (now + s) now j)
            ((enqueue-IsValid q now path event_type s v e).one_live path) live'),
    )
