-- ===== src/Examples/Queue.antt =====
-- Runs of nhpc_qa/core/queue.py on a queue with one job.
use nhpc_parliament_rag_syst.Prelude.{
  ℕ, ◌≡◌, refl, Bool, true, false, none, some, [], ◌∷◌, String, codes, any, ◌≢◌,
}
use nhpc_parliament_rag_syst.OsPath.{AbsPath}
use nhpc_parliament_rag_syst.SyncQueue.{
  Job, Queue, enqueue, claim_ready, claim_row, has_id, live_row, new_job, complete,
}
use nhpc_parliament_rag_syst.SyncQueue.Live.{IsValid, live_count}
use nhpc_parliament_rag_syst.SyncQueue.Enqueue.{enqueue_total}
use nhpc_parliament_rag_syst.SyncQueue.Claim.{claim_ready_exclusive, claim_one_oldest, ClaimsOldest}
use nhpc_parliament_rag_syst.SyncQueue.Finish.{event_during_processing_dropped}
use nhpc_parliament_rag_syst.SyncQueue.Reach.{Reach, start, next, event, claim, Reach-IsValid}

abbrev job1 : Job
job1 = new_job 1 "a/b/c" "upsert" 10 0

abbrev one_job : Queue
one_job = record { rows = job1 ∷ []; next_id = 2 }

abbrev one_claimed : Queue
one_claimed = record { rows = claim_row "w" 20 job1 ∷ []; next_id = 2 }

abbrev root : AbsPath
root = codes "data" ∷ []

one_job-Reach : Reach one_job
unfolding enqueue
one_job-Reach = next start (event 0 "a/b/c" "upsert" 10 1 false refl)

one_claimed-IsValid : IsValid one_claimed
unfolding claim_ready
one_claimed-IsValid = Reach-IsValid (next one_job-Reach (claim 20 "w" (λ _. false) 1))

Reach-IsValid_example : IsValid one_job
Reach-IsValid_example = Reach-IsValid one_job-Reach

claim_ready_exclusive_example :
    any
      (has_id 1)
      (claim_ready (claim_ready one_job 20 "w" (λ _. false) 1).0 30 "v" (λ _. false) 5).1
    ≡ false
unfolding claim_ready
claim_ready_exclusive_example =
    claim_ready_exclusive one_job 20 "w" (λ _. false) 1 30 "v" (λ _. false) 5 1 refl

claim_one_oldest_example : ClaimsOldest one_job 20 "w" (λ _. false)
claim_one_oldest_example = claim_one_oldest one_job 20 "w" (λ _. false)

event_during_processing_dropped_example :
    (q' : Queue) × (enqueue one_claimed 25 "a/b/c" "upsert" 10 ≡ some (q', 1, true))
    × (live_row "a/b/c" (complete q' 1).rows ≡ none)
unfolding live_row
event_during_processing_dropped_example =
    event_during_processing_dropped one_claimed 25 "a/b/c" "upsert" 10 (claim_row "w" 20 job1)
      one_claimed-IsValid refl refl refl

enqueue_total_example :
    (q' : Queue) × (id : ℕ) × (coalesced : Bool) × (enqueue one_job 5 "x/y" "upsert" 10
      ≡ some (q', id, coalesced))
    × IsValid q'
    × (live_count "x/y" q'.rows ≡ 1)
    × ((p : String) → p ≢ "x/y" → live_row p q'.rows ≡ live_row p one_job.rows)
enqueue_total_example = enqueue_total one_job 5 "x/y" "upsert" 10 (Reach-IsValid one_job-Reach) refl
