-- ===== src/SyncQueue/Reach.antt =====
-- Every interleaving of the observer, any number of workers and the recovery: the statements of
-- nhpc_qa/core/queue.py as steps of one table.
use nhpc_parliament_rag_syst.Prelude.{
  ℕ, String, ◌≡◌, refl, subst, Bool, some, arith, Bool-cases, inl, inr, eq_of_some,
}
use nhpc_parliament_rag_syst.SyncQueue.{
  Queue, empty, has_id, update_where, fail_row, index_holds, enqueue, claim_ready, complete, fail,
  recover_stale,
}
use nhpc_parliament_rag_syst.SyncQueue.Live.{
  IsValid, empty-IsValid, index_holds→one_live, rows-IsValid,
}
use nhpc_parliament_rag_syst.SyncQueue.Enqueue.{enqueue-IsValid}
use nhpc_parliament_rag_syst.SyncQueue.Claim.{claim_ready-IsValid}
use nhpc_parliament_rag_syst.SyncQueue.Finish.{complete-IsValid, recover_stale-IsValid}

-- One committed statement. Who runs it, when, and on which id is left open: a worker whose claim was
-- taken from it may still complete or fail its old job.
pub data Step : Queue → Queue → Type 0 where
  event :
      {q q' : Queue} (now : ℕ) (path event_type : String) (s id : ℕ) (coalesced : Bool)
      → enqueue q now path event_type s ≡ some (q', id, coalesced)
      → Step q q'
  claim :
      {q : Queue} (now : ℕ) (worker : String) (locked : ℕ → Bool) (limit : ℕ)
      → Step q (claim_ready q now worker locked limit).0
  finish : {q : Queue} (id : ℕ) → Step q (complete q id)
  give_up :
      {q q' : Queue} (now id : ℕ) (error : String) (max_attempts : ℕ)
      → fail q now id error max_attempts ≡ some q'
      → Step q q'
  recover : {q : Queue} (now stale_after : ℕ) → Step q (recover_stale q now stale_after).0

pub data Reach : Queue → Type 0 where
  start : Reach empty
  next : {q q' : Queue} → Reach q → Step q q' → Reach q'

pub fail-IsValid :
    (q : Queue) (now i : ℕ) (error : String) (m : ℕ) {q' : Queue}
    → IsValid q
    → fail q now i error m ≡ some q'
    → IsValid q'
unfolding fail
fail-IsValid q now i error m {q'} v h =
    let rows' = update_where (has_id i) (fail_row now error m) q.rows in
    elim (Bool-cases (index_holds rows')) [
      | inl ok ↦ subst IsValid (eq_of_some (rw ok at h)) (
          rows-IsValid q (has_id i) (fail_row now error m) (λ j. refl)
            (index_holds→one_live rows' ok) v)
      | inr bad ↦ ground arith
    ]

Step-IsValid : {q q' : Queue} → Step q q' → IsValid q → IsValid q'
Step-IsValid (event now path e s id c h) v = enqueue-IsValid _ now path e s v h
Step-IsValid (claim now w locked limit) v = claim_ready-IsValid _ now w locked limit v
Step-IsValid (finish id) v = complete-IsValid _ id v
Step-IsValid (give_up now id error m h) v = fail-IsValid _ now id error m v h
Step-IsValid (recover now s) v = recover_stale-IsValid _ now s v

-- In every table that the operations can lead to from the empty one, in any order and by any number
-- of workers, each path has at most one live job, and no id is given twice.
pub Reach-IsValid : {q : Queue} → Reach q → IsValid q
Reach-IsValid start = empty-IsValid
Reach-IsValid (next r s) = Step-IsValid s (Reach-IsValid r)
