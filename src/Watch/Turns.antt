-- ===== src/Watch/Turns.antt =====
-- How often the jobs of the queue can still be tried by the worker of nhpc_qa/watcher/runner.py, and what
-- a turn of its loop does to that.
use nhpc_parliament_rag_syst.Prelude.{
  ℕ, suc, ◌+◌, ◌-◌, ◌≤◌, ◌≡◌, refl, ap, Bool, true, false, none, some, List, [], ◌∷◌, String, take,
  filter, count, any, All, Bool-cases, inl, inr, ◌⊎◌, arith, if◌then◌else◌, leb, ◌==◌,
}
use nhpc_parliament_rag_syst.SyncQueue.{
  Job, Queue, done, is_pending, is_processing, is_ready, has_id, holds_path, update_where,
  claim_row, sort_by_settle, ready, fail, fail_row,
}
use nhpc_parliament_rag_syst.SyncQueue.Live.{IsValid, live_count-update_where, one_live→index_holds}
use nhpc_parliament_rag_syst.SyncQueue.Claim.{none_ready}

-- How often a pending job can still be claimed: once, and once more for each attempt that is left.
abbrev pub turns_of : ℕ → Job → ℕ
turns_of max_attempts j = if is_pending j.status then suc (max_attempts - j.attempts) else 0

abbrev pub turns : ℕ → List Job → ℕ
turns max_attempts [] = 0
turns max_attempts (j ∷ js) = turns_of max_attempts j + turns max_attempts js

abbrev pub unlocked : ℕ → Bool
unlocked i = false

-- What one claim picks.
pub picked-cases :
    (now : ℕ) (rows : List Job)
    → ((ready now unlocked 1 rows ≡ []) × (count (is_ready now unlocked) rows ≡ 0))
      ⊎ ((j : Job) × (ready now unlocked 1 rows ≡ j ∷ []))
unfolding ready
picked-cases now rows = go (sort_by_settle (filter (is_ready now unlocked) rows)) refl
  where
    go :
        (l : List Job)
        → sort_by_settle (filter (is_ready now unlocked) rows) ≡ l
        → ((take 1 (sort_by_settle (filter (is_ready now unlocked) rows)) ≡ [])
            × (count (is_ready now unlocked) rows ≡ 0))
          ⊎ ((j : Job) × (take 1 (sort_by_settle (filter (is_ready now unlocked) rows)) ≡ j ∷ []))
    go [] e = inl (ap (take 1) e, none_ready (is_ready now unlocked) rows e)
    go (j ∷ js) e = inr (j, ap (take 1) e)

-- An update of the claimed row that leaves it at most as many turns as it had attempts left uses up a
-- turn.
pub turns-after :
    (max_attempts now : ℕ) (worker : String) (j : Job) (f : Job → Job) (rows : List Job)
    → ((r : Job) → turns_of max_attempts (f (claim_row worker now r)) ≤ max_attempts - r.attempts)
    → All (λ r. any (has_id r.id) (j ∷ []) ≡ true → is_ready now unlocked r ≡ true) rows
    → turns max_attempts (
          update_where
            (has_id j.id)
            f
            (update_where (λ r. any (has_id r.id) (j ∷ [])) (claim_row worker now) rows))
        + count (has_id j.id) rows
      ≤ turns max_attempts rows
turns-after m now worker j f [] h named = omega arith
turns-after m now worker j f (r ∷ rows) h named = elim (Bool-cases (j.id == r.id)) [
  | inl same ↦
      let back : (r.id == j.id) ≡ true = ground (arith, same) in
      let waiting : is_pending r.status ≡ true = ground (arith, same, named.0) in
      rw (same, back, waiting) (omega (arith, h r, turns-after m now worker j f rows h named.1))
  | inr other ↦
      let back : (r.id == j.id) ≡ false = ground (arith, other) in
      rw (other, back) (omega (arith, turns-after m now worker j f rows h named.1))
]

pub complete_turns :
    (max_attempts : ℕ) (r : Job)
    → turns_of max_attempts (record r { status = done; last_error = none })
      ≤ max_attempts - r.attempts
complete_turns m r = omega arith

pub fail_turns :
    (max_attempts now now' : ℕ) (worker error : String) (r : Job)
    → turns_of max_attempts (fail_row now' error max_attempts (claim_row worker now r))
      ≤ max_attempts - r.attempts
fail_turns m now now' worker error r = elim (Bool-cases (leb m (r.attempts + 1))) [
  | inl e ↦ rw e (omega arith)
  | inr e ↦ rw e (ground (arith, e))
]

-- The claimed row is in processing.
pub claimed_busy :
    (now : ℕ) (worker : String) (j : Job) (rows : List Job)
    → All
        (λ r. has_id j.id r ≡ true → is_processing r.status ≡ true)
        (update_where (λ r. any (has_id r.id) (j ∷ [])) (claim_row worker now) rows)
claimed_busy now worker j [] = tt
claimed_busy now worker j (r ∷ rows) = elim (Bool-cases (j.id == r.id)) [
  | inl same ↦ rw same ((λ e. refl), claimed_busy now worker j rows)
  | inr other ↦ rw other ((λ e. ground (arith, e, other)), claimed_busy now worker j rows)
]

-- A failed try of a job in processing is always recorded.
pub fail_recorded :
    (q : Queue) (now i : ℕ) (error : String) (max_attempts : ℕ)
    → IsValid q
    → All (λ r. has_id i r ≡ true → is_processing r.status ≡ true) q.rows
    → fail q now i error max_attempts
      ≡ some (record q { rows = update_where (has_id i) (fail_row now error max_attempts) q.rows })
unfolding fail
fail_recorded q now i error m v busy =
    let f = fail_row now error m in
    rw
      (one_live→index_holds (update_where (has_id i) f q.rows) λ path. omega (
        arith,
        v.one_live path,
        live_count-update_where (has_id i) f path q.rows (still_live path q.rows busy),
      ))
      refl
  where
    still_live :
        (path : String) (rows : List Job)
        → All (λ r. has_id i r ≡ true → is_processing r.status ≡ true) rows
        → All
            (λ r.
              holds_path path (if has_id i r then fail_row now error m r else r) ≡ true
              → holds_path path r ≡ true)
            rows
    still_live path [] h = tt
    still_live path (r ∷ rows) h = ((λ e. ground (arith, h.0, e)), still_live path rows h.1)
