-- ===== src/SyncQueue.antt =====
-- The durable work queue of nhpc_qa/core/queue.py: the table sync_queue, and one function for each
-- operation. Every operation is one SQL statement; a row is a `Job`, the table a list of rows.
--
-- Times are numbers of seconds. `locked` stands for the rows that other transactions hold, which
-- FOR UPDATE SKIP LOCKED passes over. An UPDATE that would break the unique index on the live rows
-- raises, which is `none`.
pub mod Live
pub mod Enqueue
pub mod Claim
pub mod Finish
pub mod Reach
pub mod Folder
pub mod Heartbeat
use nhpc_parliament_rag_syst.Prelude.{
  ℕ, zero, suc, ◌+◌, ◌*◌, String, Bool, true, false, not, ◌&&◌, ◌||◌, Option, none, some, List, [],
  ◌∷◌, ◌++◌, map, ltb, leb, ◌==◌, if◌then◌else◌, str_eq, take, filter, any, length, count,
}

pub data Status : Type 0 where
  pending processing done failed : Status

pub record Job : Type 0 where
  pub id : ℕ
  pub source_path : String
  pub event_type : String
  pub status : Status
  pub settle_until : ℕ
  pub last_event_at : ℕ
  pub event_count : ℕ
  pub attempts : ℕ
  pub last_error : Option String
  pub claimed_by : Option String
  pub claimed_at : Option ℕ

-- The table, and the sequence that `bigserial` draws the ids from.
pub record Queue : Type 0 where
  pub rows : List Job
  pub next_id : ℕ

abbrev pub empty : Queue
empty = record { rows = []; next_id = 1 }

abbrev pub is_live : Status → Bool
is_live pending = true
is_live processing = true
is_live _ = false

abbrev pub is_pending : Status → Bool
is_pending pending = true
is_pending _ = false

abbrev pub is_processing : Status → Bool
is_processing processing = true
is_processing _ = false

abbrev pub greatest : ℕ → ℕ → ℕ
greatest a b = if ltb a b then b else a

-- WHERE status IN ('pending', 'processing'), for one path: the index uq_sync_queue_live.
abbrev pub holds_path : String → Job → Bool
holds_path path j = is_live j.status && str_eq j.source_path path

-- The DO UPDATE branch.
abbrev pub coalesce : String → ℕ → ℕ → Job → Job
coalesce event_type settle_until now j = record j {
  settle_until = greatest j.settle_until settle_until;
  last_event_at = now;
  event_count = j.event_count + 1;
  event_type = event_type;
}

abbrev pub new_job : ℕ → String → String → ℕ → ℕ → Job
new_job id path event_type settle_until now = record {
  id = id;
  source_path = path;
  event_type = event_type;
  status = pending;
  settle_until = settle_until;
  last_event_at = now;
  event_count = 1;
  attempts = 0;
  last_error = none;
  claimed_by = none;
  claimed_at = none;
}

-- The live row of a path, as ON CONFLICT finds it.
unfoldable pub live_row : String → List Job → Option Job
live_row path [] = none
live_row path (j ∷ js) = if holds_path path j then some j else live_row path js

-- Updates the first row that a test picks.
abbrev pub update_first : (Job → Bool) → (Job → Job) → List Job → List Job
update_first p f [] = []
update_first p f (j ∷ js) = if p j then f j ∷ js else j ∷ update_first p f js

abbrev pub is_event_type : String → Bool
is_event_type e = str_eq e "upsert" || str_eq e "delete"

-- INSERT … ON CONFLICT DO UPDATE … RETURNING id, (xmax <> 0). The sequence moves on either way.
unfoldable pub upsert_row : Queue → String → String → ℕ → ℕ → Queue × ℕ × Bool
unfolding live_row
upsert_row q path event_type settle_until now = elim (live_row path q.rows) [
  | some j ↦ (
    record {
      rows = update_first (holds_path path) (coalesce event_type settle_until now) q.rows;
      next_id = suc q.next_id;
    },
    j.id,
    true,
  )
  | none ↦ (
    record {
      rows = q.rows ++ new_job q.next_id path event_type settle_until now ∷ [];
      next_id = suc q.next_id;
    },
    q.next_id,
    false,
  )
]

-- `none` is the ValueError for an unknown event type.
unfoldable pub enqueue : Queue → ℕ → String → String → ℕ → Option (Queue × ℕ × Bool)
unfolding upsert_row
enqueue q now path event_type settle_seconds =
    if is_event_type event_type
    then some (upsert_row q path event_type (now + settle_seconds) now)
    else none

-- WHERE status = 'pending' AND settle_until <= now(), less the rows that others have locked.
abbrev pub is_ready : ℕ → (ℕ → Bool) → Job → Bool
is_ready now locked j = is_pending j.status && leb j.settle_until now && not (locked j.id)

-- ORDER BY settle_until
unfoldable pub insert_by_settle : Job → List Job → List Job
insert_by_settle j [] = j ∷ []
insert_by_settle j (k ∷ ks) =
    if leb j.settle_until k.settle_until then j ∷ k ∷ ks else k ∷ insert_by_settle j ks

unfoldable pub sort_by_settle : List Job → List Job
unfolding insert_by_settle
sort_by_settle [] = []
sort_by_settle (j ∷ js) = insert_by_settle j (sort_by_settle js)

abbrev pub claim_row : String → ℕ → Job → Job
claim_row worker now j = record j {
  status = processing;
  claimed_by = some worker;
  claimed_at = some now;
  attempts = j.attempts + 1;
}

abbrev pub has_id : ℕ → Job → Bool
has_id i j = j.id == i

-- UPDATE … WHERE q.id = ready.id
abbrev pub update_where : (Job → Bool) → (Job → Job) → List Job → List Job
update_where p f = map (λ j. if p j then f j else j)

-- The CTE `ready`.
unfoldable pub ready : ℕ → (ℕ → Bool) → ℕ → List Job → List Job
unfolding sort_by_settle
ready now locked limit rows = take limit (sort_by_settle (filter (is_ready now locked) rows))

-- The table after the claim, and the claimed rows as RETURNING gives them.
unfoldable pub claim_ready : Queue → ℕ → String → (ℕ → Bool) → ℕ → Queue × List Job
unfolding ready
claim_ready q now worker locked limit =
    let picked = ready now locked limit q.rows in
    (
      record q {
        rows = update_where (λ j. any (has_id j.id) picked) (claim_row worker now) q.rows;
      },
      map (claim_row worker now) picked,
    )

unfoldable pub complete : Queue → ℕ → Queue
complete q queue_id = record q {
  rows = update_where (has_id queue_id) (λ j. record j { status = done; last_error = none }) q.rows;
}

-- CASE WHEN attempts >= max_attempts THEN 'failed' ELSE 'pending' END; `error` is already cut to
-- its first 2000 characters.
abbrev pub fail_row : ℕ → String → ℕ → Job → Job
fail_row now error max_attempts j = record j {
  status = if leb max_attempts j.attempts then failed else pending;
  settle_until = now + 30 * j.attempts;
  last_error = some error;
}

-- The unique index: no two live rows of one path.
unfoldable pub index_holds : List Job → Bool
index_holds [] = true
index_holds (j ∷ js) =
    (not (is_live j.status) || not (any (holds_path j.source_path) js)) && index_holds js

unfoldable pub fail : Queue → ℕ → ℕ → String → ℕ → Option Queue
unfolding index_holds
fail q now queue_id error max_attempts =
    let rows' = update_where (has_id queue_id) (fail_row now error max_attempts) q.rows in
    if index_holds rows' then some (record q { rows = rows' }) else none

-- WHERE status = 'processing' AND claimed_at < now() - stale_after_seconds. A claim time that is
-- NULL compares as unknown, so the row stays.
abbrev pub is_stale : ℕ → ℕ → Job → Bool
is_stale now stale_after j =
    is_processing j.status
    && elim j.claimed_at [ none ↦ false | some t ↦ ltb (t + stale_after) now ]

abbrev pub release_row : Job → Job
release_row j = record j { status = pending; claimed_by = none; claimed_at = none }

-- The table, and how many rows were released.
unfoldable pub recover_stale : Queue → ℕ → ℕ → Queue × ℕ
recover_stale q now stale_after = (
  record q { rows = update_where (is_stale now stale_after) release_row q.rows },
  count (is_stale now stale_after) q.rows,
)
