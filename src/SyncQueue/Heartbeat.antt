-- ===== src/SyncQueue/Heartbeat.antt =====
-- The table workers of nhpc_qa/core/queue.py: `heartbeat`, `worker_stopped` and `watcher_alive`.
use nhpc_parliament_rag_syst.Prelude.{
  ℕ, ◌+◌, ◌-◌, ◌≤◌, String, ◌≡◌, refl, ◌∙◌, true, false, Bool, not, ◌&&◌, Option, none, some, List,
  [], ◌∷◌, arith, leb, ltb, if◌then◌else◌, str_eq, eq_refl, any, filter, Option-cases, inl, inr,
}

pub record Worker : Type 0 where
  pub worker_id : String
  pub kind : String
  pub source_root : Option String
  pub last_seen_at : ℕ

-- INSERT … ON CONFLICT (worker_id) DO UPDATE: the kind of a known worker stays.
unfoldable pub heartbeat : ℕ → String → Option String → String → List Worker → List Worker
heartbeat now id root kind [] =
    record { worker_id = id; kind = kind; source_root = root; last_seen_at = now } ∷ []
heartbeat now id root kind (w ∷ ws) =
    if str_eq w.worker_id id
    then record w { last_seen_at = now; source_root = root } ∷ ws
    else w ∷ heartbeat now id root kind ws

unfoldable pub worker_stopped : String → List Worker → List Worker
worker_stopped id = filter (λ w. not (str_eq w.worker_id id))

abbrev pub is_watcher : Worker → Bool
is_watcher w = str_eq w.kind "watcher"

abbrev pub newer : Worker → Option Worker → Worker
newer w none = w
newer w (some v) = if ltb w.last_seen_at v.last_seen_at then v else w

-- WHERE kind = 'watcher' ORDER BY last_seen_at DESC LIMIT 1
unfoldable pub newest_watcher : List Worker → Option Worker
newest_watcher [] = none
newest_watcher (w ∷ ws) =
    let rest = newest_watcher ws in if is_watcher w then some (newer w rest) else rest

pub data Liveness : Type 0 where
  never_registered : Liveness
  stale : String → ℕ → Liveness
  alive : String → Option String → ℕ → Liveness

abbrev pub is_alive : Liveness → Bool
is_alive (alive id root age) = true
is_alive _ = false

unfoldable pub judge : ℕ → ℕ → Option Worker → Liveness
judge now stale_seconds none = never_registered
judge now stale_seconds (some w) =
    let age = now - w.last_seen_at in
    if ltb stale_seconds age then stale w.worker_id age else alive w.worker_id w.source_root age

unfoldable pub watcher_alive : ℕ → ℕ → List Worker → Liveness
unfolding judge newest_watcher
watcher_alive now stale_seconds ws = judge now stale_seconds (newest_watcher ws)

abbrev pub beats : ℕ → ℕ → Worker → Bool
beats now stale_seconds w = is_watcher w && leb (now - w.last_seen_at) stale_seconds

judge-newest :
    (now s : ℕ) (ws : List Worker)
    → is_alive (judge now s (newest_watcher ws)) ≡ any (beats now s) ws
unfolding newest_watcher judge
judge-newest now s [] = refl
judge-newest now s (w ∷ ws) = elim (Option-cases (newest_watcher ws)) [
  | inl e ↦ ground (arith, e, judge-newest now s ws)
  | inr (v, e) ↦ ground (arith, e, judge-newest now s ws)
]

-- A watcher is reported alive exactly when some registered watcher was seen within the limit: the
-- newest row decides for all, and rows of other kinds count for nothing.
watcher_alive_exact :
    (now stale_seconds : ℕ) (ws : List Worker)
    → is_alive (watcher_alive now stale_seconds ws) ≡ any (beats now stale_seconds) ws
unfolding watcher_alive
watcher_alive_exact = judge-newest

beats-heartbeat :
    (t now s : ℕ) (id : String) (root : Option String) (ws : List Worker)
    → now ≤ t + s
    → any (λ w. str_eq w.worker_id id && not (is_watcher w)) ws ≡ false
    → any (beats now s) (heartbeat t id root "watcher" ws) ≡ true
unfolding heartbeat
beats-heartbeat t now s id root [] late k = ground (arith, eq_refl "watcher")
beats-heartbeat t now s id root (w ∷ ws) late k =
    ground (arith, beats-heartbeat t now s id root ws late)

-- A watcher that has beaten is reported alive for as long as the limit, whatever else is registered,
-- unless its id is registered under another kind.
heartbeat_keeps_alive :
    (t now stale_seconds : ℕ) (id : String) (root : Option String) (ws : List Worker)
    → now ≤ t + stale_seconds
    → any (λ w. str_eq w.worker_id id && not (is_watcher w)) ws ≡ false
    → is_alive (watcher_alive now stale_seconds (heartbeat t id root "watcher" ws)) ≡ true
heartbeat_keeps_alive t now s id root ws late k =
    watcher_alive_exact now s (heartbeat t id root "watcher" ws)
    ∙ beats-heartbeat t now s id root ws late k
