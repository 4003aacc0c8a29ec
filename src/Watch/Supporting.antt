-- ===== src/Watch/Supporting.antt =====
-- The timers of the handler of supporting documents in nhpc_qa/watcher/runner.py: each file settles for
-- itself. Times are in tenths of a second.
pub mod Settling
use nhpc_parliament_rag_syst.Prelude.{
  ℕ, suc, ◌+◌, ◌*◌, ◌≡◌, refl, ap, sym, subst, ◌≤◌, ◌∙◌, Bool, true, false, not, ◌&&◌, ◌||◌, Option,
  none, some, List, [], ◌∷◌, filter, count, All, All-map, String, str_eq, eq_iff, eq_refl,
  if◌then◌else◌, ◌==◌, ltb, Bool-cases, Option-cases, inl, inr, eq_of_some, none-some, arith,
}
use nhpc_parliament_rag_syst.OsPath.{AbsPath}
use nhpc_parliament_rag_syst.Watch.{WatchConfig, ignored}

pub record Timer : Type 0 where
  pub timer_id : ℕ
  pub path : String
  pub kind : String
  pub due : ℕ

-- The dict `timers`, and the timers that are started and neither cancelled nor fired.
pub record Timers : Type 0 where
  pub entries : List (String × ℕ)
  pub pending : List Timer
  pub next_timer : ℕ

pub data SupportEvent : Type 0 where
  support_created support_modified support_deleted :
      (is_directory : Bool) (src_path : AbsPath) → SupportEvent
  support_moved : (src_path dest_path : AbsPath) → SupportEvent

abbrev pub entry_of : String → List (String × ℕ) → Option ℕ
entry_of path [] = none
entry_of path ((p, i) ∷ es) = let rest = entry_of path es in if str_eq p path then some i else rest

abbrev pub pop_entry : String → List (String × ℕ) → List (String × ℕ)
pop_entry path = filter (λ (e : String × ℕ). not (str_eq e.0 path))

abbrev pub cancel : Option ℕ → List Timer → List Timer
cancel none ts = ts
cancel (some i) ts = filter (λ t. not (t.timer_id == i)) ts

abbrev pub at_least_two : ℕ → ℕ
at_least_two n = if ltb n 2 then 2 else n

abbrev pub delay_of : WatchConfig → String → ℕ
delay_of cfg kind = if str_eq kind "delete" then 1 else 10 * at_least_two cfg.settle_seconds

unfoldable pub start_timer : ℕ → String → String → Timers → Timers
start_timer due path kind d = record {
  entries = (path, d.next_timer) ∷ pop_entry path d.entries;
  pending =
      record { timer_id = d.next_timer; path = path; kind = kind; due = due }
      ∷ cancel (entry_of path d.entries) d.pending;
  next_timer = suc d.next_timer;
}

-- `_schedule`
unfoldable pub schedule : WatchConfig → (AbsPath → Bool) → ℕ → AbsPath → String → Timers → Timers
unfolding start_timer
schedule cfg is_dir now p kind d =
    if ignored p || is_dir p
    then d
    else start_timer (now + delay_of cfg kind) (cfg.path_text p) kind d

unfoldable pub on_support_event :
    WatchConfig → (AbsPath → Bool) → ℕ → SupportEvent → Timers → Timers
unfolding schedule
on_support_event cfg is_dir now (support_created is_directory p) d =
    if is_directory then d else schedule cfg is_dir now p "upsert" d
on_support_event cfg is_dir now (support_modified is_directory p) d =
    if is_directory then d else schedule cfg is_dir now p "upsert" d
on_support_event cfg is_dir now (support_deleted is_directory p) d =
    if is_directory then d else schedule cfg is_dir now p "delete" d
on_support_event cfg is_dir now (support_moved src_path dest_path) d =
    schedule cfg is_dir now src_path "delete" (schedule cfg is_dir now dest_path "upsert" d)

-- A timer fires: it is no longer pending, and `_process` begins. When that ends, the path's entry is
-- popped, whosever it is by then.
unfoldable pub fire : Timer → Timers → Timers
fire t d = record d { pending = cancel (some t.timer_id) d.pending }

unfoldable pub finish : Timer → Timers → Timers
finish t d = record d { entries = pop_entry t.path d.entries }
