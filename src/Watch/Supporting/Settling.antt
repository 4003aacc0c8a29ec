-- ===== src/Watch/Supporting/Settling.antt =====
-- How a supporting document settles: the timers of nhpc_qa/watcher/runner.py, with the processing of a
-- file undisturbed or disturbed.
use mathlib.Core.List.Memᴰ.{not-nil, cases_cons}
use nhpc_parliament_rag_syst.Prelude.{
  Memᴰ, ◌<◌, any, ltb, ◌&&◌, false≢true, ℕ, ◌+◌, ◌≡◌, refl, ap, sym, subst, ◌≤◌, ◌∙◌, Bool, true,
  false, not, ◌||◌, Option, none, some, List, [], ◌∷◌, filter, count, All, All-map, String, str_eq,
  eq_iff, eq_refl, if◌then◌else◌, ◌==◌, Bool-cases, Option-cases, inl, inr, eq_of_some, none-some,
  arith,
}
use nhpc_parliament_rag_syst.OsPath.{AbsPath}
use nhpc_parliament_rag_syst.Watch.{WatchConfig, ignored}
use nhpc_parliament_rag_syst.Watch.Supporting.{
  Timer, Timers, SupportEvent, support_created, support_modified, support_deleted, support_moved,
  entry_of, pop_entry, cancel, delay_of, start_timer, schedule, on_support_event, fire, finish,
}

-- Every pending timer is the one that the dict knows for its path.
abbrev pub IsTracked : Timers → Type 0
IsTracked d = All (λ t. entry_of t.path d.entries ≡ some t.timer_id) d.pending

entry_of-pop_entry :
    (p path : String) (es : List (String × ℕ))
    → str_eq path p ≡ false
    → entry_of p (pop_entry path es) ≡ entry_of p es
entry_of-pop_entry p path [] h = refl
entry_of-pop_entry p path ((q, i) ∷ es) h = elim (Bool-cases (str_eq q path)) [
  | inl e ↦
      let other : str_eq q p ≡ false = ap (λ (x : String). str_eq x p) ((eq_iff q path).0 e) ∙ h in
      rw (e, other) (entry_of-pop_entry p path es h)
  | inr e ↦
      rw e
        (ap (λ (o : Option ℕ). if str_eq q p then some i else o) (entry_of-pop_entry p path es h))
]

-- With the path's timer gone, the entries of the other paths stay.
cancel-tracked :
    (path : String) (i : ℕ) (es : List (String × ℕ)) (ts : List Timer)
    → entry_of path es ≡ some i
    → All (λ t. entry_of t.path es ≡ some t.timer_id) ts
    → All
        (λ t. (str_eq path t.path ≡ false) × (entry_of t.path es ≡ some t.timer_id))
        (cancel (some i) ts)
cancel-tracked path i es [] known h = tt
cancel-tracked path i es (t ∷ ts) known h = elim (Bool-cases (t.timer_id == i)) [
  | inl e ↦ rw e (cancel-tracked path i es ts known h.1)
  | inr e ↦ elim (Bool-cases (str_eq path t.path)) [
    | inr f ↦ rw e ((f, h.0), cancel-tracked path i es ts known h.1)
    | inl f ↦
        let same : some i ≡ some t.timer_id =
          sym known ∙ ap (λ (p : String). entry_of p es) ((eq_iff path t.path).0 f) ∙ h.0 in
        absurd (ground (arith, e, eq_of_some same))
  ]
]

no_entry-tracked :
    (path : String) (es : List (String × ℕ)) (ts : List Timer)
    → entry_of path es ≡ none
    → All (λ t. entry_of t.path es ≡ some t.timer_id) ts
    → All (λ t. (str_eq path t.path ≡ false) × (entry_of t.path es ≡ some t.timer_id)) ts
no_entry-tracked path es [] none_known h = tt
no_entry-tracked path es (t ∷ ts) none_known h = elim (Bool-cases (str_eq path t.path)) [
  | inr f ↦ ((f, h.0), no_entry-tracked path es ts none_known h.1)
  | inl f ↦ absurd (
      none-some
        (sym none_known ∙ ap (λ (p : String). entry_of p es) ((eq_iff path t.path).0 f) ∙ h.0))
]

others-tracked :
    (path : String) (d : Timers)
    → IsTracked d
    → All
        (λ t. (str_eq path t.path ≡ false) × (entry_of t.path d.entries ≡ some t.timer_id))
        (cancel (entry_of path d.entries) d.pending)
others-tracked path d h = elim (Option-cases (entry_of path d.entries)) [
  | inl e ↦ rw e (no_entry-tracked path d.entries d.pending e h)
  | inr (i, e) ↦ rw e (cancel-tracked path i d.entries d.pending e h)
]

count-other :
    (path : String) (P : Timer → Type 0) (ts : List Timer)
    → All (λ t. (str_eq path t.path ≡ false) × P t) ts
    → count (λ t. str_eq path t.path) ts ≡ 0
count-other path P [] h = refl
count-other path P (t ∷ ts) h = rw h.0.0 (omega (arith, count-other path P ts h.1))

count-cancel :
    (path : String) (o : Option ℕ) (ts : List Timer)
    → count (λ t. str_eq path t.path) (cancel o ts) ≤ count (λ t. str_eq path t.path) ts
count-cancel path none ts = omega arith
count-cancel path (some i) [] = omega arith
count-cancel path (some i) (t ∷ ts) = elim (Bool-cases (t.timer_id == i)) [
  | inl e ↦ rw e (omega (arith, count-cancel path (some i) ts))
  | inr e ↦ rw e (omega (arith, count-cancel path (some i) ts))
]

-- The dict knows every pending timer, and a path has one pending timer at most.
abbrev pub IsSettling : Timers → Type 0
IsSettling d = IsTracked d × ((path : String) → count (λ t. str_eq path t.path) d.pending ≤ 1)

start_timer-one :
    (due : ℕ) (path kind : String) (d : Timers)
    → IsTracked d
    → count (λ t. str_eq path t.path) (start_timer due path kind d).pending ≡ 1
unfolding start_timer
start_timer-one due path kind d h = rw (eq_refl path) (
    omega (
      arith,
      count-other path (λ t. entry_of t.path d.entries ≡ some t.timer_id) _
          (others-tracked path d h),
    ))

start_timer-IsSettling :
    (due : ℕ) (path kind : String) (d : Timers)
    → IsSettling d
    → IsSettling (start_timer due path kind d)
unfolding start_timer
start_timer-IsSettling due path kind d (h, once) = (
  (
    rw (eq_refl path) refl,
    All-map (λ t. (str_eq path t.path ≡ false) × (entry_of t.path d.entries ≡ some t.timer_id))
        (λ t. entry_of t.path ((path, d.next_timer) ∷ pop_entry path d.entries) ≡ some t.timer_id)
        (cancel (entry_of path d.entries) d.pending)
        (λ t g. rw g.0 (entry_of-pop_entry t.path path d.entries g.0 ∙ g.1))
        (others-tracked path d h),
  ),
  (λ q. elim (Bool-cases (str_eq q path)) [
    | inl e ↦
        let one = start_timer-one due path kind d h in
        subst
          (λ (x : String). count (λ t. str_eq x t.path) (start_timer due path kind d).pending ≤ 1)
          (sym ((eq_iff q path).0 e)) (omega (arith, one))
    | inr e ↦ rw e (omega (arith, count-cancel q (entry_of path d.entries) d.pending, once q))
  ]),
)

-- The files that an event is about.
abbrev pub touches : SupportEvent → List AbsPath
touches (support_created is_directory p) = p ∷ []
touches (support_modified is_directory p) = p ∷ []
touches (support_deleted is_directory p) = p ∷ []
touches (support_moved p p') = p ∷ p' ∷ []

-- No timer of these belongs to the path.
abbrev pub IsIdle : List Timer → String → Type 0
IsIdle running path = All (λ t. str_eq path t.path ≡ false) running

-- What the observer and the timers do, with the timers whose `_process` is running: events arrive, timers
-- fire and processings end in any order, as long as no file changes while it is itself processed.
pub data Quiet (cfg : WatchConfig) (is_dir : AbsPath → Bool) : Timers → List Timer → Type 0 where
  quiet_start : Quiet cfg is_dir (record { entries = []; pending = []; next_timer = 0 }) []
  quiet_event :
      {d : Timers} {running : List Timer}
      → Quiet cfg is_dir d running
      → (now : ℕ) (e : SupportEvent) → All (λ p. IsIdle running (cfg.path_text p)) (touches e)
      → Quiet cfg is_dir (on_support_event cfg is_dir now e d) running
  quiet_fire :
      {d : Timers} {running : List Timer}
      → Quiet cfg is_dir d running
      → (t : Timer) → Memᴰ t d.pending
      → Quiet cfg is_dir (fire t d) (t ∷ running)
  quiet_finish :
      {d : Timers} {running : List Timer}
      → Quiet cfg is_dir d running
      → (t : Timer) → Memᴰ t running
      → Quiet cfg is_dir (finish t d) (cancel (some t.timer_id) running)

-- A timer that runs is the one that the dict knows for its path, and no timer of its path is pending.
abbrev pub IsRunning : Timers → Timer → Type 0
IsRunning d t =
    (entry_of t.path d.entries ≡ some t.timer_id)
    × (count (λ u. str_eq t.path u.path) d.pending ≡ 0)

-- The dict knows every pending and every running timer, and a path has one timer at most, pending or
-- running.
abbrev pub IsOrderly : Timers → List Timer → Type 0
IsOrderly d running = IsSettling d × All (IsRunning d) running

at_member : (P : Timer → Type 0) (t : Timer) (ts : List Timer) → All P ts → Memᴰ t ts → P t
at_member P t [] h m = absurd (not-nil m)
at_member P t (u ∷ us) h m = elim (cases_cons m) [
  | inl e ↦ subst P (sym e) h.0
  | inr n ↦ at_member P t us h.1 n
]

none_of :
    (path : String) (ts : List Timer)
    → count (λ u. str_eq path u.path) ts ≡ 0
    → All (λ u. str_eq path u.path ≡ false) ts
none_of path [] h = tt
none_of path (u ∷ us) h = elim (Bool-cases (str_eq path u.path)) [
  | inl e ↦ absurd (omega (arith, rw e at h))
  | inr e ↦ (e, none_of path us (omega (arith, rw e at h)))
]

start_timer-IsRunning :
    (due : ℕ) (path kind : String) (d : Timers) (t : Timer)
    → str_eq path t.path ≡ false
    → IsRunning d t
    → IsRunning (start_timer due path kind d) t
unfolding start_timer
start_timer-IsRunning due path kind d t other (known, idle) = (
  rw other (entry_of-pop_entry t.path path d.entries other ∙ known),
  rw (flipped other) (omega (arith, count-cancel t.path (entry_of path d.entries) d.pending, idle)),
)
  where
    flipped : str_eq path t.path ≡ false → str_eq t.path path ≡ false
    flipped h = elim (Bool-cases (str_eq t.path path)) [
      | inr e ↦ e
      | inl e ↦
          absurd (false≢true (sym h ∙ ap (str_eq path) ((eq_iff t.path path).0 e) ∙ eq_refl path))
    ]

start_timer-IsOrderly :
    (due : ℕ) (path kind : String) (d : Timers) (running : List Timer)
    → IsIdle running path
    → IsOrderly d running
    → IsOrderly (start_timer due path kind d) running
start_timer-IsOrderly due path kind d running idle (s, r) =
    (start_timer-IsSettling due path kind d s, each running idle r)
  where
    each :
        (ts : List Timer)
        → IsIdle ts path
        → All (IsRunning d) ts
        → All (IsRunning (start_timer due path kind d)) ts
    each [] i h = tt
    each (t ∷ ts) i h = (start_timer-IsRunning due path kind d t i.0 h.0, each ts i.1 h.1)

fire-IsOrderly :
    (t : Timer) (d : Timers) (running : List Timer)
    → Memᴰ t d.pending
    → IsOrderly d running
    → IsOrderly (fire t d) (t ∷ running)
unfolding fire
fire-IsOrderly t d running m ((h, once), r) =
    let known = at_member (λ u. entry_of u.path d.entries ≡ some u.timer_id) t d.pending h m in
    let others = cancel-tracked t.path t.timer_id d.entries d.pending known h in
    (
      (
        All-map
            (λ u. (str_eq t.path u.path ≡ false) × (entry_of u.path d.entries ≡ some u.timer_id))
            (λ u. entry_of u.path d.entries ≡ some u.timer_id) (cancel (some t.timer_id) d.pending)
            (λ u g. g.1) others,
        λ q. omega (arith, count-cancel q (some t.timer_id) d.pending, once q),
      ),
      (
        (known, count-other t.path (λ u. entry_of u.path d.entries ≡ some u.timer_id) _ others),
        All-map (IsRunning d) (IsRunning (fire t d)) running
            (λ u g. (g.0, omega (arith, count-cancel u.path (some t.timer_id) d.pending, g.1))) r,
      ),
    )

finish-IsOrderly :
    (t : Timer) (d : Timers) (running : List Timer)
    → Memᴰ t running
    → IsOrderly d running
    → IsOrderly (finish t d) (cancel (some t.timer_id) running)
unfolding finish
finish-IsOrderly t d running m ((h, once), r) =
    let (known, idle) = at_member (IsRunning d) t running r m in
    ((kept d.pending h (none_of t.path d.pending idle), once), running_on running r known)
  where
    kept :
        (ts : List Timer)
        → All (λ u. entry_of u.path d.entries ≡ some u.timer_id) ts
        → All (λ u. str_eq t.path u.path ≡ false) ts
        → All (λ u. entry_of u.path (pop_entry t.path d.entries) ≡ some u.timer_id) ts
    kept [] h i = tt
    kept (u ∷ us) h i = (entry_of-pop_entry u.path t.path d.entries i.0 ∙ h.0, kept us h.1 i.1)

    running_on :
        (ts : List Timer)
        → All (IsRunning d) ts
        → entry_of t.path d.entries ≡ some t.timer_id
        → All (IsRunning (finish t d)) (cancel (some t.timer_id) ts)
    running_on [] r known = tt
    running_on (u ∷ us) r known = elim (Bool-cases (u.timer_id == t.timer_id)) [
      | inl e ↦ rw e (running_on us r.1 known)
      | inr e ↦ elim (Bool-cases (str_eq t.path u.path)) [
        | inr f ↦
            rw e (
              (entry_of-pop_entry u.path t.path d.entries f ∙ r.0.0, r.0.1),
              running_on us r.1 known,
            )
        | inl f ↦
            let same : some t.timer_id ≡ some u.timer_id =
              sym known
              ∙ ap (λ (p : String). entry_of p d.entries) ((eq_iff t.path u.path).0 f)
              ∙ r.0.0 in
            absurd (ground (arith, e, eq_of_some same))
      ]
    ]

schedule-IsOrderly :
    (cfg : WatchConfig) (is_dir : AbsPath → Bool) (now : ℕ) (p : AbsPath) (kind : String)
    (d : Timers) (running : List Timer)
    → IsIdle running (cfg.path_text p)
    → IsOrderly d running
    → IsOrderly (schedule cfg is_dir now p kind d) running
unfolding schedule
schedule-IsOrderly cfg is_dir now p kind d running idle h =
    elim (Bool-cases (ignored p || is_dir p)) [
      | inl e ↦ rw e h
      | inr e ↦
          rw e (
            start_timer-IsOrderly (now + delay_of cfg kind) (cfg.path_text p) kind d running idle h)
    ]

on_support_event-IsOrderly :
    (cfg : WatchConfig) (is_dir : AbsPath → Bool) (now : ℕ) (e : SupportEvent) (d : Timers)
    (running : List Timer)
    → All (λ p. IsIdle running (cfg.path_text p)) (touches e)
    → IsOrderly d running
    → IsOrderly (on_support_event cfg is_dir now e d) running
unfolding on_support_event
on_support_event-IsOrderly cfg is_dir now (support_created true p) d rs i h = h
on_support_event-IsOrderly cfg is_dir now (support_created false p) d rs i h =
    schedule-IsOrderly cfg is_dir now p "upsert" d rs i.0 h
on_support_event-IsOrderly cfg is_dir now (support_modified true p) d rs i h = h
on_support_event-IsOrderly cfg is_dir now (support_modified false p) d rs i h =
    schedule-IsOrderly cfg is_dir now p "upsert" d rs i.0 h
on_support_event-IsOrderly cfg is_dir now (support_deleted true p) d rs i h = h
on_support_event-IsOrderly cfg is_dir now (support_deleted false p) d rs i h =
    schedule-IsOrderly cfg is_dir now p "delete" d rs i.0 h
on_support_event-IsOrderly cfg is_dir now (support_moved p p') d rs i h =
    schedule-IsOrderly cfg is_dir now p "delete" (schedule cfg is_dir now p' "upsert" d) rs i.0
      (schedule-IsOrderly cfg is_dir now p' "upsert" d rs i.1.0 h)

-- A supporting document settles under one timer. Events, timers that fire and processings that end may
-- come in any order; as long as no file changes while it is itself processed, the dict knows every
-- pending timer, so that the next event on the file cancels it, a file never has two pending timers,
-- and a file that is being processed has none.
pub Quiet-IsOrderly :
    {cfg : WatchConfig} {is_dir : AbsPath → Bool} {d : Timers} {running : List Timer}
    → Quiet cfg is_dir d running
    → IsOrderly d running
Quiet-IsOrderly quiet_start = ((tt, (λ path. omega arith)), tt)
Quiet-IsOrderly {cfg} {is_dir} (quiet_event {d} {running} r now e idle) =
    on_support_event-IsOrderly cfg is_dir now e d running idle (Quiet-IsOrderly r)
Quiet-IsOrderly (quiet_fire {d} {running} r t m) = fire-IsOrderly t d running m (Quiet-IsOrderly r)
Quiet-IsOrderly (quiet_finish {d} {running} r t m) =
    finish-IsOrderly t d running m (Quiet-IsOrderly r)

popped : (path : String) (es : List (String × ℕ)) → entry_of path (pop_entry path es) ≡ none
popped path [] = refl
popped path ((q, i) ∷ es) = elim (Bool-cases (str_eq q path)) [
  | inl e ↦ rw e (popped path es)
  | inr e ↦ rw e (rw e (popped path es))
]

-- An entry that is popped by another timer's end leaves its own timer unknown.
start_timer-unknown :
    (due : ℕ) (path kind : String) (d : Timers)
    → entry_of path d.entries ≡ none
    → count (λ t. str_eq path t.path) (start_timer due path kind d).pending
      ≡ 1 + count (λ t. str_eq path t.path) d.pending
unfolding start_timer
start_timer-unknown due path kind d h = rw (eq_refl path, h) refl

fire-IsTracked : (t : Timer) (d : Timers) → IsTracked d → IsTracked (fire t d)
unfolding fire
fire-IsTracked t d h = All-filter (λ u. not (u.timer_id == t.timer_id)) d.pending h
  where
    All-filter :
        (p : Timer → Bool) (ts : List Timer)
        → All (λ u. entry_of u.path d.entries ≡ some u.timer_id) ts
        → All (λ u. entry_of u.path d.entries ≡ some u.timer_id) (filter p ts)
    All-filter p [] h = tt
    All-filter p (u ∷ us) h = elim (Bool-cases (p u)) [
      | inl e ↦ rw e (h.0, All-filter p us h.1)
      | inr e ↦ rw e (All-filter p us h.1)
    ]

-- A file that changes while it is processed loses its timer from the dict. If a timer fires, its file
-- changes at one time, the processing ends and the file changes again later, then the last change does
-- not cancel the timer of the one before: the file has two pending timers, and one of them is due a
-- settle time after the change before the last, which is earlier than a settle time after the last.
pub timer_forgotten :
    (t : Timer) (now₂ now₃ settle : ℕ) (kind₂ kind₃ : String) (d : Timers)
    → IsTracked d
    → now₂ < now₃
    → let after =
        start_timer
          (now₃ + settle)
          t.path
          kind₃
          (finish t (start_timer (now₂ + settle) t.path kind₂ (fire t d))) in
      (count (λ u. str_eq t.path u.path) after.pending ≡ 2)
      × (any
            (λ u. str_eq t.path u.path && (u.due == now₂ + settle) && ltb u.due (now₃ + settle))
            after.pending
          ≡ true)
unfolding finish start_timer
timer_forgotten t now₂ now₃ settle kind₂ kind₃ d h later =
    let changed = start_timer (now₂ + settle) t.path kind₂ (fire t d) in
    let unknown = popped t.path changed.entries in
    (
      omega (
        arith,
        start_timer-unknown (now₃ + settle) t.path kind₃ (finish t changed) unknown,
        start_timer-one (now₂ + settle) t.path kind₂ (fire t d) (fire-IsTracked t d h),
      ),
      rw (unknown, eq_refl t.path) (ground (arith, later)),
    )
