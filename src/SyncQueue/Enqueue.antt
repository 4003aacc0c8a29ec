-- ===== src/SyncQueue/Enqueue.antt =====
-- `enqueue` of nhpc_qa/core/queue.py: the index holds, events coalesce, the deadline moves out.
use mathlib.Core.Option
use nhpc_parliament_rag_syst.Prelude.{
  ℕ, suc, ◌+◌, ◌≤◌, ◌<◌, String, ◌≡◌, ◌≢◌, refl, ap, ◌∙◌, true, false, Bool, none, some, List, [],
  ◌∷◌, ◌++◌, arith, str_eq, eq_iff, eq_refl, count, count-append, All, All-append, Bool-cases, inl,
  inr, Option-cases, length, length-append, All-map, subst, ◌==◌, ==_iff,
}
use nhpc_parliament_rag_syst.SyncQueue.{
  Job, Queue, is_event_type, holds_path, has_id, coalesce, new_job, live_row, update_first,
  upsert_row, enqueue,
}
use nhpc_parliament_rag_syst.SyncQueue.Live.{IsValid, live_count}

live_row-count_none :
    (path : String) (rows : List Job) → live_row path rows ≡ none → live_count path rows ≡ 0
unfolding live_row
live_row-count_none path [] h = refl
live_row-count_none path (j ∷ js) h = ground (arith, live_row-count_none path js)

live_row-count_some :
    (path : String) (rows : List Job) (j : Job)
    → live_row path rows ≡ some j
    → 1 ≤ live_count path rows
unfolding live_row
live_row-count_some path [] j h = ground arith
live_row-count_some path (k ∷ ks) j h = ground (arith, live_row-count_some path ks j)

-- Changing a row in a way that moves no test changes no count.
count-update_first :
    (p q : Job → Bool) (f : Job → Job) (rows : List Job)
    → ((j : Job) → q (f j) ≡ q j)
    → count q (update_first p f rows) ≡ count q rows
count-update_first p q f [] h = refl
count-update_first p q f (j ∷ js) h = ground (arith, h j, count-update_first p q f js h)

All-update_first :
    (n : ℕ) (p : Job → Bool) (f : Job → Job) (rows : List Job)
    → ((j : Job) → (f j).id ≡ j.id)
    → All (λ j. j.id < n) rows
    → All (λ j. j.id < suc n) (update_first p f rows)
All-update_first n p f [] h b = tt
All-update_first n p f (j ∷ js) h b = elim (Bool-cases (p j)) [
  | inl yes' ↦ rw yes' (
    ground (arith, h j, b.0),
    All-map (λ k. k.id < n) (λ k. k.id < suc n) js (λ k l. omega arith) b.1,
  )
  | inr no' ↦ rw no' (ground (arith, b.0), All-update_first n p f js h b.1)
]

live_row-update_first :
    (path : String) (f : Job → Job) (rows : List Job)
    → ((j : Job) → holds_path path (f j) ≡ holds_path path j)
    → live_row path (update_first (holds_path path) f rows) ≡ Option.map f (live_row path rows)
unfolding live_row
live_row-update_first path f [] h = refl
live_row-update_first path f (j ∷ js) h = elim (Bool-cases (holds_path path j)) [
  | inl hit ↦ simp (hit, h j)
  | inr miss ↦ simp (miss, live_row-update_first path f js h)
]

live_row-append :
    (path : String) (rows : List Job) (j : Job)
    → live_row path rows ≡ none
    → holds_path path j ≡ true
    → live_row path (rows ++ j ∷ []) ≡ some j
unfolding live_row
live_row-append path [] j h e = ground arith
live_row-append path (k ∷ ks) j h e = ground (arith, live_row-append path ks j)

length-update_first :
    (p : Job → Bool) (f : Job → Job) (rows : List Job)
    → length (update_first p f rows) ≡ length rows
length-update_first p f [] = refl
length-update_first p f (j ∷ js) = ground (arith, length-update_first p f js)

live_row-append_ne :
    (p : String) (rows : List Job) (j : Job)
    → holds_path p j ≡ false
    → live_row p (rows ++ j ∷ []) ≡ live_row p rows
unfolding live_row
live_row-append_ne p [] j h = rw h
live_row-append_ne p (k ∷ ks) j h = rw (live_row-append_ne p ks j h)

live_row-update_first_ne :
    (p path : String) (f : Job → Job) (rows : List Job)
    → p ≢ path
    → ((j : Job) → holds_path p (f j) ≡ holds_path p j)
    → live_row p (update_first (holds_path path) f rows) ≡ live_row p rows
unfolding live_row
live_row-update_first_ne p path f [] ne h = refl
live_row-update_first_ne p path f (j ∷ js) ne h = ground (
  arith,
  h j,
  ne,
  eq_iff j.source_path path,
  eq_iff j.source_path p,
  live_row-update_first_ne p path f js ne h,
)

count-has_id-below :
    (n : ℕ) (rows : List Job) → All (λ j. j.id < n) rows → count (has_id n) rows ≡ 0
count-has_id-below n [] h = refl
count-has_id-below n (j ∷ js) h = ground (arith, h.0, count-has_id-below n js h.1)

-- At most one live row of any path, after a row of a path that had none.
one_live-append :
    (rows : List Job) (j : Job) (p : String)
    → live_count j.source_path rows ≡ 0
    → live_count p rows ≤ 1
    → live_count p (rows ++ j ∷ []) ≤ 1
one_live-append rows j p e h = elim (Bool-cases (str_eq j.source_path p)) [
  | inl same ↦ ground (
    arith,
    count-append (holds_path p) rows (j ∷ []),
    ap (λ (s : String). live_count s rows) ((eq_iff j.source_path p).0 same),
  )
  | inr other ↦ ground (arith, count-append (holds_path p) rows (j ∷ []))
]

ids_unique-append :
    (rows : List Job) (j : Job) (i : ℕ)
    → count (has_id j.id) rows ≡ 0
    → count (has_id i) rows ≤ 1
    → count (has_id i) (rows ++ j ∷ []) ≤ 1
ids_unique-append rows j i e h = elim (Bool-cases (j.id == i)) [
  | inl same ↦ ground (
    arith,
    count-append (has_id i) rows (j ∷ []),
    ap (λ (s : ℕ). count (has_id s) rows) ((==_iff j.id i).0 same),
  )
  | inr other ↦ ground (arith, count-append (has_id i) rows (j ∷ []))
]

module _ (q : Queue) (now : ℕ) (path event_type : String) (settle_until : ℕ) where
  new_row-IsValid :
      live_row path q.rows ≡ none
      → IsValid q
      → IsValid (record {
        rows = q.rows ++ new_job q.next_id path event_type settle_until now ∷ [];
        next_id = suc q.next_id;
      })
  new_row-IsValid e v =
      let j = new_job q.next_id path event_type settle_until now in
      record {
        one_live =
            λ p. one_live-append q.rows j p (live_row-count_none path q.rows e) (v.one_live p);
        ids_unique = λ i.
            ids_unique-append q.rows j i (count-has_id-below q.next_id q.rows v.ids_below)
              (v.ids_unique i);
        ids_below =
            All-append (λ k. k.id < suc q.next_id) q.rows (j ∷ [])
              (All-map (λ k. k.id < q.next_id) (λ k. k.id < suc q.next_id) q.rows
                (λ k l. omega arith) v.ids_below)
              (omega arith, tt);
      }

  coalesced-IsValid :
      IsValid q
      → IsValid (record {
        rows = update_first (holds_path path) (coalesce event_type settle_until now) q.rows;
        next_id = suc q.next_id;
      })
  coalesced-IsValid v =
      let f = coalesce event_type settle_until now in
      record {
        one_live = λ p. omega (
          arith,
          v.one_live p,
          count-update_first (holds_path path) (holds_path p) f q.rows (λ j. refl),
        );
        ids_unique = λ i. omega (
          arith,
          v.ids_unique i,
          count-update_first (holds_path path) (has_id i) f q.rows (λ j. refl),
        );
        ids_below = All-update_first q.next_id (holds_path path) f q.rows (λ j. refl) v.ids_below;
      }

  upsert_row-IsValid : IsValid q → IsValid (upsert_row q path event_type settle_until now).0
  unfolding upsert_row
  upsert_row-IsValid v = elim (Option-cases (live_row path q.rows)) [
    | inl e ↦ rw (e, upsert_row) (new_row-IsValid e v)
    | inr (j, e) ↦ rw (e, upsert_row) (coalesced-IsValid v)
  ]

-- Recording an event keeps the table valid: at most one live job for each path, unique ids.
pub enqueue-IsValid :
    (q : Queue) (now : ℕ) (path event_type : String) (settle_seconds : ℕ) {q' : Queue} {id : ℕ}
    {coalesced : Bool}
    → IsValid q
    → enqueue q now path event_type settle_seconds ≡ some (q', id, coalesced)
    → IsValid q'
unfolding enqueue
enqueue-IsValid q now path event_type s {q'} v h =
    subst IsValid (ground arith) (upsert_row-IsValid q now path event_type (now + s) v)

-- Just after a job of the path was live: the deadline is pushed out and never in, the event is
-- counted, the latest event type replaces the old one, and the id, the status and the attempts
-- stay as they were.
pub enqueue_coalesces :
    (q : Queue) (now : ℕ) (path event_type : String) (s : ℕ) (j : Job)
    → is_event_type event_type ≡ true
    → live_row path q.rows ≡ some j
    → ((q' : Queue) × (enqueue q now path event_type s ≡ some (q', j.id, true))
        × (live_row path q'.rows ≡ some (coalesce event_type (now + s) now j))
        × (length q'.rows ≡ length q.rows))
unfolding enqueue
enqueue_coalesces q now path event_type s j known live =
    let f = coalesce event_type (now + s) now in
    (
      record { rows = update_first (holds_path path) f q.rows; next_id = suc q.next_id },
      rw (known, live, upsert_row),
      live_row-update_first path f q.rows (λ k. refl) ∙ ap (Option.map f) live,
      length-update_first (holds_path path) f q.rows,
    )

-- A path that had no live job gets a new pending one, with the next id and a deadline at the end of
-- the quiet period.
enqueue_inserts :
    (q : Queue) (now : ℕ) (path event_type : String) (s : ℕ)
    → is_event_type event_type ≡ true
    → live_row path q.rows ≡ none
    → ((q' : Queue) × (enqueue q now path event_type s ≡ some (q', q.next_id, false))
        × (live_row path q'.rows ≡ some (new_job q.next_id path event_type (now + s) now))
        × (length q'.rows ≡ length q.rows + 1))
unfolding enqueue
enqueue_inserts q now path event_type s known free =
    let j = new_job q.next_id path event_type (now + s) now in
    (
      record { rows = q.rows ++ j ∷ []; next_id = suc q.next_id },
      rw (known, free, upsert_row),
      live_row-append path q.rows j free (eq_refl path),
      length-append q.rows (j ∷ []),
    )

-- Jobs of other paths are not touched.
upsert_row-frame :
    (q : Queue) (now : ℕ) (path event_type : String) (settle : ℕ) (p : String)
    → p ≢ path
    → live_row p (upsert_row q path event_type settle now).0.rows ≡ live_row p q.rows
unfolding upsert_row
upsert_row-frame q now path event_type settle p ne = elim (Option-cases (live_row path q.rows)) [
  | inl e ↦ rw (e, upsert_row) (live_row-append_ne p q.rows _ (ground (arith, eq_iff path p)))
  | inr (j, e) ↦ rw (e, upsert_row) (live_row-update_first_ne p path _ q.rows ne (λ k. refl))
]

upsert_row-one_live :
    (q : Queue) (now : ℕ) (path event_type : String) (settle : ℕ)
    → 1 ≤ live_count path (upsert_row q path event_type settle now).0.rows
unfolding upsert_row
upsert_row-one_live q now path event_type settle = elim (Option-cases (live_row path q.rows)) [
  | inl e ↦
      rw (e, upsert_row)
        (live_row-count_some path _ _ (live_row-append path q.rows _ e (eq_refl path)))
  | inr (j, e) ↦
      let f = coalesce event_type settle now in
      rw (e, upsert_row)
        (live_row-count_some path _ _
          (live_row-update_first path f q.rows (λ k. refl) ∙ ap (Option.map f) e))
]

-- Recording an event of a known type succeeds in every valid table, leaves the table valid, leaves
-- exactly one live job of the path, and does not change the live job of any other path.
pub enqueue_total :
    (q : Queue) (now : ℕ) (path event_type : String) (s : ℕ)
    → IsValid q
    → is_event_type event_type ≡ true
    → ((q' : Queue) × (id : ℕ) × (coalesced : Bool) × (enqueue q now path event_type s
          ≡ some (q', id, coalesced))
        × IsValid q'
        × (live_count path q'.rows ≡ 1)
        × ((p : String) → p ≢ path → live_row p q'.rows ≡ live_row p q.rows))
unfolding enqueue
enqueue_total q now path event_type s v known =
    let r = upsert_row q path event_type (now + s) now in
    let v' : IsValid r.0 = upsert_row-IsValid q now path event_type (now + s) v in
    let one : live_count path r.0.rows ≡ 1 =
      omega (arith, v'.one_live path, upsert_row-one_live q now path event_type (now + s)) in
    (r.0, r.1, r.2, rw known, v', one, upsert_row-frame q now path event_type (now + s))
