-- ===== src/SyncQueue/Claim.antt =====
-- `claim_ready` of nhpc_qa/core/queue.py: who is claimed, in which order, and by how many.
use nhpc_parliament_rag_syst.Prelude.{
  ℕ, ◌≤◌, String, ◌≡◌, refl, ap, ◌∙◌, true, false, Bool, ◌&&◌, ◌||◌, some, List, [], ◌∷◌, arith,
  leb, count, any, take, filter, map, All, All-take, All-map, All-filter, All-trivial, count-split,
  count-filter, count_mono, All-of-filter, sym, subst, ◌⊎◌, ◌==◌, ==_iff, count-take-le, any→count,
  count→any, Bool-cases, inl, inr, length, length-take-le, leb→le, length-map,
}
use nhpc_parliament_rag_syst.SyncQueue.{
  Job, Queue, processing, is_pending, is_ready, has_id, update_where, claim_row, insert_by_settle,
  sort_by_settle, ready, claim_ready,
}
use nhpc_parliament_rag_syst.SyncQueue.Live.{IsValid, named_pass, update_where-IsValid}

any-map :
    (p : Job → Bool) (f : Job → Job) (js : List Job) → any p (map f js) ≡ any (λ j. p (f j)) js
any-map p f [] = refl
any-map p f (j ∷ js) = ap (λ (b : Bool). p (f j) || b) (any-map p f js)

count-insert_by_settle :
    (p : Job → Bool) (j : Job) (js : List Job) → count p (insert_by_settle j js) ≡ count p (j ∷ js)
unfolding insert_by_settle
count-insert_by_settle p j [] = refl
count-insert_by_settle p j (k ∷ ks) = ground (arith, count-insert_by_settle p j ks)

count-sort_by_settle : (p : Job → Bool) (js : List Job) → count p (sort_by_settle js) ≡ count p js
unfolding sort_by_settle
count-sort_by_settle p [] = refl
count-sort_by_settle p (j ∷ js) =
    omega (arith, count-insert_by_settle p j (sort_by_settle js), count-sort_by_settle p js)

All-insert_by_settle {ℓ} :
    (P : Job → Type ℓ) (j : Job) (js : List Job) → P j → All P js → All P (insert_by_settle j js)
unfolding insert_by_settle
All-insert_by_settle P j [] h hs = (h, tt)
All-insert_by_settle P j (k ∷ ks) h hs = elim (Bool-cases (leb j.settle_until k.settle_until)) [
  | inl e ↦ rw e (h, hs)
  | inr e ↦ rw e (hs.0, All-insert_by_settle P j ks h hs.1)
]

All-sort_by_settle {ℓ} : (P : Job → Type ℓ) (js : List Job) → All P js → All P (sort_by_settle js)
unfolding sort_by_settle
All-sort_by_settle P [] h = tt
All-sort_by_settle P (j ∷ js) h = All-insert_by_settle P j _ h.0 (All-sort_by_settle P js h.1)

module _ (now : ℕ) (locked : ℕ → Bool) (limit : ℕ) where
  -- At most `limit` rows are picked, and each of them is ready.
  ready_are_ready :
      (rows : List Job) → All (λ j. is_ready now locked j ≡ true) (ready now locked limit rows)
  unfolding ready
  ready_are_ready rows =
      All-take _ limit _
        (All-sort_by_settle _ _ (All-filter _ (is_ready now locked) rows (λ j h. h)))

  pub count-ready-le :
      (p : Job → Bool) (rows : List Job)
      → count p (ready now locked limit rows) ≤ count (λ j. p j && is_ready now locked j) rows
  unfolding ready
  count-ready-le p rows =
      let chosen = filter (is_ready now locked) rows in
      omega (
        arith,
        count-take-le p limit (sort_by_settle chosen),
        count-sort_by_settle p chosen,
        count-filter p (is_ready now locked) rows,
      )

  -- With unique ids, only ready rows are named by the rows that were picked.
  pub picked_by_id :
      (rows : List Job)
      → ((i : ℕ) → count (has_id i) rows ≤ 1)
      → All
          (λ j.
            any (has_id j.id) (ready now locked limit rows) ≡ true → is_ready now locked j ≡ true)
          rows
  picked_by_id rows unique =
      named_pass (is_ready now locked) (ready now locked limit rows) rows λ i e. omega (
        arith,
        unique i,
        count-split (has_id i) (is_ready now locked) rows,
        count-ready-le (has_id i) rows,
        any→count (has_id i) (ready now locked limit rows) e,
      )

-- A claim keeps the table valid: a claimed row was live before, and stays the only one of its path.
pub claim_ready-IsValid :
    (q : Queue) (now : ℕ) (worker : String) (locked : ℕ → Bool) (limit : ℕ)
    → IsValid q
    → IsValid (claim_ready q now worker locked limit).0
unfolding claim_ready
claim_ready-IsValid q now worker locked limit v =
    let named = ready now locked limit q.rows in
    update_where-IsValid q (λ j. any (has_id j.id) named) (claim_row worker now) (λ j. refl)
      (λ path.
        All-map _ _ q.rows (λ j h e. ground (arith, h))
          (picked_by_id now locked limit q.rows v.ids_unique))
      v

-- What a claim by a worker leaves in a job that it gives out.
abbrev pub IsClaimOf : ℕ → String → (ℕ → Bool) → Job → Type 0
IsClaimOf now worker locked j =
    (j.status ≡ processing)
    × (j.settle_until ≤ now)
    × (locked j.id ≡ false)
    × (j.claimed_by ≡ some worker)
    × (j.claimed_at ≡ some now)
    × (1 ≤ j.attempts)

All-claim_row :
    (now : ℕ) (worker : String) (locked : ℕ → Bool) (js : List Job)
    → All (λ j. is_ready now locked j ≡ true) js
    → All (IsClaimOf now worker locked) (map (claim_row worker now) js)
All-claim_row now worker locked [] h = tt
All-claim_row now worker locked (j ∷ js) h =
    (ground (arith, h.0), All-claim_row now worker locked js h.1)

-- At most `limit` jobs are claimed, and each had settled, was not locked by another transaction,
-- and is now in processing under this worker's name with at least one attempt counted.
claim_ready_sound :
    (q : Queue) (now : ℕ) (worker : String) (locked : ℕ → Bool) (limit : ℕ)
    → All (IsClaimOf now worker locked) (claim_ready q now worker locked limit).1
      × (length (claim_ready q now worker locked limit).1 ≤ limit)
unfolding claim_ready ready
claim_ready_sound q now worker locked limit =
    let picked = ready now locked limit q.rows in
    (
      All-claim_row now worker locked picked (ready_are_ready now locked limit q.rows),
      omega (
        arith,
        length-map (claim_row worker now) picked,
        length-take-le limit (sort_by_settle (filter (is_ready now locked) q.rows)),
      ),
    )

-- After a claim no row that it named is pending.
named_not_pending :
    (now : ℕ) (worker : String) (named rows : List Job) (i : ℕ)
    → any (has_id i) named ≡ true
    → count
        (λ j. has_id i j && is_pending j.status)
        (update_where (λ j. any (has_id j.id) named) (claim_row worker now) rows)
      ≡ 0
named_not_pending now worker named [] i h = refl
named_not_pending now worker named (j ∷ js) i h = elim (Bool-cases (j.id == i)) [
  | inl same ↦
      let e : any (has_id j.id) named ≡ true =
        ap (λ (k : ℕ). any (has_id k) named) ((==_iff j.id i).0 same) ∙ h in
      ground (arith, e, named_not_pending now worker named js i h)
  | inr other ↦ ground (arith, named_not_pending now worker named js i h)
]

-- Once a job is claimed, no other claim gets it while it is in processing: a later claim, by any
-- worker, at any time, with any limit, returns no job with the id of one that was claimed before.
pub claim_ready_exclusive :
    (q : Queue) (now : ℕ) (worker : String) (locked : ℕ → Bool) (limit : ℕ) (now' : ℕ)
    (worker' : String) (locked' : ℕ → Bool) (limit' : ℕ) (i : ℕ)
    → any (has_id i) (claim_ready q now worker locked limit).1 ≡ true
    → any
        (has_id i)
        (claim_ready (claim_ready q now worker locked limit).0 now' worker' locked' limit').1
      ≡ false
unfolding claim_ready
claim_ready_exclusive q now worker locked limit now' worker' locked' limit' i h =
    let named = ready now locked limit q.rows in
    let rows' = update_where (λ j. any (has_id j.id) named) (claim_row worker now) q.rows in
    let again = ready now' locked' limit' rows' in
    let h' : any (has_id i) named ≡ true =
      sym (any-map (has_id i) (claim_row worker now) named) ∙ h in
    any-map (has_id i) (claim_row worker' now') again
    ∙ count→any (has_id i) again (
        omega (
          arith,
          count-ready-le now' locked' limit' (has_id i) rows',
          named_not_pending now worker named q.rows i h',
          count_mono (λ j. has_id i j && is_ready now' locked' j)
              (λ j. has_id i j && is_pending j.status) rows'
              (All-trivial _ (λ j e. ground arith) rows'),
        ))

-- Deadlines in order.
abbrev pub IsOldest : Job → List Job → Type 0
IsOldest j = All (λ k. j.settle_until ≤ k.settle_until)

All-of-insert_by_settle {ℓ} :
    (P : Job → Type ℓ) (j : Job) (js : List Job) → All P (insert_by_settle j js) → P j × All P js
unfolding insert_by_settle
All-of-insert_by_settle P j [] h = h
All-of-insert_by_settle P j (k ∷ ks) h = elim (Bool-cases (leb j.settle_until k.settle_until)) [
  | inl e ↦ rw e at h
  | inr e ↦
      let h' : P k × All P (insert_by_settle j ks) = rw e at h in
      let r = All-of-insert_by_settle P j ks h'.1 in (r.0, (h'.0, r.1))
]

All-of-sort_by_settle {ℓ} :
    (P : Job → Type ℓ) (js : List Job) → All P (sort_by_settle js) → All P js
unfolding sort_by_settle
All-of-sort_by_settle P [] h = tt
All-of-sort_by_settle P (j ∷ js) h =
    let r = All-of-insert_by_settle P j (sort_by_settle js) h in
    (r.0, All-of-sort_by_settle P js r.1)

abbrev IsSorted : List Job → Type 0
IsSorted [] = Unit
IsSorted (j ∷ js) = IsOldest j js × IsSorted js

IsSorted-insert : (j : Job) (js : List Job) → IsSorted js → IsSorted (insert_by_settle j js)
unfolding insert_by_settle
IsSorted-insert j [] h = (tt, tt)
IsSorted-insert j (k ∷ ks) h = elim (Bool-cases (leb j.settle_until k.settle_until)) [
  | inl e ↦ rw e ((leb→le _ _ e, All-map _ _ ks (λ x l. omega (arith, leb→le _ _ e)) h.0), h)
  | inr e ↦ rw e (All-insert_by_settle _ j ks (ground arith) h.0, IsSorted-insert j ks h.1)
]

sort-IsSorted : (js : List Job) → IsSorted (sort_by_settle js)
unfolding sort_by_settle
sort-IsSorted [] = tt
sort-IsSorted (j ∷ js) = IsSorted-insert j (sort_by_settle js) (sort-IsSorted js)

first_is_oldest :
    (p : Job → Bool) (rows : List Job) (j : Job) (js : List Job)
    → sort_by_settle (filter p rows) ≡ j ∷ js
    → All (λ k. p k ≡ true → j.settle_until ≤ k.settle_until) rows
first_is_oldest p rows j js e =
    let sorted : IsSorted (j ∷ js) = subst IsSorted e (sort-IsSorted (filter p rows)) in
    let oldest : IsOldest j (j ∷ js) = (omega arith, sorted.0) in
    All-of-filter _ p rows (
      All-of-sort_by_settle (λ k. j.settle_until ≤ k.settle_until) (filter p rows)
        (subst (IsOldest j) (sym e) oldest))

pub none_ready :
    (p : Job → Bool) (rows : List Job) → sort_by_settle (filter p rows) ≡ [] → count p rows ≡ 0
none_ready p rows e = omega (
  arith,
  ap (count p) e,
  count-sort_by_settle p (filter p rows),
  count-filter p p rows,
  count_mono p (λ j. p j && p j) rows (All-trivial _ (λ j h. ground arith) rows),
)

-- Either no row is ready and nothing is claimed, or one ready row is claimed, and its deadline is the
-- earliest of all that are ready.
abbrev pub ClaimsOldest : Queue → ℕ → String → (ℕ → Bool) → Type 0
ClaimsOldest q now worker locked =
    ((count (is_ready now locked) q.rows ≡ 0) × ((claim_ready q now worker locked 1).1 ≡ []))
    ⊎ ((j : Job) × ((claim_ready q now worker locked 1).1 ≡ claim_row worker now j ∷ [])
        × (is_ready now locked j ≡ true)
        × All (λ k. is_ready now locked k ≡ true → j.settle_until ≤ k.settle_until) q.rows)

-- The worker's claim of one job: either no row is ready and nothing is claimed, or the job claimed
-- is a ready one whose deadline is the earliest of all that are ready.
pub claim_one_oldest :
    (q : Queue) (now : ℕ) (worker : String) (locked : ℕ → Bool) → ClaimsOldest q now worker locked
unfolding claim_ready ready
claim_one_oldest q now worker locked =
    go (sort_by_settle (filter (is_ready now locked) q.rows)) refl
  where
    go :
        (l : List Job)
        → sort_by_settle (filter (is_ready now locked) q.rows) ≡ l
        → ClaimsOldest q now worker locked
    go [] e = inl (
      none_ready (is_ready now locked) q.rows e,
      ap (λ (l : List Job). map (claim_row worker now) (take 1 l)) e,
    )
    go (j ∷ js) e =
        let fit : All (λ k. is_ready now locked k ≡ true) (j ∷ js) =
          subst (All (λ k. is_ready now locked k ≡ true)) e
            (All-sort_by_settle _ _ (All-filter _ (is_ready now locked) q.rows (λ k h. h))) in
        inr (
          j,
          ap (λ (l : List Job). map (claim_row worker now) (take 1 l)) e,
          fit.0,
          first_is_oldest (is_ready now locked) q.rows j js e,
        )
