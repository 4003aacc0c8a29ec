-- ===== src/Search/Assemble/Display.antt =====
-- Relevance selects, the date orders: the display order of nhpc_qa/retrieval/graph/nodes.py.
use mathlib.Core.List.Memᴰ.{head, tail}
use nhpc_parliament_rag_syst.Prelude.{
  Memᴰ, ◌⊎◌, ◌<◌, ◌≤◌, ◌+◌, ◌==◌, ==_iff, ltb, ltb→lt, any, get_elem?, ap, subst, zero,
  Option-cases, none-some, if_some, if◌then◌else◌, ℕ, suc, ◌≡◌, refl, sym, ◌∙◌, Bool, true, false,
  Option, none, some, List, [], ◌∷◌, All, All-map, count, Bool-cases, inl, inr, arith, false≢true,
}
use nhpc_parliament_rag_syst.Dates.{Date}
use nhpc_parliament_rag_syst.Fuse.{Numbers}
use nhpc_parliament_rag_syst.Search.{Ranked}
use nhpc_parliament_rag_syst.Search.Assemble.{
  row_of, is_later, Row, Result, key_le, shown_before, insert_result, sort_results, renumber,
  join_rows, assemble_results,
}

-- A later day: of a later year, of that year and a later month, or of that month and a later day.
abbrev pub IsAfter : Date → Date → Type 0
IsAfter d e =
    (e.year < d.year)
    ⊎ ((d.year ≡ e.year) × (e.month < d.month))
    ⊎ ((d.year ≡ e.year) × (d.month ≡ e.month) × (e.day < d.day))

abbrev pub IsSameDay : Date → Date → Type 0
IsSameDay d e = (d.year ≡ e.year) × (d.month ≡ e.month) × (d.day ≡ e.day)

-- What may stand before what: a later day before an earlier one, a day before none, and of one day or
-- of none the more relevant first.
abbrev pub Precedes : Option Date → ℕ → Option Date → ℕ → Type 0
Precedes (some d) i (some e) j = IsAfter d e ⊎ (IsSameDay d e × (i ≤ j))
Precedes (some d) i none j = Unit
Precedes none i (some e) j = ⊥
Precedes none i none j = i ≤ j

-- Each result may stand before those that follow it.
abbrev pub IsNewestFirst : List Result → Type 0
IsNewestFirst [] = Unit
IsNewestFirst (r ∷ rs) =
    All (λ s. Precedes r.reply_date r.relevance_rank s.reply_date s.relevance_rank) rs
    × IsNewestFirst rs

is_later-IsAfter : (d e : Date) → is_later d e ≡ true → IsAfter d e
is_later-IsAfter d e h = elim (Bool-cases (ltb e.year d.year)) [
  | inl y ↦ inl (ltb→lt e.year d.year y)
  | inr y ↦ elim (Bool-cases (ltb e.month d.month)) [
    | inl m ↦ inr (inl (ground (arith, h, y), ltb→lt e.month d.month m))
    | inr m ↦ inr (inr (ground (arith, h, y), ground (arith, h, y, m), ground (arith, h, y, m)))
  ]
]

key_le-Precedes :
    (d : Option Date) (i : ℕ) (e : Option Date) (j : ℕ) → key_le d i e j ≡ true → Precedes d i e j
key_le-Precedes none i none j h = ground (arith, h)
key_le-Precedes none i (some e) j h = absurd (false≢true h)
key_le-Precedes (some d) i none j h = tt
key_le-Precedes (some d) i (some e) j h = elim (Bool-cases (is_later d e)) [
  | inl l ↦ inl (is_later-IsAfter d e l)
  | inr l ↦
      inr ((ground (arith, h, l), ground (arith, h, l), ground (arith, h, l)), ground (arith, h, l))
]

-- Each result is shown before those that follow it.
abbrev IsShownInOrder : List Result → Type 0
IsShownInOrder [] = Unit
IsShownInOrder (r ∷ rs) = All (λ s. shown_before r s ≡ true) rs × IsShownInOrder rs

IsShownInOrder-IsNewestFirst : (rs : List Result) → IsShownInOrder rs → IsNewestFirst rs
IsShownInOrder-IsNewestFirst [] h = tt
IsShownInOrder-IsNewestFirst (r ∷ rs) h = (
  All-map _ _ rs
      (λ s e. key_le-Precedes r.reply_date r.relevance_rank s.reply_date s.relevance_rank e) h.0,
  IsShownInOrder-IsNewestFirst rs h.1,
)

abbrev pub IsRankedFrom : ℕ → List Result → Type 0
IsRankedFrom i [] = Unit
IsRankedFrom i (r ∷ rs) = (r.rank ≡ i) × IsRankedFrom (suc i) rs

key_le_total :
    (d : Option Date) (i : ℕ) (e : Option Date) (j : ℕ)
    → key_le d i e j ≡ false
    → key_le e j d i ≡ true
key_le_total none i none j h = ground (arith, h)
key_le_total none i (some e) j h = refl
key_le_total (some d) i none j h = absurd (false≢true (sym h))
key_le_total (some d) i (some e) j h = ground (arith, h)

key_le_trans :
    (c : Option Date) (i : ℕ) (d : Option Date) (j : ℕ) (e : Option Date) (k : ℕ)
    → key_le c i d j ≡ true
    → key_le d j e k ≡ true
    → key_le c i e k ≡ true
key_le_trans none i none j none k h h' = ground (arith, h, h')
key_le_trans none i none j (some e) k h h' = h'
key_le_trans none i (some d) j e k h h' = absurd (false≢true h)
key_le_trans (some c) i none j none k h h' = refl
key_le_trans (some c) i none j (some e) k h h' = absurd (false≢true h')
key_le_trans (some c) i (some d) j none k h h' = refl
key_le_trans (some c) i (some d) j (some e) k h h' = ground (arith, h, h')

module _ (P : Result → Type 0) where
  All-insert_result : (r : Result) (ss : List Result) → P r → All P ss → All P (insert_result r ss)
  unfolding insert_result
  All-insert_result r [] h hs = (h, tt)
  All-insert_result r (s ∷ ss) h hs = elim (Bool-cases (shown_before r s)) [
    | inl e ↦ rw e (h, hs)
    | inr e ↦ rw e (hs.0, All-insert_result r ss h hs.1)
  ]

insert_result-IsShownInOrder :
    (r : Result) (ss : List Result) → IsShownInOrder ss → IsShownInOrder (insert_result r ss)
unfolding insert_result
insert_result-IsShownInOrder r [] h = (tt, tt)
insert_result-IsShownInOrder r (s ∷ ss) h = elim (Bool-cases (shown_before r s)) [
  | inl e ↦ rw e (
    (
      e,
      All-map (λ t. shown_before s t ≡ true) (λ t. shown_before r t ≡ true) ss
          (λ t f.
            key_le_trans r.reply_date r.relevance_rank s.reply_date s.relevance_rank t.reply_date
              t.relevance_rank e f)
          h.0,
    ),
    h,
  )
  | inr e ↦ rw e (
    All-insert_result (λ t. shown_before s t ≡ true) r ss
        (key_le_total r.reply_date r.relevance_rank s.reply_date s.relevance_rank e) h.0,
    insert_result-IsShownInOrder r ss h.1,
  )
]

sort_results-IsShownInOrder : (rs : List Result) → IsShownInOrder (sort_results rs)
unfolding sort_results
sort_results-IsShownInOrder [] = tt
sort_results-IsShownInOrder (r ∷ rs) =
    insert_result-IsShownInOrder r (sort_results rs) (sort_results-IsShownInOrder rs)

renumber-All :
    (r : Result) (i : ℕ) (rs : List Result)
    → All (λ s. shown_before r s ≡ true) rs
    → All (λ s. shown_before r s ≡ true) (renumber i rs)
unfolding renumber
renumber-All r i [] h = tt
renumber-All r i (s ∷ ss) h = (h.0, renumber-All r (suc i) ss h.1)

renumber-IsShownInOrder :
    (i : ℕ) (rs : List Result) → IsShownInOrder rs → IsShownInOrder (renumber i rs)
unfolding renumber
renumber-IsShownInOrder i [] h = tt
renumber-IsShownInOrder i (r ∷ rs) h =
    (renumber-All r (suc i) rs h.0, renumber-IsShownInOrder (suc i) rs h.1)

renumber-IsRankedFrom : (i : ℕ) (rs : List Result) → IsRankedFrom i (renumber i rs)
unfolding renumber
renumber-IsRankedFrom i [] = tt
renumber-IsRankedFrom i (r ∷ rs) = (refl, renumber-IsRankedFrom (suc i) rs)

-- A test that does not look at the place of a result.
abbrev pub unplaced : (Result → Bool) → Result → Bool
unplaced p r = p (record r { rank = 0 })

module _ (p : Result → Bool) where
  abbrev counted : List Result → ℕ
  counted = count (unplaced p)

  count-insert_result :
      (r : Result) (ss : List Result) → counted (insert_result r ss) ≡ counted (r ∷ ss)
  unfolding insert_result
  count-insert_result r [] = refl
  count-insert_result r (s ∷ ss) = elim (Bool-cases (shown_before r s)) [
    | inl e ↦ rw e refl
    | inr e ↦ rw e (omega (arith, count-insert_result r ss))
  ]

  count-sort_results : (rs : List Result) → counted (sort_results rs) ≡ counted rs
  unfolding sort_results
  count-sort_results [] = refl
  count-sort_results (r ∷ rs) =
      omega (arith, count-insert_result r (sort_results rs), count-sort_results rs)

  count-renumber : (i : ℕ) (rs : List Result) → counted (renumber i rs) ≡ counted rs
  unfolding renumber
  count-renumber i [] = refl
  count-renumber i (r ∷ rs) = omega (arith, count-renumber (suc i) rs)

-- A sub-question has a row.
abbrev pub has_row : ℕ → List Row → Bool
has_row i rows = any (λ r. r.sub_question_id == i) rows

row_of-has_row :
    (rows : List Row) (i : ℕ)
    → elim (row_of rows i) [ none ↦ false | some r ↦ true ] ≡ has_row i rows
row_of-has_row [] i = refl
row_of-has_row (r ∷ rows) i = ground (arith, row_of-has_row rows i)

row_of-member :
    (rows : List Row) (i : ℕ) (row : Row)
    → row_of rows i ≡ some row
    → Memᴰ row rows × (row.sub_question_id ≡ i)
row_of-member [] i row h = absurd (none-some h)
row_of-member (r ∷ rows) i row h = elim (Option-cases (row_of rows i)) [
  | inr (r', e) ↦ let (m, same) = row_of-member rows i row (e ∙ (rw e at h)) in (tail m, same)
  | inl e ↦
      let (hit, same) = if_some (r.sub_question_id == i) r (rw e at h) in
      (
        head (sym same),
        ap (λ (x : Row). x.sub_question_id) (sym same) ∙ (==_iff r.sub_question_id i).0 hit,
      )
]

module _ (num : Numbers) where
  -- How often the pick at a place should be shown: once if there is such a pick and it has a row.
  abbrev pub times_shown : Option (Ranked num) → List Row → ℕ
  times_shown none rows = 0
  times_shown (some p) rows = if has_row p.fused.sub_question_id rows then 1 else 0

  -- A result is the pick of its relevance rank with the date of a row of that sub-question.
  abbrev pub IsOfPick : ℕ → List (Ranked num) → List Row → Result → Type 0
  IsOfPick first picks rows r =
      (n : ℕ) × (p : Ranked num) × (row : Row) × (r.relevance_rank ≡ first + n)
      × (get_elem? picks n ≡ some p)
      × (r.doc_key ≡ p.fused.doc_key)
      × (r.sub_question_id ≡ p.fused.sub_question_id)
      × Memᴰ row rows
      × (row.sub_question_id ≡ p.fused.sub_question_id)
      × (r.reply_date ≡ row.reply_date)

  later_pick :
      (i : ℕ) (p : Ranked num) (ps : List (Ranked num)) (rows : List Row) (r : Result)
      → IsOfPick (suc i) ps rows r
      → IsOfPick i (p ∷ ps) rows r
  later_pick i p ps rows r (n, q, row, rank, at_n, key, sub, m, same, date) =
      (suc n, q, row, omega (arith, rank), at_n, key, sub, m, same, date)

  join_rows-IsOfPick :
      (i : ℕ) (picks : List (Ranked num)) (rows : List Row)
      → All (IsOfPick i picks rows) (join_rows num i picks rows)
  unfolding join_rows
  join_rows-IsOfPick i [] rows = tt
  join_rows-IsOfPick i (p ∷ ps) rows =
      let rest =
        All-map (IsOfPick (suc i) ps rows) (IsOfPick i (p ∷ ps) rows)
          (join_rows num (suc i) ps rows) (later_pick i p ps rows)
          (join_rows-IsOfPick (suc i) ps rows) in
      elim (Option-cases (row_of rows p.fused.sub_question_id)) [
        | inl e ↦ rw (e, All) rest
        | inr (row, e) ↦
            let (m, same) = row_of-member rows p.fused.sub_question_id row e in
            rw (e, All) ((0, p, row, omega arith, refl, refl, refl, m, same, refl), rest)
      ]

  none_below :
      (m i : ℕ) (picks : List (Ranked num)) (rows : List Row)
      → m < i
      → count (λ r. r.relevance_rank == m) (join_rows num i picks rows) ≡ 0
  unfolding join_rows
  none_below m i [] rows h = refl
  none_below m i (p ∷ ps) rows h =
      let rest = none_below m (suc i) ps rows (omega (arith, h)) in
      elim (Option-cases (row_of rows p.fused.sub_question_id)) [
        | inl e ↦ rw (e, count) rest
        | inr (row, e) ↦ rw (e, count) (ground (arith, rest, h))
      ]

  shown_times :
      (i n : ℕ) (picks : List (Ranked num)) (rows : List Row)
      → count (λ r. r.relevance_rank == i + n) (join_rows num i picks rows)
        ≡ times_shown (get_elem? picks n) rows
  unfolding join_rows
  shown_times i n [] rows = refl
  shown_times i zero (p ∷ ps) rows =
      let below' = none_below (i + 0) (suc i) ps rows (omega arith) in
      let found = row_of-has_row rows p.fused.sub_question_id in
      elim (Option-cases (row_of rows p.fused.sub_question_id)) [
        | inl e ↦ rw (e, count) (ground (arith, below', rw e at found))
        | inr (row, e) ↦ rw (e, count) (ground (arith, below', rw e at found))
      ]
  shown_times i (suc n) (p ∷ ps) rows =
      let rest = shown_times (suc i) n ps rows in
      let shift : suc i + n ≡ i + suc n = omega arith in
      let rest' =
        subst
          (λ (m : ℕ).
            count (λ r. r.relevance_rank == m) (join_rows num (suc i) ps rows)
            ≡ times_shown (get_elem? ps n) rows)
          shift rest in
      elim (Option-cases (row_of rows p.fused.sub_question_id)) [
        | inl e ↦ rw (e, count) rest'
        | inr (row, e) ↦ rw (e, count) (ground (arith, rest'))
      ]

  All-sort_results : (P : Result → Type 0) (rs : List Result) → All P rs → All P (sort_results rs)
  unfolding sort_results
  All-sort_results P [] h = tt
  All-sort_results P (r ∷ rs) h =
      All-insert_result P r (sort_results rs) h.0 (All-sort_results P rs h.1)

  renumber-IsOfPick :
      (picks : List (Ranked num)) (rows : List Row) (i : ℕ) (rs : List Result)
      → All (IsOfPick 1 picks rows) rs
      → All (IsOfPick 1 picks rows) (renumber i rs)
  unfolding renumber
  renumber-IsOfPick picks rows i [] h = tt
  renumber-IsOfPick picks rows i (r ∷ rs) h = (h.0, renumber-IsOfPick picks rows (suc i) rs h.1)

-- Relevance selects, the date orders. Shown by date, each pick of the ranker that has a row is shown
-- once and no other pick is, under its key and sub-question and with the date of a row of that
-- sub-question; the results are numbered from 1, and they stand newest first, the ones without a date
-- last, and of one day or of none the more relevant first.
pub display_exact :
    (num : Numbers) (picks : List (Ranked num)) (rows : List Row)
    → let shown = assemble_results num true picks rows in
      ((n : ℕ)
        → count (λ r. r.relevance_rank == 1 + n) shown ≡ times_shown num (get_elem? picks n) rows)
      × All (IsOfPick num 1 picks rows) shown
      × IsRankedFrom 1 shown
      × IsNewestFirst shown
unfolding assemble_results
display_exact num picks rows =
    let results = join_rows num 1 picks rows in
    (
      (λ n.
          count-renumber (λ r. r.relevance_rank == 1 + n) 1 (sort_results results)
          ∙ count-sort_results (λ r. r.relevance_rank == 1 + n) results
          ∙ shown_times num 1 n picks rows),
      renumber-IsOfPick num picks rows 1 (sort_results results) (
          All-sort_results num (IsOfPick num 1 picks rows) results
            (join_rows-IsOfPick num 1 picks rows)),
      renumber-IsRankedFrom 1 (sort_results results),
      IsShownInOrder-IsNewestFirst (renumber 1 (sort_results results))
          (renumber-IsShownInOrder 1 (sort_results results) (sort_results-IsShownInOrder results)),
    )
