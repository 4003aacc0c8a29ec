-- ===== src/Spans/Items.antt =====
-- What holds of a sub-question that the first loop of `verify_and_repair` in
-- nhpc_qa/pipeline/parse/spans.py keeps, whatever the model answered.
use nhpc_parliament_rag_syst.Prelude.{
  ℕ, zero, suc, ◌+◌, ◌-◌, ◌≤◌, ◌<◌, ◌≡◌, refl, sym, subst, Bool, true, false, ◌&&◌, Option, none,
  some, List, [], ◌∷◌, Text, length, leb, ltb, ◌==◌, All, Bool-cases, Option-cases, inl, inr,
  eq_of_some, none-some, arith, strip,
}
use nhpc_parliament_rag_syst.Spans.Markers.{
  is_blank, is_mark, marker_line, slice_lines, strip_marker, strip_question_heading, is_title,
}
use nhpc_parliament_rag_syst.Spans.{
  Bound, at, below_zero, not_a_number, RawSub, Sub, SpanError, Checked, rejected, dropped, kept,
  coerce_span, in_range, cut_question, smaller, snap_back, align_answer, answer_span, answer_of,
  check_text, check_answer, check_sub, check_all, line_at,
}

-- No line from `lo` to `hi` has an answer marker.
abbrev pub HasNoMarker : List Text → ℕ × ℕ → Type 0
HasNoMarker lines (lo, hi) = (i : ℕ) → lo ≤ i → i ≤ hi → is_mark lines i ≡ false

abbrev pub IsInText : List Text → ℕ × ℕ → Type 0
IsInText lines (lo, hi) = (lo ≤ hi) × (hi < length lines)

abbrev pub IsAnswerInText : List Text → Option (ℕ × ℕ) → Type 0
IsAnswerInText lines none = Unit
IsAnswerInText lines (some span) = IsInText lines span

-- A sub-question whose spans lie in the text, whose question holds no answer marker and is not blank,
-- and whose two texts are the text's own lines.
pub record IsSliced (lines : List Text) (s : Sub) : Type 0 where
  pub question_in : IsInText lines s.question_lines
  pub no_marker : HasNoMarker lines s.question_lines
  pub own_question : s.question_text ≡ strip_question_heading (slice_lines lines s.question_lines)
  pub not_blank : is_blank s.question_text ≡ false
  pub answer_in : IsAnswerInText lines s.answer_lines
  pub own_answer : s.answer_text ≡ answer_of lines s.answer_lines

marker_line-none :
    (lines : List Text) (lo n : ℕ)
    → marker_line lines lo n ≡ none
    → (i : ℕ) → lo ≤ i
    → i < lo + n
    → is_mark lines i ≡ false
unfolding marker_line
marker_line-none lines lo zero h i l u = absurd (omega (arith, l, u))
marker_line-none lines lo (suc n) h i l u = elim (Bool-cases (is_mark lines lo)) [
  | inl e ↦ absurd (none-some (sym (rw e at h)))
  | inr e ↦ elim (Bool-cases (i == lo)) [
    | inl same ↦ subst (λ (j : ℕ). is_mark lines j ≡ false) (ground (arith, same)) e
    | inr other ↦
        marker_line-none lines (suc lo) n (rw e at h) i (ground (arith, other, l))
          (omega (arith, u))
  ]
]

marker_line-some :
    (lines : List Text) (lo n m : ℕ)
    → marker_line lines lo n ≡ some m
    → (lo ≤ m)
      × (m < lo + n)
      × (is_mark lines m ≡ true)
      × ((i : ℕ) → lo ≤ i → i < m → is_mark lines i ≡ false)
unfolding marker_line
marker_line-some lines lo zero m h = absurd (none-some h)
marker_line-some lines lo (suc n) m h = elim (Bool-cases (is_mark lines lo)) [
  | inl e ↦
      let same : lo ≡ m = eq_of_some (rw e at h) in
      (
        omega (arith, same),
        omega (arith, same),
        subst (λ (j : ℕ). is_mark lines j ≡ true) same e,
        λ i l u. absurd (omega (arith, same, l, u)),
      )
  | inr e ↦
      let (l, u, mark, before) = marker_line-some lines (suc lo) n m (rw e at h) in
      (
        omega (arith, l),
        omega (arith, u),
        mark,
        λ i l' u'. elim (Bool-cases (i == lo)) [
          | inl same ↦ subst (λ (j : ℕ). is_mark lines j ≡ false) (ground (arith, same)) e
          | inr other ↦ before i (ground (arith, other, l')) u'
        ],
      )
]

in_range-IsInText :
    (lines : List Text) (b : Bound × Bound) (lo hi : ℕ)
    → in_range (length lines) b ≡ some (lo, hi)
    → IsInText lines (lo, hi)
unfolding in_range
in_range-IsInText lines (at a, at b) lo hi h = elim (Bool-cases (leb a b && ltb b (length lines))) [
  | inl e ↦
      let same : (a, b) ≡ (lo, hi) = eq_of_some (rw e at h) in
      subst (IsInText lines) same (ground (arith, e), ground (arith, e))
  | inr e ↦ absurd (none-some (rw e at h))
]
in_range-IsInText lines (at a, below_zero) lo hi h = absurd (none-some h)
in_range-IsInText lines (at a, not_a_number) lo hi h = absurd (none-some h)
in_range-IsInText lines (below_zero, c) lo hi h = absurd (none-some h)
in_range-IsInText lines (not_a_number, c) lo hi h = absurd (none-some h)

-- A cut question is in the text, and holds no marker.
cut_question_sound :
    (lines : List Text) (lo hi lo' hi' : ℕ)
    → IsInText lines (lo, hi)
    → cut_question lines (lo, hi) ≡ some (lo', hi')
    → IsInText lines (lo', hi') × HasNoMarker lines (lo', hi')
unfolding cut_question
cut_question_sound lines lo hi lo' hi' (l, u) h =
    elim (Option-cases (marker_line lines lo (hi + 1 - lo))) [
      | inl e ↦
          let same : (lo, hi) ≡ (lo', hi') = eq_of_some (rw (e, cut_question) at h) in
          subst (λ (s : ℕ × ℕ). IsInText lines s × HasNoMarker lines s) same
            (
              (l, u),
              λ i l' u'. marker_line-none lines lo (hi + 1 - lo) e i l' (omega (arith, l', u')),
            )
      | inr (m, e) ↦
          let (lo≤m, m<, mark, before) = marker_line-some lines lo (hi + 1 - lo) m e in
          elim (Bool-cases (m == lo)) [
            | inl same ↦ absurd (none-some (rw (e, same, cut_question) at h))
            | inr other ↦
                let same : (lo, m - 1) ≡ (lo', hi') =
                  eq_of_some (rw (e, other, cut_question) at h) in
                subst (λ (s : ℕ × ℕ). IsInText lines s × HasNoMarker lines s) same
                  (
                    (ground (arith, lo≤m, other), omega (arith, m<, u, l)),
                    λ i l' u'. before i l' (ground (arith, u', lo≤m, other)),
                  )
          ]
    ]

snap_back-IsInText :
    (lines : List Text) (lo hi : ℕ)
    → IsInText lines (lo, hi)
    → IsInText lines (snap_back lines (lo, hi))
snap_back-IsInText lines zero hi h = h
snap_back-IsInText lines (suc lo) hi (l, u) =
    elim (Bool-cases (is_mark lines lo && is_blank (strip (strip_marker (line_at lines lo))))) [
      | inl e ↦ rw e (omega (arith, l), u)
      | inr e ↦ rw e (l, u)
    ]

align_answer-IsInText :
    (lines : List Text) (lo hi : ℕ)
    → IsInText lines (lo, hi)
    → IsInText lines (align_answer lines (lo, hi))
unfolding align_answer
align_answer-IsInText lines lo hi (l, u) = elim (Bool-cases (is_mark lines lo)) [
  | inl e ↦ rw e (l, u)
  | inr e ↦ elim (Option-cases (marker_line lines lo (smaller hi (lo + 2) + 1 - lo))) [
    | inl missing ↦ rw (e, missing) (snap_back-IsInText lines lo hi (l, u))
    | inr (m, found) ↦
        let (lo≤m, m<, _, _) = marker_line-some lines lo (smaller hi (lo + 2) + 1 - lo) m found in
        rw (e, found) (ground (arith, lo≤m, m<, l), u)
  ]
]

-- What is kept is sliced from the text.
abbrev pub IsKeptSliced : List Text → Checked → Type 0
IsKeptSliced lines (rejected e) = Unit
IsKeptSliced lines dropped = Unit
IsKeptSliced lines (kept s) = IsSliced lines s

module _ (is_word : ℕ → Bool) where
  check_text-IsSliced :
      (lines : List Text) (i n : ℕ) (raw : RawSub) (qs : ℕ × ℕ) (answer : Option (ℕ × ℕ))
      → IsInText lines qs
      → HasNoMarker lines qs
      → IsAnswerInText lines answer
      → IsKeptSliced lines (check_text is_word lines i n raw qs answer)
  unfolding check_text
  check_text-IsSliced lines i n raw qs answer inside no_mark answered =
      let q_text = strip_question_heading (slice_lines lines qs) in
      elim (Bool-cases (is_blank q_text)) [
        | inl blank ↦ rw blank tt
        | inr full ↦ elim (Bool-cases (is_title is_word q_text)) [
          | inl title ↦ rw (full, title) tt
          | inr question ↦
              rw (full, question)
                (record {
                  question_in = inside;
                  no_marker = no_mark;
                  own_question = refl;
                  not_blank = full;
                  answer_in = answered;
                  own_answer = refl;
                })
        ]
      ]

  check_answer-IsSliced :
      (lines : List Text) (i n : ℕ) (raw : RawSub) (qs : ℕ × ℕ) (b : Option (Bound × Bound))
      → IsInText lines qs
      → HasNoMarker lines qs
      → IsKeptSliced lines (check_answer is_word lines i n raw qs (answer_span lines b))
  check_answer-IsSliced lines i n raw qs none inside no_mark =
      check_text-IsSliced lines i n raw qs none inside no_mark tt
  check_answer-IsSliced lines i n raw qs (some b) inside no_mark =
      elim (Option-cases (in_range (length lines) b)) [
        | inl e ↦ rw (e, check_answer, IsKeptSliced) tt
        | inr ((lo, hi), e) ↦
            let span = align_answer lines (lo, hi) in
            let fits = align_answer-IsInText lines lo hi (in_range-IsInText lines b lo hi e) in
            rw (e, check_answer, IsKeptSliced)
              (elim (Bool-cases (ltb span.1 span.0)) [
                | inl empty ↦ rw empty tt
                | inr full ↦
                    rw full (check_text-IsSliced lines i n raw qs (some span) inside no_mark fits)
              ])
      ]

  check_sub-IsSliced :
      (lines : List Text) (i n : ℕ) (r : Option RawSub)
      → IsKeptSliced lines (check_sub is_word lines i n r)
  unfolding check_sub
  check_sub-IsSliced lines i n none = tt
  check_sub-IsSliced lines i n (some raw) =
      elim (Option-cases (coerce_span raw.raw_question_lines)) [
        | inl e ↦ rw (e, IsKeptSliced) tt
        | inr (b, e) ↦ elim (Option-cases (in_range (length lines) b)) [
          | inl out ↦ rw (e, out, IsKeptSliced) tt
          | inr ((lo, hi), inside) ↦ elim (Option-cases (cut_question lines (lo, hi))) [
            | inl starts ↦ rw (e, inside, starts, IsKeptSliced) tt
            | inr ((lo', hi'), cut) ↦
                let (fits, no_mark) =
                  cut_question_sound lines lo hi lo' hi' (in_range-IsInText lines b lo hi inside)
                    cut in
                rw (e, inside, cut, IsKeptSliced)
                  (check_answer-IsSliced lines i n raw (lo', hi') (coerce_span raw.raw_answer_lines)
                    fits no_mark)
          ]
        ]
      ]

  -- Everything that the first loop keeps is sliced from the text.
  pub check_all-IsSliced :
      (lines : List Text) (i n : ℕ) (rs : List (Option RawSub))
      → All (IsSliced lines) (check_all is_word lines i n rs).0
  unfolding check_all
  check_all-IsSliced lines i n [] = tt
  check_all-IsSliced lines i n (r ∷ rs) =
      add (check_sub is_word lines i n r) (check_sub-IsSliced lines i n r)
        (λ k. check_all-IsSliced lines (suc i) k rs)
    where
      add :
          (c : Checked)
          → IsKeptSliced lines c
          → ((k : ℕ) → All (IsSliced lines) (check_all is_word lines (suc i) k rs).0)
          → All
              (IsSliced lines)
              (elim c as (λ _. List Sub × List SpanError) [
                | rejected e ↦
                    let (subs, errors) = check_all is_word lines (suc i) n rs in (subs, e ∷ errors)
                | dropped ↦ check_all is_word lines (suc i) n rs
                | kept s ↦
                    let (subs, errors) = check_all is_word lines (suc i) (suc n) rs in
                    (s ∷ subs, errors)
              ]).0
      add (rejected e) h rest = rest n
      add dropped h rest = rest n
      add (kept s) h rest = (h, rest (suc n))
