-- ===== src/Spans.antt =====
-- nhpc_qa/pipeline/parse/spans.py: the language model says where the sub-questions and the answers
-- stand, the code checks and repairs its line spans and slices the text itself.
pub mod Markers
pub mod Items
pub mod Fill
pub mod Sound
pub mod Groups
use nhpc_parliament_rag_syst.Prelude.{
  ℕ, zero, suc, ◌+◌, ◌-◌, ◌==◌, Bool, true, false, not, ◌&&◌, ◌||◌, Option, none, some, List, [],
  ◌∷◌, ◌++◌, map, if◌then◌else◌, Text, codes, text_eq, lower, strip, strip_by, has, length, any,
  all, ltb, leb,
}
use nhpc_parliament_rag_syst.Spans.Markers.{
  is_blank, is_mark, marker_line, marks_from, blocks_of, slice_lines, strip_marker,
  strip_question_heading, is_title,
}

-- A number that the model gave for a line: `int(v)` of it, if that is a number.
pub data Bound : Type 0 where
  at : ℕ → Bound
  below_zero not_a_number : Bound

-- `[a, b]`, an object with its fields `start`, `first`, `end` and `last` where they are present, or
-- anything else, null included.
pub data RawSpan : Type 0 where
  pair : (a b : Bound) → RawSpan
  object : (start first end_line last : Option Bound) → RawSpan
  other_value : RawSpan

pub data Confidence : Type 0 where
  high low : Confidence

-- An element of `sub_questions`. `confidence` is `high` for what is neither of the two words.
pub record RawSub : Type 0 where
  pub raw_label : Text
  pub raw_question_lines : RawSpan
  pub raw_answer_lines : RawSpan
  pub raw_table_ids : List Text
  pub raw_is_table : Bool
  pub raw_confidence : Confidence

pub record Sub : Type 0 where
  pub part_label : Text
  pub question_lines : ℕ × ℕ
  pub answer_lines : Option (ℕ × ℕ)
  pub question_text : Text
  pub answer_text : Text
  pub answer_table_ids : List Text
  pub answer_is_table : Bool
  pub confidence : Confidence

-- The messages, with what they are about.
pub data SpanError : Type 0 where
  no_sub_questions no_usable duplicate_labels : SpanError
  not_an_object bad_question_lines question_out_of_range starts_at_marker answer_out_of_range
        answer_empty question_blank :
      ℕ → SpanError
  blocks_missed : ℕ → SpanError
  overlap : ℕ × ℕ → ℕ × ℕ → SpanError

-- A bound that is not a number, or a missing one, makes no span.
abbrev pub both : Bound → Bound → Option (Bound × Bound)
both not_a_number b = none
both a not_a_number = none
both a b = some (a, b)

abbrev pub field_or : Option Bound → Option Bound → Bound
field_or (some a) fallback = a
field_or none (some b) = b
field_or none none = not_a_number

unfoldable pub coerce_span : RawSpan → Option (Bound × Bound)
coerce_span (pair a b) = both a b
coerce_span (object start first end_line last) =
    both (field_or start first) (field_or end_line last)
coerce_span other_value = none

-- 0 <= lo <= hi < n
unfoldable pub in_range : ℕ → Bound × Bound → Option (ℕ × ℕ)
in_range n (at lo, at hi) = if leb lo hi && ltb hi n then some (lo, hi) else none
in_range n (b, c) = none

-- A question span gives way to an answer marker in it; `none` where it starts at one.
unfoldable pub cut_question : List Text → ℕ × ℕ → Option (ℕ × ℕ)
unfolding marker_line
cut_question lines (lo, hi) = elim (marker_line lines lo (hi + 1 - lo)) [
  | none ↦ some (lo, hi)
  | some mk ↦ if mk == lo then none else some (lo, mk - 1)
]

abbrev pub smaller : ℕ → ℕ → ℕ
smaller a b = if ltb a b then a else b

abbrev pub line_at : List Text → ℕ → Text
line_at [] i = []
line_at (l ∷ lines) zero = l
line_at (l ∷ lines) (suc i) = line_at lines i

-- `elif alo > 0 and …`: back to a bare marker on the line above.
abbrev pub snap_back : List Text → ℕ × ℕ → ℕ × ℕ
snap_back lines (zero, hi) = (zero, hi)
snap_back lines (suc lo, hi) =
    if is_mark lines lo && is_blank (strip (strip_marker (line_at lines lo)))
    then (lo, hi)
    else (suc lo, hi)

-- An answer span is aligned with its marker line: forward by at most two lines, or back by one.
unfoldable pub align_answer : List Text → ℕ × ℕ → ℕ × ℕ
unfolding marker_line strip_marker
align_answer lines (lo, hi) =
    if is_mark lines lo
    then (lo, hi)
    else elim (marker_line lines lo (smaller hi (lo + 2) + 1 - lo)) [
      | some mk ↦ (mk, hi)
      | none ↦ snap_back lines (lo, hi)
    ]

-- `str(…).strip().lower().strip("()。.")`, or the next letter.
abbrev pub is_bracket : ℕ → Bool
is_bracket c = has c (codes "()。.")

abbrev pub label_or : ℕ → Text → Text
label_or kept [] = (97 + kept) ∷ []
label_or kept (c ∷ label) = c ∷ label

abbrev pub label_of : ℕ → Text → Text
label_of kept raw = label_or kept (strip_by is_bracket (lower (strip raw)))

pub data Checked : Type 0 where
  rejected : SpanError → Checked
  dropped : Checked
  kept : Sub → Checked

-- An answer span that is missing is none; one that is out of range is an error.
abbrev pub answer_span : List Text → Option (Bound × Bound) → Option (Option (ℕ × ℕ))
answer_span lines none = some none
answer_span lines (some b) = elim (in_range (length lines) b) [
  | none ↦ none
  | some span ↦ some (some (align_answer lines span))
]

abbrev pub answer_of : List Text → Option (ℕ × ℕ) → Text
answer_of lines none = []
answer_of lines (some span) = strip_marker (slice_lines lines span)

module _ (is_word : ℕ → Bool) where
  -- With both spans known: a blank question is an error, the document's title is dropped.
  unfoldable pub check_text : List Text → ℕ → ℕ → RawSub → ℕ × ℕ → Option (ℕ × ℕ) → Checked
  unfolding slice_lines strip_question_heading is_title strip_marker
  check_text lines i n_kept raw qs answer =
      let q_text = strip_question_heading (slice_lines lines qs) in
      if is_blank q_text
      then rejected (question_blank i)
      else if is_title is_word q_text
      then dropped
      else kept (record {
        part_label = label_of n_kept raw.raw_label;
        question_lines = qs;
        answer_lines = answer;
        question_text = q_text;
        answer_text = answer_of lines answer;
        answer_table_ids = raw.raw_table_ids;
        answer_is_table = raw.raw_is_table;
        confidence = raw.raw_confidence;
      })

  abbrev pub check_answer : List Text → ℕ → ℕ → RawSub → ℕ × ℕ → Option (Option (ℕ × ℕ)) → Checked
  check_answer lines i n_kept raw qs none = rejected (answer_out_of_range i)
  check_answer lines i n_kept raw qs (some none) = check_text lines i n_kept raw qs none
  check_answer lines i n_kept raw qs (some (some (lo, hi))) =
      if ltb hi lo
      then rejected (answer_empty i)
      else check_text lines i n_kept raw qs (some (lo, hi))

  -- The body of the first loop.
  unfoldable pub check_sub : List Text → ℕ → ℕ → Option RawSub → Checked
  unfolding coerce_span in_range cut_question align_answer check_text
  check_sub lines i n_kept none = rejected (not_an_object i)
  check_sub lines i n_kept (some raw) = elim (coerce_span raw.raw_question_lines) [
    | none ↦ rejected (bad_question_lines i)
    | some b ↦ elim (in_range (length lines) b) [
      | none ↦ rejected (question_out_of_range i)
      | some span ↦ elim (cut_question lines span) [
        | none ↦ rejected (starts_at_marker i)
        | some qs ↦
            check_answer lines i n_kept raw qs
              (answer_span lines (coerce_span raw.raw_answer_lines))
      ]
    ]
  ]

  -- The first loop: what is kept, and the errors. `kept_before` counts what was kept so far.
  unfoldable pub check_all : List Text → ℕ → ℕ → List (Option RawSub) → List Sub × List SpanError
  unfolding check_sub
  check_all lines i kept_before [] = ([], [])
  check_all lines i kept_before (r ∷ rs) = elim (check_sub lines i kept_before r) [
    | rejected e ↦ let (subs, errors) = check_all lines (suc i) kept_before rs in (subs, e ∷ errors)
    | dropped ↦ check_all lines (suc i) kept_before rs
    | kept s ↦
        let (subs, errors) = check_all lines (suc i) (suc kept_before) rs in (s ∷ subs, errors)
  ]

-- out.sort(key=lambda d: d["question_lines"][0])
unfoldable pub insert_by_start : Sub → List Sub → List Sub
insert_by_start s [] = s ∷ []
insert_by_start s (t ∷ ts) =
    let rest = insert_by_start s ts in
    if leb s.question_lines.0 t.question_lines.0 then s ∷ t ∷ ts else t ∷ rest

unfoldable pub sort_by_start : List Sub → List Sub
unfolding insert_by_start
sort_by_start [] = []
sort_by_start (s ∷ ss) = insert_by_start s (sort_by_start ss)

-- `claimed_by_marker`: the span of the first sibling that starts at a marker.
unfoldable pub claimed_span : ℕ → List Sub → Option (ℕ × ℕ)
claimed_span mark [] = none
claimed_span mark (s ∷ ss) =
    let rest = claimed_span mark ss in
    elim s.answer_lines [ none ↦ rest | some (lo, hi) ↦ if lo == mark then some (lo, hi) else rest ]

abbrev pub next_block : ℕ → List (ℕ × ℕ) → Option (ℕ × ℕ)
next_block start [] = none
next_block start ((m, e) ∷ bs) = if ltb start m then some (m, e) else next_block start bs

abbrev pub or_span : Option (ℕ × ℕ) → ℕ × ℕ → ℕ × ℕ
or_span none b = b
or_span (some s) b = s

abbrev pub as_claimed : List Sub → Option (ℕ × ℕ) → Option (ℕ × ℕ)
as_claimed siblings none = none
as_claimed siblings (some b) = some (or_span (claimed_span b.0 siblings) b)

-- A missing answer span becomes the first block after the question, as a sibling claims it.
unfoldable pub span_to_fill : List (ℕ × ℕ) → List Sub → ℕ → Option (ℕ × ℕ) → Option (ℕ × ℕ)
unfolding claimed_span
span_to_fill blocks siblings start (some span) = none
span_to_fill blocks siblings start none = as_claimed siblings (next_block start blocks)

abbrev pub fill_with : List Text → Sub → Option (ℕ × ℕ) → Sub
fill_with lines s none = s
fill_with lines s (some span) = record s {
  answer_lines = some span;
  answer_text = strip_marker (slice_lines lines span);
}

unfoldable pub fill_answer : List Text → List (ℕ × ℕ) → List Sub → Sub → Sub
unfolding span_to_fill strip_marker slice_lines
fill_answer lines blocks siblings s =
    fill_with lines s (span_to_fill blocks siblings s.question_lines.0 s.answer_lines)

abbrev pub claims : ℕ × ℕ → Sub → Bool
claims (mark, e) s = elim s.answer_lines [
  | none ↦ false
  | some (lo, hi) ↦ leb lo mark && leb mark hi
]

unfoldable pub count_missed : List Sub → List (ℕ × ℕ) → ℕ
count_missed subs [] = 0
count_missed subs (b ∷ bs) = (if any (claims b) subs then 0 else 1) + count_missed subs bs

abbrev pub missed_error : ℕ → List SpanError
missed_error zero = []
missed_error (suc n) = blocks_missed (suc n) ∷ []

unfoldable pub overlaps : List Sub → List SpanError
overlaps [] = []
overlaps (a ∷ []) = []
overlaps (a ∷ b ∷ ss) =
    let rest = overlaps (b ∷ ss) in
    if leb b.question_lines.0 a.question_lines.1
    then overlap a.question_lines b.question_lines ∷ rest
    else rest

unfoldable pub labels_unique : List Sub → Bool
labels_unique [] = true
labels_unique (s ∷ ss) = not (any (λ t. text_eq t.part_label s.part_label) ss) && labels_unique ss

-- After the first loop: sort, fill, and the three checks of the whole.
unfoldable pub finish : List Text → List Sub × List SpanError → List Sub × List SpanError
unfolding marks_from blocks_of sort_by_start fill_answer count_missed overlaps labels_unique
finish lines ([], errors) = ([], errors ++ (no_usable ∷ []))
finish lines (s ∷ ss, errors) =
    let sorted = sort_by_start (s ∷ ss) in
    let blocks = blocks_of (length lines) (marks_from 0 lines) in
    let out = map (fill_answer lines blocks sorted) sorted in
    (
      out,
      errors
          ++ (missed_error (count_missed out blocks)
              ++ (overlaps out ++ (if labels_unique out then [] else duplicate_labels ∷ []))),
    )

-- `lines` is `text.split("\n")`. An answer that is no list, or an empty one, has no sub-question.
unfoldable pub verify_and_repair :
    (ℕ → Bool) → List Text → List (Option RawSub) → List Sub × List SpanError
unfolding check_all finish
verify_and_repair is_word lines [] = ([], no_sub_questions ∷ [])
verify_and_repair is_word lines (r ∷ rs) = finish lines (check_all is_word lines 0 0 (r ∷ rs))

-- What `group_answers` tells answers apart by: the span, or the label of a question without one.
pub data GroupKey : Type 0 where
  lines_key : ℕ × ℕ → GroupKey
  none_key : Text → GroupKey

pub record Group : Type 0 where
  pub group_key : GroupKey
  pub group_text : Text
  pub parts : List Text

abbrev pub key_eq : GroupKey → GroupKey → Bool
key_eq (lines_key (a, b)) (lines_key (c, d)) = a == c && b == d
key_eq (none_key s) (none_key t) = text_eq s t
key_eq (lines_key a) (none_key t) = false
key_eq (none_key s) (lines_key b) = false

abbrev pub key_from : Text → Option (ℕ × ℕ) → GroupKey
key_from label none = none_key label
key_from label (some span) = lines_key span

abbrev pub key_of : Sub → GroupKey
key_of s = key_from s.part_label s.answer_lines

-- One turn of the loop: the label joins the group of its key, or opens one.
unfoldable pub join_group : Sub → List Group → List Group
join_group s [] =
    record { group_key = key_of s; group_text = s.answer_text; parts = s.part_label ∷ [] } ∷ []
join_group s (g ∷ gs) =
    let rest = join_group s gs in
    if key_eq g.group_key (key_of s)
    then record g { parts = g.parts ++ s.part_label ∷ [] } ∷ gs
    else g ∷ rest

unfoldable pub group_from : List Group → List Sub → List Group
unfolding join_group
group_from gs [] = gs
group_from gs (s ∷ ss) = group_from (join_group s gs) ss

unfoldable pub group_answers : List Sub → List Group
unfolding group_from
group_answers subs = group_from [] subs
