-- ===== src/Spans/Sound.antt =====
-- What holds of all the sub-questions together that `verify_and_repair` of
-- nhpc_qa/pipeline/parse/spans.py returns without an error.
use nhpc_parliament_rag_syst.Prelude.{
  ℕ, zero, suc, ◌+◌, ◌≤◌, ◌<◌, ◌≡◌, ◌≢◌, refl, ap, sym, ◌∙◌, subst, Bool, true, false, ◌||◌, Option,
  List, [], ◌∷◌, ◌++◌, map, if◌then◌else◌, Text, text_eq, length, any, leb, ◌==◌, All, All-map,
  Bool-cases, inl, inr, arith,
}
use nhpc_parliament_rag_syst.Spans.Markers.{is_marker, is_mark, marks_from, blocks_of}
use nhpc_parliament_rag_syst.Spans.{
  RawSub, Sub, SpanError, insert_by_start, sort_by_start, fill_answer, claims, count_missed,
  missed_error, overlaps, labels_unique, duplicate_labels, no_usable, check_all, finish,
  verify_and_repair,
}
use nhpc_parliament_rag_syst.Spans.Items.{IsSliced, check_all-IsSliced}
use nhpc_parliament_rag_syst.Spans.Fill.{
  sort_by_start-All, marks_from-Rises, marks_from_bounded, blocks_of-IsInText, fill_answer-IsSliced,
  map-All,
}

-- Questions one after the other, with labels that differ.
unfoldable pub IsApart : List Sub → Type 0
IsApart [] = Unit
IsApart (s ∷ ss) =
    All
      (λ t. (s.question_lines.1 < t.question_lines.0) × (text_eq t.part_label s.part_label ≡ false))
      ss
    × IsApart ss

cons-nil : {e : SpanError} {es : List SpanError} → e ∷ es ≡ [] → ⊥
cons-nil h = cc

-- A mark is the start of a block.
mark_in_marks :
    (i j : ℕ) (lines : List Text)
    → is_mark lines j ≡ true
    → any (λ m. m == i + j) (marks_from i lines) ≡ true
unfolding marks_from
mark_in_marks i j [] h = cc
mark_in_marks i zero (l ∷ lines) h = rw h (ground arith)
mark_in_marks i (suc j) (l ∷ lines) h =
    let later = mark_in_marks (suc i) j lines h in
    let same : suc i + j ≡ i + suc j = omega arith in
    let later' : any (λ m. m == i + suc j) (marks_from (suc i) lines) ≡ true =
      subst (λ (k : ℕ). any (λ m. m == k) (marks_from (suc i) lines) ≡ true) same later in
    elim (Bool-cases (is_marker l)) [ inl e ↦ rw e (ground (arith, later')) | inr e ↦ rw e later' ]

mark_in_blocks :
    (n k : ℕ) (ms : List ℕ) → any (λ m. m == k) ms ≡ any (λ (b : ℕ × ℕ). b.0 == k) (blocks_of n ms)
unfolding blocks_of
mark_in_blocks n k [] = refl
mark_in_blocks n k (m ∷ []) = refl
mark_in_blocks n k (m ∷ m' ∷ ms) = ap (λ (b : Bool). (m == k) || b) (mark_in_blocks n k (m' ∷ ms))

-- Where no block is missed, each is claimed.
none_missed :
    (subs : List Sub) (bs : List (ℕ × ℕ)) (k : ℕ)
    → count_missed subs bs ≡ 0
    → any (λ (b : ℕ × ℕ). b.0 == k) bs ≡ true
    → any (claims (k, k)) subs ≡ true
unfolding count_missed
none_missed subs [] k h e = cc
none_missed subs ((m, q) ∷ bs) k h e = elim (Bool-cases (any (claims (m, q)) subs)) [
  | inr free ↦ absurd (ground (arith, free))
  | inl taken ↦ elim (Bool-cases (m == k)) [
    | inl same ↦ subst (λ (j : ℕ). any (claims (j, j)) subs ≡ true) (ground (arith, same)) taken
    | inr other ↦ none_missed subs bs k (ground (arith, taken)) (ground (arith, other, e))
  ]
]

nil_parts : (xs ys : List SpanError) → xs ++ ys ≡ [] → (xs ≡ []) × (ys ≡ [])
nil_parts [] ys h = (refl, h)
nil_parts (x ∷ xs) ys h = cc

missed_none : (n : ℕ) → missed_error n ≡ [] → n ≡ 0
missed_none zero h = refl
missed_none (suc n) h = cc

-- Questions that do not overlap their neighbours do not overlap at all.
far_apart :
    (a : Sub) (ss : List Sub) (hi : ℕ)
    → hi ≤ a.question_lines.0
    → All (λ t. t.question_lines.0 ≤ t.question_lines.1) (a ∷ ss)
    → overlaps (a ∷ ss) ≡ []
    → All (λ t. hi ≤ t.question_lines.0) (a ∷ ss)
unfolding overlaps
far_apart a [] hi h w o = (h, tt)
far_apart a (b ∷ ss) hi h w o = elim (Bool-cases (leb b.question_lines.0 a.question_lines.1)) [
  | inl e ↦ absurd (cons-nil (rw e at o))
  | inr e ↦ (h, far_apart b ss hi (ground (arith, e, h, w.0)) w.1 (rw e at o))
]

labels_differ :
    (s : Sub) (ss : List Sub)
    → any (λ t. text_eq t.part_label s.part_label) ss ≡ false
    → All (λ t. text_eq t.part_label s.part_label ≡ false) ss
labels_differ s [] h = tt
labels_differ s (t ∷ ts) h = (ground arith, labels_differ s ts (ground arith))

both_All : (P Q : Sub → Type 0) (ss : List Sub) → All P ss → All Q ss → All (λ t. P t × Q t) ss
both_All P Q [] h k = tt
both_All P Q (s ∷ ss) (h, hs) (k, ks) = ((h, k), both_All P Q ss hs ks)

after_first :
    (s : Sub) (ss : List Sub)
    → All (λ t. t.question_lines.0 ≤ t.question_lines.1) (s ∷ ss)
    → overlaps (s ∷ ss) ≡ []
    → All (λ t. s.question_lines.1 < t.question_lines.0) ss × (overlaps ss ≡ [])
unfolding overlaps
after_first s [] w o = (tt, refl)
after_first s (b ∷ ss) w o = elim (Bool-cases (leb b.question_lines.0 s.question_lines.1)) [
  | inl e ↦ absurd (cons-nil (rw e at o))
  | inr e ↦ (far_apart b ss (suc s.question_lines.1) (ground (arith, e)) w.1 (rw e at o), rw e at o)
]

checked-IsApart :
    (ss : List Sub)
    → All (λ t. t.question_lines.0 ≤ t.question_lines.1) ss
    → overlaps ss ≡ []
    → labels_unique ss ≡ true
    → IsApart ss
unfolding IsApart labels_unique
checked-IsApart [] w o l = tt
checked-IsApart (s ∷ ss) w o l =
    let (far, o') = after_first s ss w o in
    (
      both_All (λ t. s.question_lines.1 < t.question_lines.0)
          (λ t. text_eq t.part_label s.part_label ≡ false) ss far
          (labels_differ s ss (ground arith)),
      checked-IsApart ss w.1 o' (ground arith),
    )

-- What holds of a result that may be used: there is a sub-question; each is sliced from the text's own
-- lines; the questions come one after the other without overlap, under labels that differ; and every
-- line with an answer marker lies in the answer of some sub-question.
abbrev pub IsUsable : List Text → List Sub → Type 0
IsUsable lines subs =
    (subs ≢ [])
    × All (IsSliced lines) subs
    × IsApart subs
    × ((k : ℕ) → is_mark lines k ≡ true → any (claims (k, k)) subs ≡ true)

map-cons_ne : (f : Sub → Sub) (s : Sub) (ss : List Sub) → map f (s ∷ ss) ≢ []
map-cons_ne f s ss h = cc

map-insert_ne : (f : Sub → Sub) (s : Sub) (ss : List Sub) → map f (insert_by_start s ss) ≢ []
unfolding insert_by_start
map-insert_ne f s [] h = cc
map-insert_ne f s (t ∷ ts) h = elim (Bool-cases (leb s.question_lines.0 t.question_lines.0)) [
  | inl e ↦ absurd (map-cons_ne f s (t ∷ ts) (rw e at h))
  | inr e ↦ absurd (map-cons_ne f t (insert_by_start s ts) (rw e at h))
]

unique_label : (b : Bool) → (if b then [] else duplicate_labels ∷ []) ≡ [] → b ≡ true
unique_label true h = refl
unique_label false h = cc

mark_at_zero :
    (k : ℕ) (lines : List Text)
    → is_mark lines k ≡ true
    → any (λ m. m == k) (marks_from 0 lines) ≡ true
mark_at_zero k lines h =
    let same : 0 + k ≡ k = omega arith in
    subst (λ (j : ℕ). any (λ m. m == j) (marks_from 0 lines) ≡ true) same
      (mark_in_marks 0 k lines h)

finish_sound :
    (lines : List Text) (subs : List Sub) (errors : List SpanError)
    → All (IsSliced lines) subs
    → (finish lines (subs, errors)).1 ≡ []
    → IsUsable lines (finish lines (subs, errors)).0
unfolding finish
finish_sound lines [] errors good h = absurd (cons-nil (nil_parts errors (no_usable ∷ []) h).1)
finish_sound lines (s ∷ ss) errors good h =
    let sorted = sort_by_start (s ∷ ss) in
    let marks = marks_from 0 lines in
    let blocks = blocks_of (length lines) marks in
    let out = map (fill_answer lines blocks sorted) sorted in
    let sorted_good = sort_by_start-All (IsSliced lines) (s ∷ ss) good in
    let bounded =
      All-map (λ m. m < 0 + length lines) (λ m. m < length lines) marks (λ m l. omega (arith, l))
        (marks_from_bounded 0 lines) in
    let in_text = blocks_of-IsInText lines 0 marks (marks_from-Rises 0 lines) bounded in
    let out_good =
      map-All (IsSliced lines) (IsSliced lines) (fill_answer lines blocks sorted) sorted
        (fill_answer-IsSliced lines blocks sorted in_text sorted_good) sorted_good in
    let (_, h₁) = nil_parts errors _ h in
    let (no_miss, h₂) = nil_parts (missed_error (count_missed out blocks)) _ h₁ in
    let (no_overlap, unique) = nil_parts (overlaps out) _ h₂ in
    let label_test = labels_unique out in
    (
      map-insert_ne (fill_answer lines blocks sorted) s (sort_by_start ss),
      out_good,
      checked-IsApart out
          (All-map (IsSliced lines) (λ t. t.question_lines.0 ≤ t.question_lines.1) out
            (λ t g. g.question_in.0) out_good)
          no_overlap (unique_label label_test unique),
      λ k mark.
          none_missed out blocks k (missed_none (count_missed out blocks) no_miss)
            (sym (mark_in_blocks (length lines) k marks) ∙ mark_at_zero k lines mark),
    )

-- Whatever the language model answers, and whatever Unicode calls a letter: if the check finds no
-- error, the result may be used. Every question and answer is sliced from the text's own lines, the
-- questions do not overlap and have labels that differ, no question holds an answer marker, and no
-- answer block of the text is left out.
pub verify_and_repair_sound :
    (is_word : ℕ → Bool) (lines : List Text) (raws : List (Option RawSub))
    → (verify_and_repair is_word lines raws).1 ≡ []
    → IsUsable lines (verify_and_repair is_word lines raws).0
unfolding verify_and_repair
verify_and_repair_sound is_word lines [] h = absurd (cons-nil h)
verify_and_repair_sound is_word lines (r ∷ rs) h =
    let checked = check_all is_word lines 0 0 (r ∷ rs) in
    finish_sound lines checked.0 checked.1 (check_all-IsSliced is_word lines 0 0 (r ∷ rs)) h
