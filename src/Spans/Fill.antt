-- ===== src/Spans/Fill.antt =====
-- Sorting the sub-questions and filling in the answers that the model left open, in
-- nhpc_qa/pipeline/parse/spans.py: every span stays in the text.
use nhpc_parliament_rag_syst.Prelude.{
  ℕ, suc, ◌+◌, ◌≤◌, ◌<◌, ◌≡◌, refl, subst, Option, none, some, List, [], ◌∷◌, map, if◌then◌else◌,
  Text, length, leb, ltb, ◌==◌, All, All-map, Bool-cases, Option-cases, inl, inr, eq_of_some,
  none-some, arith,
}
use nhpc_parliament_rag_syst.Spans.Markers.{is_marker, marks_from, blocks_of}
use nhpc_parliament_rag_syst.Spans.{
  Sub, insert_by_start, as_claimed, span_to_fill, fill_with, sort_by_start, next_block,
  claimed_span, fill_answer,
}
use nhpc_parliament_rag_syst.Spans.Items.{IsInText, IsAnswerInText, IsSliced}

insert_by_start-All :
    (P : Sub → Type 0) (s : Sub) (ss : List Sub) → P s → All P ss → All P (insert_by_start s ss)
unfolding insert_by_start
insert_by_start-All P s [] h hs = (h, tt)
insert_by_start-All P s (t ∷ ts) h (k, ks) =
    elim (Bool-cases (leb s.question_lines.0 t.question_lines.0)) [
      | inl e ↦ rw e (h, (k, ks))
      | inr e ↦ rw e (k, insert_by_start-All P s ts h ks)
    ]

pub sort_by_start-All : (P : Sub → Type 0) (ss : List Sub) → All P ss → All P (sort_by_start ss)
unfolding sort_by_start
sort_by_start-All P [] h = tt
sort_by_start-All P (s ∷ ss) (h, hs) =
    insert_by_start-All P s (sort_by_start ss) h (sort_by_start-All P ss hs)

-- Marks rise, and are lines of the text.
abbrev pub Rises : ℕ → List ℕ → Type 0
Rises i [] = Unit
Rises i (m ∷ ms) = (i ≤ m) × Rises (suc m) ms

Rises-weaken : (i j : ℕ) (ms : List ℕ) → j ≤ i → Rises i ms → Rises j ms
Rises-weaken i j [] h r = tt
Rises-weaken i j (m ∷ ms) h (l, r) = (omega (arith, h, l), r)

pub marks_from-Rises : (i : ℕ) (lines : List Text) → Rises i (marks_from i lines)
unfolding marks_from
marks_from-Rises i [] = tt
marks_from-Rises i (l ∷ lines) = elim (Bool-cases (is_marker l)) [
  | inl e ↦ rw e (omega arith, marks_from-Rises (suc i) lines)
  | inr e ↦ rw e (
      Rises-weaken (suc i) i (marks_from (suc i) lines) (omega arith)
        (marks_from-Rises (suc i) lines))
]

pub marks_from_bounded :
    (i : ℕ) (lines : List Text) → All (λ m. m < i + length lines) (marks_from i lines)
unfolding marks_from
marks_from_bounded i [] = tt
marks_from_bounded i (l ∷ lines) =
    let rest =
      All-map (λ m. m < suc i + length lines) (λ m. m < i + suc (length lines))
        (marks_from (suc i) lines) (λ m h. omega (arith, h)) (marks_from_bounded (suc i) lines) in
    elim (Bool-cases (is_marker l)) [ inl e ↦ rw e (omega arith, rest) | inr e ↦ rw e rest ]

-- Every block lies in the text.
pub blocks_of-IsInText :
    (lines : List Text) (i : ℕ) (ms : List ℕ)
    → Rises i ms
    → All (λ m. m < length lines) ms
    → All (IsInText lines) (blocks_of (length lines) ms)
unfolding blocks_of
blocks_of-IsInText lines i [] r h = tt
blocks_of-IsInText lines i (m ∷ []) r h = ((omega (arith, h.0), omega (arith, h.0)), tt)
blocks_of-IsInText lines i (m ∷ k ∷ ms) r h = (
  (omega (arith, r.1.0), omega (arith, h.1.0)),
  blocks_of-IsInText lines (suc m) (k ∷ ms) r.1 h.1,
)

next_block-IsInText :
    (lines : List Text) (start : ℕ) (bs : List (ℕ × ℕ)) (b : ℕ × ℕ)
    → All (IsInText lines) bs
    → next_block start bs ≡ some b
    → IsInText lines b
next_block-IsInText lines start [] b h e = absurd (none-some e)
next_block-IsInText lines start ((m, k) ∷ bs) b h e = elim (Bool-cases (ltb start m)) [
  | inl later ↦ subst (IsInText lines) (eq_of_some (rw later at e)) h.0
  | inr earlier ↦ next_block-IsInText lines start bs b h.1 (rw earlier at e)
]

claimed_span-IsInText :
    (lines : List Text) (mark : ℕ) (ss : List Sub) (b : ℕ × ℕ)
    → All (IsSliced lines) ss
    → claimed_span mark ss ≡ some b
    → IsInText lines b
unfolding claimed_span
claimed_span-IsInText lines mark [] b h e = absurd (none-some e)
claimed_span-IsInText lines mark (s ∷ ss) b h e =
    choose s.answer_lines h.0.answer_in (claimed_span-IsInText lines mark ss b h.1) e
  where
    choose :
        (answer : Option (ℕ × ℕ))
        → IsAnswerInText lines answer
        → (claimed_span mark ss ≡ some b → IsInText lines b)
        → elim answer as (λ _. Option (ℕ × ℕ)) [
          | none ↦ claimed_span mark ss
          | some (lo, hi) ↦ if lo == mark then some (lo, hi) else claimed_span mark ss
        ]
          ≡ some b
        → IsInText lines b
    choose none k later found = later found
    choose (some (lo, hi)) k later found = elim (Bool-cases (lo == mark)) [
      | inl same ↦ subst (IsInText lines) (eq_of_some (rw same at found)) k
      | inr other ↦ later (rw other at found)
    ]

as_claimed-IsInText :
    (lines : List Text) (siblings : List Sub) (found : Option (ℕ × ℕ)) (span : ℕ × ℕ)
    → All (IsSliced lines) siblings
    → ((b : ℕ × ℕ) → found ≡ some b → IsInText lines b)
    → as_claimed siblings found ≡ some span
    → IsInText lines span
as_claimed-IsInText lines siblings none span ss h e = absurd (none-some e)
as_claimed-IsInText lines siblings (some b) span ss h e =
    elim (Option-cases (claimed_span b.0 siblings)) [
      | inl free ↦ subst (IsInText lines) (eq_of_some (rw free at e)) (h b refl)
      | inr (c, taken) ↦
          subst (IsInText lines) (eq_of_some (rw taken at e))
            (claimed_span-IsInText lines b.0 siblings c ss taken)
    ]

span_to_fill-IsInText :
    (lines : List Text) (blocks : List (ℕ × ℕ)) (siblings : List Sub) (start : ℕ)
    (answer : Option (ℕ × ℕ)) (span : ℕ × ℕ)
    → All (IsInText lines) blocks
    → All (IsSliced lines) siblings
    → span_to_fill blocks siblings start answer ≡ some span
    → IsInText lines span
unfolding span_to_fill
span_to_fill-IsInText lines blocks siblings start (some a) span bs ss e = absurd (none-some e)
span_to_fill-IsInText lines blocks siblings start none span bs ss e =
    as_claimed-IsInText lines siblings (next_block start blocks) span ss
      (λ b found. next_block-IsInText lines start blocks b bs found) e

fill_with-IsSliced :
    (lines : List Text) (s : Sub) (target : Option (ℕ × ℕ))
    → ((span : ℕ × ℕ) → target ≡ some span → IsInText lines span)
    → IsSliced lines s
    → IsSliced lines (fill_with lines s target)
fill_with-IsSliced lines s none h good = good
fill_with-IsSliced lines s (some span) h good = record {
  question_in = good.question_in;
  no_marker = good.no_marker;
  own_question = good.own_question;
  not_blank = good.not_blank;
  answer_in = h span refl;
  own_answer = refl;
}

-- What is filled in lies in the text.
pub fill_answer-IsSliced :
    (lines : List Text) (blocks : List (ℕ × ℕ)) (siblings : List Sub)
    → All (IsInText lines) blocks
    → All (IsSliced lines) siblings
    → (s : Sub) → IsSliced lines s
    → IsSliced lines (fill_answer lines blocks siblings s)
unfolding fill_answer
fill_answer-IsSliced lines blocks siblings bs ss s good =
    fill_with-IsSliced lines s _
      (λ span e.
        span_to_fill-IsInText lines blocks siblings s.question_lines.0 s.answer_lines span bs ss e)
      good

pub map-All :
    (P Q : Sub → Type 0) (f : Sub → Sub) (ss : List Sub)
    → ((s : Sub) → P s → Q (f s))
    → All P ss
    → All Q (map f ss)
map-All P Q f [] h k = tt
map-All P Q f (s ∷ ss) h (k, ks) = (h s k, map-All P Q f ss h ks)
