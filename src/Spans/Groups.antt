-- ===== src/Spans/Groups.antt =====
-- `group_answers` of nhpc_qa/pipeline/parse/spans.py: which questions share an answer.
use nhpc_parliament_rag_syst.Prelude.{
  ℕ, ◌≡◌, refl, ap, ap₂, sym, ◌∙◌, Bool, true, false, false≢true, List, [], ◌∷◌, ◌++◌, map, filter,
  if◌then◌else◌, Text, text_eq→eq, text_eq_refl, Bool-cases, inl, inr, arith, append-nil,
  append_assoc, Option, none, some, ◌&&◌, ◌==◌, text_eq,
}
use mathlib.Core.Path.{fun_ext}
use nhpc_parliament_rag_syst.Spans.{
  key_from, Sub, Group, GroupKey, lines_key, none_key, key_eq, key_of, join_group, group_from,
  group_answers,
}

key_eq→eq : (a b : GroupKey) → key_eq a b ≡ true → a ≡ b
key_eq→eq (lines_key (a, b)) (lines_key (c, d)) h =
    ap₂ (λ (x y : ℕ). lines_key (x, y)) (ground (arith, h)) (ground (arith, h))
key_eq→eq (none_key s) (none_key t) h = ap none_key (text_eq→eq s t h)
key_eq→eq (lines_key a) (none_key t) h = cc
key_eq→eq (none_key s) (lines_key b) h = cc

key_eq_refl : (a : GroupKey) → key_eq a a ≡ true
key_eq_refl (lines_key (a, b)) = ground arith
key_eq_refl (none_key s) = text_eq_refl s

-- The labels under a key.
unfoldable pub parts_of : GroupKey → List Group → List Text
parts_of k [] = []
parts_of k (g ∷ gs) = let rest = parts_of k gs in if key_eq g.group_key k then g.parts else rest

-- The labels of the questions that have a key.
abbrev pub labels_with : GroupKey → List Sub → List Text
labels_with k ss = map (λ s. s.part_label) (filter (λ s. key_eq (key_of s) k) ss)

join_same :
    (x y : Bool) (found rest : List Text) (l : Text)
    → x ≡ y
    → (if x then found ++ l ∷ [] else rest)
      ≡ (if x then found else rest) ++ (if y then l ∷ [] else [])
join_same true true found rest l h = refl
join_same false false found rest l h = sym (append-nil rest)
join_same true false found rest l h = cc
join_same false true found rest l h = cc

join_other :
    (x y : Bool) (found rest rest' : List Text) (l : Text)
    → (x ≡ true → y ≡ false)
    → rest' ≡ rest ++ (if y then l ∷ [] else [])
    → (if x then found else rest') ≡ (if x then found else rest) ++ (if y then l ∷ [] else [])
join_other true y found rest rest' l h e = rw (h refl) (sym (append-nil found))
join_other false y found rest rest' l h e = e

differs : (a b k : GroupKey) → key_eq a b ≡ false → key_eq a k ≡ true → key_eq b k ≡ false
differs a b k other same = elim (Bool-cases (key_eq b k)) [
  | inr e ↦ e
  | inl e ↦ absurd (
      false≢true
        (sym other ∙ ap (key_eq a) (key_eq→eq b k e ∙ sym (key_eq→eq a k same)) ∙ key_eq_refl a))
]

-- A question joins the group of its own key and no other.
parts_of-join_group :
    (k : GroupKey) (s : Sub) (gs : List Group)
    → parts_of k (join_group s gs)
      ≡ parts_of k gs ++ (if key_eq (key_of s) k then s.part_label ∷ [] else [])
unfolding parts_of join_group
parts_of-join_group k s [] = refl
parts_of-join_group k s (g ∷ gs) = elim (Bool-cases (key_eq g.group_key (key_of s))) [
  | inl same ↦ rw same (
      join_same (key_eq g.group_key k) (key_eq (key_of s) k) g.parts (parts_of k gs) s.part_label
        (ap (λ (a : GroupKey). key_eq a k) (key_eq→eq g.group_key (key_of s) same)))
  | inr other ↦ rw other (
      join_other (key_eq g.group_key k) (key_eq (key_of s) k) g.parts (parts_of k gs) _ s.part_label
        (differs g.group_key (key_of s) k other) (parts_of-join_group k s gs))
]

labels_cons :
    (k : GroupKey) (s : Sub) (ss : List Sub)
    → labels_with k (s ∷ ss)
      ≡ (if key_eq (key_of s) k then s.part_label ∷ [] else []) ++ labels_with k ss
labels_cons k s ss = elim (Bool-cases (key_eq (key_of s) k)) [
  | inl e ↦ rw e refl
  | inr e ↦ rw e refl
]

parts_of-group_from :
    (k : GroupKey) (gs : List Group) (ss : List Sub)
    → parts_of k (group_from gs ss) ≡ parts_of k gs ++ labels_with k ss
unfolding group_from
parts_of-group_from k gs [] = sym (append-nil (parts_of k gs))
parts_of-group_from k gs (s ∷ ss) =
    parts_of-group_from k (join_group s gs) ss
    ∙ ap (λ (l : List Text). l ++ labels_with k ss) (parts_of-join_group k s gs)
    ∙ append_assoc (parts_of k gs) (if key_eq (key_of s) k then s.part_label ∷ [] else [])
        (labels_with k ss)
    ∙ ap (λ (l : List Text). parts_of k gs ++ l) (sym (labels_cons k s ss))

-- The answer of a question is exactly these lines.
abbrev pub is_answered : ℕ → ℕ → Option (ℕ × ℕ) → Bool
is_answered first last none = false
is_answered first last (some (a, b)) = a == first && b == last

abbrev pub is_unanswered : Option (ℕ × ℕ) → Bool
is_unanswered none = true
is_unanswered (some span) = false

lines_key-is_answered :
    (first last : ℕ) (label : Text) (lines : Option (ℕ × ℕ))
    → key_eq (key_from label lines) (lines_key (first, last)) ≡ is_answered first last lines
lines_key-is_answered first last label none = refl
lines_key-is_answered first last label (some (a, b)) = refl

none_key-is_unanswered :
    (own label : Text) (lines : Option (ℕ × ℕ))
    → key_eq (key_from label lines) (none_key own) ≡ (is_unanswered lines && text_eq label own)
none_key-is_unanswered own label none = refl
none_key-is_unanswered own label (some span) = refl

-- Two questions share an answer exactly when the first and the last line of their answers are the same:
-- the group of two line numbers lists the labels of the questions whose answer is from the one to the
-- other, all of them and in their order; and the group of a label without an answer lists the questions
-- that have that label and no answer, and no other.
pub group_answers_exact :
    (first last : ℕ) (own : Text) (subs : List Sub)
    → (parts_of (lines_key (first, last)) (group_answers subs)
        ≡ map (λ s. s.part_label) (filter (λ s. is_answered first last s.answer_lines) subs))
      × (parts_of (none_key own) (group_answers subs)
          ≡ map
              (λ s. s.part_label)
              (filter (λ s. is_unanswered s.answer_lines && text_eq s.part_label own) subs))
unfolding group_answers parts_of
group_answers_exact first last own subs = (
  parts_of-group_from (lines_key (first, last)) [] subs
      ∙ ap (λ (p : Sub → Bool). map (λ s. s.part_label) (filter p subs))
          (fun_ext (λ s. lines_key-is_answered first last s.part_label s.answer_lines)),
  parts_of-group_from (none_key own) [] subs
      ∙ ap (λ (p : Sub → Bool). map (λ s. s.part_label) (filter p subs))
          (fun_ext (λ s. none_key-is_unanswered own s.part_label s.answer_lines)),
)
