-- ===== src/Spans/Markers.antt =====
-- The lexical cues of nhpc_qa/pipeline/parse/spans.py: ANSWER_MARKER, QUESTION_HEADING and
-- DOC_TITLE_LINE, and what is cut by them. `re.I` is read as that of ASCII letters.
use nhpc_parliament_rag_syst.Prelude.{
  ℕ, zero, suc, ◌+◌, ◌-◌, Bool, true, false, not, ◌&&◌, ◌||◌, Option, none, some, List, [], ◌∷◌,
  map, ◌==◌, if◌then◌else◌, Text, codes, strip, lower_char, is_space, drop_while, filter, join,
  take, drop, get_elem?,
}

-- A text after a prefix, in either case.
abbrev pub eat : Text → Text → Option Text
eat [] t = some t
eat (c ∷ w) [] = none
eat (c ∷ w) (d ∷ t) = if c == lower_char d then eat w t else none

infixl 5 ◌>>=◌
abbrev pub ◌>>=◌ {ℓ κ} : {A : Type ℓ} {B : Type κ} → Option A → (A → Option B) → Option B
none >>= f = none
some a >>= f = f a

abbrev pub or_else {ℓ} : {A : Type ℓ} → Option A → Option A → Option A
or_else none o = o
or_else (some a) o = some a

-- `\s*`
abbrev pub spaces : Text → Text
spaces = drop_while is_space

-- `\s+`
abbrev pub some_space : Text → Option Text
some_space [] = none
some_space (c ∷ t) = if is_space c then some (spaces t) else none

-- `[:.\-]`
abbrev pub separator : Text → Option Text
separator [] = none
separator (c ∷ t) = if c == b':' || c == b'.' || c == b'-' then some t else none

-- `repl(?:y|ies)`
abbrev pub eat_reply : Text → Option Text
eat_reply t = or_else (eat (codes "reply") t) (eat (codes "replies") t)

-- `(?:the\s+)?`
abbrev pub optional_the : Text → Text
optional_the t = elim (eat (codes "the") t >>= some_space) [ none ↦ t | some r ↦ r ]

abbrev pub eat_material : Text → Option Text
eat_material t =
    eat (codes "material") t >>= some_space >>= eat (codes "for") >>= some_space >>= λ r.
    eat_reply (optional_the r)

-- A word with an optional plural, and then the separator: the longer word is tried first.
abbrev pub word_then_separator : Option Text → Option Text
word_then_separator o = o >>= λ r. separator (spaces r)

-- What follows an answer marker at the start of a line, if there is one.
unfoldable pub after_marker : Text → Option Text
unfolding is_space drop_while
after_marker line =
    let t = spaces line in
    or_else (word_then_separator (eat_material t)) (
      or_else (word_then_separator (eat (codes "comments") t)) (
        or_else (word_then_separator (eat (codes "comment") t)) (
          or_else (word_then_separator (eat (codes "answers") t)) (
            or_else (word_then_separator (eat (codes "answer") t)) (
              or_else (word_then_separator (eat_reply t))
                (word_then_separator (eat (codes "उत्तर") t)))))))

unfoldable pub after_heading : Text → Option Text
unfolding is_space drop_while
after_heading line =
    let t = spaces line in
    or_else (word_then_separator (eat (codes "questions") t)) (
      or_else (word_then_separator (eat (codes "question") t))
        (word_then_separator (eat (codes "प्रश्न") t)))

-- ANSWER_MARKER.match
abbrev pub is_marker : Text → Bool
is_marker line = elim (after_marker line) [ none ↦ false | some r ↦ true ]

unfoldable pub strip_marker : Text → Text
unfolding after_marker
strip_marker t = strip (elim (after_marker t) [ none ↦ t | some r ↦ r ])

unfoldable pub strip_question_heading : Text → Text
unfolding after_heading
strip_question_heading t = strip (elim (after_heading t) [ none ↦ t | some r ↦ r ])

module _ (is_word : ℕ → Bool) where
  -- `\b` before what is left of a text, after a character or at the start.
  abbrev pub ends_word : Text → Bool
  ends_word [] = true
  ends_word (c ∷ t) = not (is_word c)

  -- `\bquestion\b` somewhere; `boundary` is whether a word may begin here.
  unfoldable pub has_question : Bool → Text → Bool
  has_question boundary [] = false
  has_question boundary (c ∷ t) =
      (boundary && elim (eat (codes "question") (c ∷ t)) [ none ↦ false | some r ↦ ends_word r ])
      || has_question (not (is_word c)) t

  -- DOC_TITLE_LINE.match, of a text on one line.
  unfoldable pub is_title : Text → Bool
  unfolding has_question is_space drop_while
  is_title line =
      elim (eat (codes "material") (spaces line)
        >>= some_space
        >>= eat (codes "for")
        >>= some_space
        >>= eat_reply
        >>= some_space
        >>= eat (codes "of")) [ none ↦ false | some r ↦ ends_word r && has_question false r ]

-- `re.sub(r"\s+", " ", t)`; `gap` is whether the character before was a space.
unfoldable pub collapse : Bool → Text → Text
unfolding is_space
collapse gap [] = []
collapse gap (c ∷ t) =
    let after_gap = collapse true t in
    let after_word = collapse false t in
    if is_space c then (if gap then after_gap else 32 ∷ after_gap) else c ∷ after_word

abbrev pub is_blank : Text → Bool
is_blank [] = true
is_blank (c ∷ t) = false

-- The lines from `lo` to `hi`, both included.
abbrev pub lines_of : List Text → ℕ × ℕ → List Text
lines_of lines (lo, hi) = take (hi + 1 - lo) (drop lo lines)

unfoldable pub slice_lines : List Text → ℕ × ℕ → Text
unfolding collapse join
slice_lines lines span =
    strip
      (collapse false (join 32 (filter (λ l. not (is_blank l)) (map strip (lines_of lines span)))))

abbrev pub is_mark : List Text → ℕ → Bool
is_mark lines i = elim (get_elem? lines i) [ none ↦ false | some l ↦ is_marker l ]

-- `_marker_line` on `count` lines from `lo` on.
unfoldable pub marker_line : List Text → ℕ → ℕ → Option ℕ
marker_line lines lo zero = none
marker_line lines lo (suc count) =
    let later = marker_line lines (suc lo) count in if is_mark lines lo then some lo else later

-- `marks` of `_answer_blocks`, from line `i` on.
unfoldable pub marks_from : ℕ → List Text → List ℕ
marks_from i [] = []
marks_from i (l ∷ lines) =
    let later = marks_from (suc i) lines in if is_marker l then i ∷ later else later

-- A block ends before the next marker, or with the text of `n` lines.
unfoldable pub blocks_of : ℕ → List ℕ → List (ℕ × ℕ)
blocks_of n [] = []
blocks_of n (m ∷ []) = (m, n - 1) ∷ []
blocks_of n (m ∷ k ∷ ms) = (m, k - 1) ∷ blocks_of n (k ∷ ms)
