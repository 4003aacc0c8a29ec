-- ===== src/Search/Assemble.antt =====
-- The node `assemble` of nhpc_qa/retrieval/graph/nodes.py: the candidates joined to the rows that the
-- database has for them, in the order in which they are shown. The columns that are only copied are left.
pub mod Display
use nhpc_parliament_rag_syst.Prelude.{
  ℕ, suc, Bool, true, false, ◌&&◌, ◌||◌, Option, none, some, List, [], ◌∷◌, String, if◌then◌else◌,
  ltb, leb, ◌==◌,
}
use nhpc_parliament_rag_syst.Dates.{Date}
use nhpc_parliament_rag_syst.Fuse.{Numbers}
use nhpc_parliament_rag_syst.Search.{Ranked}

-- A row of _ASSEMBLE_SQL.
pub record Row : Type 0 where
  pub sub_question_id : ℕ
  pub reply_date : Option Date

pub record Result : Type 0 where
  pub rank : ℕ
  pub doc_key : String
  pub sub_question_id : ℕ
  pub reply_date : Option Date
  pub relevance_rank : ℕ

-- `by_id.get(...)` of the dict that the rows are put into.
abbrev pub row_of : List Row → ℕ → Option Row
row_of [] i = none
row_of (r ∷ rows) i = elim (row_of rows i) [
  | some r' ↦ some r'
  | none ↦ if r.sub_question_id == i then some r else none
]

-- `(-y, -m, -d)` of a is below that of b.
abbrev pub is_later : Date → Date → Bool
is_later a b =
    ltb b.year a.year
    || ((a.year == b.year) && (ltb b.month a.month || ((a.month == b.month) && ltb b.day a.day)))

abbrev pub same_day : Date → Date → Bool
same_day a b = (a.year == b.year) && ((a.month == b.month) && (a.day == b.day))

-- The key of a is at most the key of b: dated first, newest first, then by relevance.
abbrev pub key_le : Option Date → ℕ → Option Date → ℕ → Bool
key_le none i none j = leb i j
key_le none i (some e) j = false
key_le (some d) i none j = true
key_le (some d) i (some e) j = is_later d e || (same_day d e && leb i j)

abbrev pub shown_before : Result → Result → Bool
shown_before a b = key_le a.reply_date a.relevance_rank b.reply_date b.relevance_rank

unfoldable pub insert_result : Result → List Result → List Result
insert_result r [] = r ∷ []
insert_result r (s ∷ ss) =
    let rest = insert_result r ss in if shown_before r s then r ∷ s ∷ ss else s ∷ rest

unfoldable pub sort_results : List Result → List Result
unfolding insert_result
sort_results [] = []
sort_results (r ∷ rs) = insert_result r (sort_results rs)

unfoldable pub renumber : ℕ → List Result → List Result
renumber i [] = []
renumber i (r ∷ rs) = record r { rank = i } ∷ renumber (suc i) rs

module _ (num : Numbers) where
  abbrev pub result_of : ℕ → Ranked num → Row → Result
  result_of rank p row = record {
    rank = rank;
    doc_key = p.fused.doc_key;
    sub_question_id = p.fused.sub_question_id;
    reply_date = row.reply_date;
    relevance_rank = rank;
  }

  -- The loop over `enumerate(picks, start=1)`; a candidate without a row is left out.
  unfoldable pub join_rows : ℕ → List (Ranked num) → List Row → List Result
  join_rows i [] rows = []
  join_rows i (p ∷ ps) rows =
      let rest = join_rows (suc i) ps rows in
      elim (row_of rows p.fused.sub_question_id) [
        | none ↦ rest
        | some row ↦ result_of i p row ∷ rest
      ]

  unfoldable pub assemble_results : Bool → List (Ranked num) → List Row → List Result
  unfolding join_rows sort_results renumber
  assemble_results by_date picks rows =
      let results = join_rows 1 picks rows in
      if by_date then renumber 1 (sort_results results) else results
