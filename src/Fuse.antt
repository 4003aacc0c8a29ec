-- ===== src/Fuse.antt =====
-- Reciprocal rank fusion of the retrievers' lists: nhpc_qa/retrieval/search/fuse.py. The floating
-- point numbers of Python are the record `Numbers`; a dict that is filled in order is a list.
pub mod Slots
pub mod Places
pub mod Order
use nhpc_parliament_rag_syst.Prelude.{
  ℕ, zero, suc, ◌+◌, Bool, true, false, not, Option, none, some, List, [], ◌∷◌, ◌++◌, map, filter,
  length, String, str_eq, if◌then◌else◌, ltb, leb, ◌==◌, any, ◌&&◌,
}
use Prim.Native.String.{compare}
use Prim.Native.Nat.{Ordering}

-- The floats with the operations that the code applies to them: `over w n` is w / n, `share m n` is
-- m / n of two integers, `round_to n` is round(_, n).
pub record Numbers : Type 1 where
  pub Number : Type 0
  pub zero_point : Number
  pub minus_one : Number
  pub plus : Number → Number → Number
  pub minus : Number → Number → Number
  pub over : Number → ℕ → Number
  pub share : ℕ → ℕ → Number
  pub round_to : ℕ → Number → Number
  pub below : Number → Number → Bool

-- A row of a retriever's list, whose ranks start at 1.
pub record Hit : Type 0 where
  pub doc_key : String
  pub sub_question_id : ℕ
  pub sub_question_local : Option String
  pub question_text : Option String
  pub rank : ℕ

pub data Reason : Type 0 where
  no_candidates low_score small_gap : Reason

abbrev str_le : String → String → Bool
str_le a b = elim (compare a b) [ Ordering.gt ↦ false | _ ↦ true ]

abbrev insert_name : String → List String → List String
insert_name s [] = s ∷ []
insert_name s (t ∷ ts) = let rest = insert_name s ts in if str_le s t then s ∷ t ∷ ts else t ∷ rest

unfoldable pub sort_names : List String → List String
sort_names [] = []
sort_names (s ∷ ss) = insert_name s (sort_names ss)

abbrev pub has_name : List String → String → Bool
has_name names s = any (λ n. str_eq n s) names

-- The ranks of a slot, retriever by retriever: the best one is kept.
unfoldable pub set_rank : String → ℕ → List (String × ℕ) → List (String × ℕ)
set_rank r n [] = (r, n) ∷ []
set_rank r n ((s, m) ∷ rs) =
    let rest = set_rank r n rs in
    if str_eq s r then (s, (if ltb n m then n else m)) ∷ rs else (s, m) ∷ rest

module _ (num : Numbers) where
  open num use {Number, zero_point, minus_one, plus, minus, over, share, round_to, below}

  pub record FuseConfig : Type 0 where
    pub rrf_weight_dense : Number
    pub rrf_weight_keyword : Number
    pub rrf_weight_entity : Number
    pub answer_embed_weight : Option Number
    pub rrf_k : ℕ
    pub widen_enabled : Bool
    pub widen_tau : Number
    pub widen_delta : Number

  -- The accumulator of a doc_key.
  pub record Slot : Type 0 where
    pub doc_key : String
    pub sub_question_id : ℕ
    pub sub_question_local : Option String
    pub question_text : Option String
    pub rrf_score : Number
    pub ranks : List (String × ℕ)
    pub best_contrib : Number

  pub record Fused : Type 0 where
    pub doc_key : String
    pub sub_question_id : ℕ
    pub sub_question_local : Option String
    pub question_text : Option String
    pub rrf_score : Number
    pub ranks : List (String × ℕ)
    pub retrievers : List String
    pub agreement : Number

  pub record Stats : Type 0 where
    pub top_score : Number
    pub score_gap : Number
    pub n_eligible : ℕ
    pub n_fired : ℕ
    pub eligible : List String
    pub fired : List String
    pub n_candidates : ℕ

  abbrev or_zero : Option Number → Number
  or_zero none = zero_point
  or_zero (some w) = w

  -- `weights.get(retriever, 0.0)`
  unfoldable pub weight_of : FuseConfig → String → Number
  weight_of cfg r =
      if str_eq r "dense"
      then cfg.rrf_weight_dense
      else if str_eq r "keyword"
      then cfg.rrf_weight_keyword
      else if str_eq r "entity"
      then cfg.rrf_weight_entity
      else if str_eq r "dense_answer"
      then or_zero cfg.answer_embed_weight
      else zero_point

  unfoldable pub contribution : FuseConfig → String → Hit → Number
  contribution cfg r h = over (weight_of cfg r) (cfg.rrf_k + h.rank)

  unfoldable pub empty_slot : Hit → Slot
  empty_slot h = record {
    doc_key = h.doc_key;
    sub_question_id = h.sub_question_id;
    sub_question_local = h.sub_question_local;
    question_text = h.question_text;
    rrf_score = zero_point;
    ranks = [];
    best_contrib = minus_one;
  }

  unfoldable pub represent : Number → Hit → Slot → Slot
  represent c h a =
      if below a.best_contrib c
      then record a {
        best_contrib = c;
        sub_question_id = h.sub_question_id;
        sub_question_local = h.sub_question_local;
        question_text = h.question_text;
      }
      else a

  unfoldable pub absorb : FuseConfig → String → Hit → Slot → Slot
  unfolding set_rank represent
  absorb cfg r h a = represent (contribution cfg r h) h (record a {
    rrf_score = plus a.rrf_score (contribution cfg r h);
    ranks = set_rank r h.rank a.ranks;
  })

  unfoldable pub take_hit : FuseConfig → String → Hit → List Slot → List Slot
  take_hit cfg r h [] = absorb cfg r h (empty_slot h) ∷ []
  take_hit cfg r h (a ∷ slots) =
      let rest = take_hit cfg r h slots in
      if str_eq a.doc_key h.doc_key then absorb cfg r h a ∷ slots else a ∷ rest

  unfoldable pub take_hits : FuseConfig → String → List Hit → List Slot → List Slot
  take_hits cfg r [] slots = slots
  take_hits cfg r (h ∷ hs) slots = take_hits cfg r hs (take_hit cfg r h slots)

  unfoldable pub accumulate : FuseConfig → List (String × List Hit) → List Slot → List Slot
  accumulate cfg [] slots = slots
  accumulate cfg ((r, hs) ∷ lists) slots = accumulate cfg lists (take_hits cfg r hs slots)

  abbrev pub at_least_one : ℕ → ℕ
  at_least_one zero = 1
  at_least_one (suc n) = suc n

  unfoldable pub finish_slot : List String → Slot → Fused
  unfolding sort_names
  finish_slot fired a =
      let names = map (λ (e : String × ℕ). e.0) a.ranks in
      record {
        doc_key = a.doc_key;
        sub_question_id = a.sub_question_id;
        sub_question_local = a.sub_question_local;
        question_text = a.question_text;
        rrf_score = a.rrf_score;
        ranks = a.ranks;
        retrievers = sort_names names;
        agreement =
            round_to 3
              (share (length (filter (has_name fired) names)) (at_least_one (length fired)));
      }

  -- `fused.sort(key=..., reverse=True)`, which is stable.
  unfoldable pub insert_by_score : Fused → List Fused → List Fused
  insert_by_score x [] = x ∷ []
  insert_by_score x (y ∷ ys) =
      let rest = insert_by_score x ys in
      if below x.rrf_score y.rrf_score then y ∷ rest else x ∷ y ∷ ys

  unfoldable pub sort_by_score : List Fused → List Fused
  unfolding insert_by_score
  sort_by_score [] = []
  sort_by_score (x ∷ xs) = insert_by_score x (sort_by_score xs)

  abbrev pub score_at : List Fused → Number
  score_at [] = zero_point
  score_at (x ∷ xs) = x.rrf_score

  abbrev pub rest_of : List Fused → List Fused
  rest_of [] = []
  rest_of (x ∷ xs) = xs

  unfoldable pub stats_of : List Fused → List String → List String → Stats
  stats_of fused eligible fired = record {
    top_score = round_to 6 (score_at fused);
    score_gap = round_to 6 (minus (score_at fused) (score_at (rest_of fused)));
    n_eligible = length eligible;
    n_fired = length fired;
    eligible = sort_names eligible;
    fired = sort_names fired;
    n_candidates = length fused;
  }

  unfoldable pub fuse :
      List (String × List Hit) → FuseConfig → List String → List String → List Fused × Stats
  unfolding accumulate finish_slot sort_by_score stats_of
  fuse lists cfg eligible fired =
      let fused = sort_by_score (map (finish_slot fired) (accumulate cfg lists [])) in
      (fused, stats_of fused eligible fired)

  -- The reason to search again, or none.
  unfoldable pub should_widen : Stats → FuseConfig → Bool → Option Reason
  should_widen stats cfg already_widened =
      if not cfg.widen_enabled
      then none
      else if already_widened
      then none
      else if stats.n_candidates == 0
      then some no_candidates
      else if below stats.top_score cfg.widen_tau
      then some low_score
      else if below stats.score_gap cfg.widen_delta
      then some small_gap
      else none
