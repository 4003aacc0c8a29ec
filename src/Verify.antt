-- ===== src/Verify.antt =====
-- nhpc_qa/retrieval/verify.py: the relevance filter, and the verification of the candidates by the
-- language model in chunks with a cache of verdicts.
pub mod Filter
pub mod Chunks
pub mod Outcome
use nhpc_parliament_rag_syst.Prelude.{
  ℕ, zero, suc, ◌+◌, ◌-◌, ◌==◌, Bool, true, false, not, ◌&&◌, ◌||◌, Option, none, some, List, [],
  ◌∷◌, ◌++◌, map, if◌then◌else◌, Text, codes, text_eq, lower, strip, take, get_elem?, length,
  filter, count, ltb, leb,
}

pub data Verdict : Type 0 where
  similar not_similar unverified : Verdict

-- `position` is the identity of a candidate: its place in the list that is verified. A relevance is in
-- millionths, to which the code rounds it.
pub record Candidate : Type 0 where
  pub position : ℕ
  pub doc_key : Text
  pub sub_question_id : Option Text
  pub question_text : Text
  pub rerank_logit : Option ℕ
  pub relevance : Option ℕ
  pub verify_verdict : Option Verdict

-- `sigmoid` reads a logit, which is a float of the reranker; it is a parameter.
abbrev pub scored : (ℕ → ℕ) → Candidate → Candidate
scored sigmoid c = record c {
  relevance = elim c.rerank_logit [ none ↦ none | some l ↦ some (sigmoid l) ];
}

-- A candidate without a score is kept.
abbrev pub is_kept : ℕ → Candidate → Bool
is_kept threshold c = elim c.relevance [ none ↦ true | some r ↦ leb threshold r ]

-- The survivors, and how many were dropped.
unfoldable pub sigmoid_filter : (ℕ → ℕ) → ℕ → ℕ → List Candidate → List Candidate × ℕ
sigmoid_filter sigmoid threshold safety_max reranked =
    let cs = map (scored sigmoid) reranked in
    let kept = filter (is_kept threshold) cs in
    let dropped = count (λ c. not (is_kept threshold c)) cs in
    if ltb safety_max (length kept)
    then (take safety_max kept, dropped + (length kept - safety_max))
    else (kept, dropped)

unfoldable pub insert_desc : ℕ → List ℕ → List ℕ
insert_desc n [] = n ∷ []
insert_desc n (m ∷ ms) = let rest = insert_desc n ms in if leb m n then n ∷ m ∷ ms else m ∷ rest

unfoldable pub sort_desc : List ℕ → List ℕ
unfolding insert_desc
sort_desc [] = []
sort_desc (n ∷ ns) = insert_desc n (sort_desc ns)

abbrev pub with_score : Option ℕ → List ℕ → List ℕ
with_score none rest = rest
with_score (some r) rest = r ∷ rest

unfoldable pub scores_of : List Candidate → List ℕ
scores_of [] = []
scores_of (c ∷ cs) = with_score c.relevance (scores_of cs)

-- Whether many candidates tie near the top; the thresholds are in millionths.
unfoldable pub plateau_guard : Bool → ℕ → ℕ → List Candidate → Bool
unfolding sort_desc scores_of
plateau_guard enabled plateau_min_n sig_min kept =
    let n_min = if ltb plateau_min_n 4 then 4 else plateau_min_n in
    let sigs = sort_desc (scores_of kept) in
    let wide = count (λ s. ltb 900000 s) sigs in
    enabled
    && not (ltb wide n_min || ltb (length sigs) n_min)
    && elim (get_elem? sigs (n_min - 1)) [ none ↦ false | some nth ↦ leb sig_min nth ]

-- An element of the array that the model's reply holds: with an id that is a number, or unusable. An id
-- below zero is `none`.
pub data Item : Type 0 where
  unusable : Item
  entry : (id : Option ℕ) → (verdict : Text) → Item

pub record Judged : Type 0 where
  pub judged_id : Option ℕ
  pub judged_verdict : Verdict

abbrev pub read_verdict : Text → Option Verdict
read_verdict v =
    if text_eq (lower v) (codes "similar")
    then some similar
    else if text_eq (lower v) (codes "not_similar")
    then some not_similar
    else none

abbrev pub keep_item : Item → List Judged → List Judged
keep_item unusable rest = rest
keep_item (entry i v) rest = elim (read_verdict v) [
  | none ↦ rest
  | some w ↦ record { judged_id = i; judged_verdict = w } ∷ rest
]

unfoldable pub read_items : List Item → List Judged
read_items [] = []
read_items (i ∷ is) = keep_item i (read_items is)

-- `load_list` takes the array out of a reply, out of its code fence or of the text around it, as the
-- regular expressions and the JSON library do; `none` is no array.
abbrev pub some_judged : List Judged → Option (List Judged)
some_judged [] = none
some_judged (j ∷ js) = some (j ∷ js)

unfoldable pub parse_verdicts : (Text → Option (List Item)) → Text → Option (List Judged)
unfolding read_items
parse_verdicts load_list [] = none
parse_verdicts load_list (c ∷ raw) = elim (load_list (strip (c ∷ raw))) [
  | none ↦ none
  | some items ↦ some_judged (read_items items)
]

-- A later entry for an id replaces an earlier one.
unfoldable pub verdict_of : ℕ → List Judged → Option Verdict
verdict_of i [] = none
verdict_of i (j ∷ js) = elim (verdict_of i js) [
  | some v ↦ some v
  | none ↦ elim j.judged_id [
    | none ↦ none
    | some k ↦ if k == i then some j.judged_verdict else none
  ]
]

-- The model: its reply to a chunk at an attempt, `none` where the call raises.
pub record Model : Type 0 where
  pub complete_text : List Candidate → ℕ → Option Text
  pub load_list : Text → Option (List Item)

pub data ChunkResult : Type 0 where
  call_failed unparseable : ChunkResult
  verdicts : List Judged → ChunkResult

abbrev pub second_attempt : Model → Option Text → ChunkResult
second_attempt llm none = call_failed
second_attempt llm (some raw) = elim (parse_verdicts llm.load_list raw) [
  | none ↦ unparseable
  | some v ↦ verdicts v
]

abbrev pub first_attempt : Model → List Candidate → Option Text → ChunkResult
first_attempt llm chunk none = call_failed
first_attempt llm chunk (some raw) = elim (parse_verdicts llm.load_list raw) [
  | none ↦ second_attempt llm (llm.complete_text chunk 2)
  | some v ↦ verdicts v
]

unfoldable pub verify_chunk : Model → List Candidate → ChunkResult
unfolding parse_verdicts
verify_chunk llm chunk = first_attempt llm chunk (llm.complete_text chunk 1)

-- The verdicts that are stored for the query, by sub-question.
abbrev pub Cache : Type 0
Cache = List (Text × Verdict)

unfoldable pub cached_verdict : Text → Cache → Option Verdict
cached_verdict key [] = none
cached_verdict key ((k, v) ∷ cache) =
    let rest = cached_verdict key cache in if text_eq k key then some v else rest

-- An empty id is no id.
abbrev pub cache_lookup : Cache → Candidate → Option Verdict
cache_lookup cache c = elim c.sub_question_id [
  | none ↦ none
  | some key ↦ if text_eq key [] then none else cached_verdict key cache
]

-- ON CONFLICT … DO UPDATE
unfoldable pub put_verdict : Text → Verdict → Cache → Cache
put_verdict key v [] = (key, v) ∷ []
put_verdict key v ((k, w) ∷ cache) =
    let rest = put_verdict key v cache in if text_eq k key then (key, v) ∷ cache else (k, w) ∷ rest

unfoldable pub cache_store : Candidate → Verdict → Cache → Cache
unfolding put_verdict
cache_store c v cache = elim c.sub_question_id [
  | none ↦ cache
  | some key ↦ if text_eq key [] then cache else put_verdict key v cache
]

abbrev pub put_first {ℓ} : {A : Type ℓ} → A → List (List A) → List (List A)
put_first c [] = (c ∷ []) ∷ []
put_first c (chunk ∷ chunks) = (c ∷ chunk) ∷ chunks

-- `to_call[start:start + _BATCH]` for start in steps of _BATCH = 12; `room` is what the chunk still
-- takes.
unfoldable pub chunks_from {ℓ} : {A : Type ℓ} → ℕ → List A → List (List A)
chunks_from room [] = []
chunks_from zero (c ∷ cs) = [] ∷ put_first c (chunks_from 11 cs)
chunks_from (suc room) (c ∷ cs) = put_first c (chunks_from room cs)

abbrev pub with_verdict : Verdict → Candidate → Candidate
with_verdict v c = record c { verify_verdict = some v }

abbrev pub is_similar : Candidate → Bool
is_similar c = elim c.verify_verdict [
  | none ↦ false
  | some v ↦ elim v [ similar ↦ true | not_similar ↦ false | unverified ↦ false ]
]

-- The verdict of the reply for the i-th of a chunk; without one the candidate is kept.
abbrev pub verdict_or_similar : Option Verdict → Verdict
verdict_or_similar none = similar
verdict_or_similar (some v) = v

unfoldable pub judge_chunk : ℕ → List Judged → List Candidate → Cache → List Candidate × Cache
unfolding verdict_of cache_store
judge_chunk i js [] cache = ([], cache)
judge_chunk i js (c ∷ cs) cache =
    let v = verdict_or_similar (verdict_of i js) in
    let (rest, cache') = judge_chunk (suc i) js cs (cache_store c v cache) in
    (with_verdict v c ∷ rest, cache')

-- The judged candidates, or none as soon as a chunk could not be verified; the cache keeps what was
-- stored until then.
unfoldable pub judge_chunks :
    Model → List (List Candidate) → Cache → Option (List Candidate) × Cache
unfolding verify_chunk judge_chunk
judge_chunks llm [] cache = (some [], cache)
judge_chunks llm (chunk ∷ chunks) cache = elim (verify_chunk llm chunk) [
  | call_failed ↦ (none, cache)
  | unparseable ↦ (none, cache)
  | verdicts js ↦
      let (judged, cache') = judge_chunk 0 js chunk cache in
      let (rest, cache'') = judge_chunks llm chunks cache' in
      (elim rest [ none ↦ none | some cs ↦ some (judged ++ cs) ], cache'')
]

unfoldable pub insert_by_position : Candidate → List Candidate → List Candidate
insert_by_position c [] = c ∷ []
insert_by_position c (d ∷ ds) =
    let rest = insert_by_position c ds in if leb c.position d.position then c ∷ d ∷ ds else d ∷ rest

unfoldable pub sort_by_position : List Candidate → List Candidate
unfolding insert_by_position
sort_by_position [] = []
sort_by_position (c ∷ cs) = insert_by_position c (sort_by_position cs)

-- The candidates that the cache knows, with its verdicts.
unfoldable pub from_cache : Cache → List Candidate → List Candidate
unfolding cached_verdict
from_cache cache [] = []
from_cache cache (c ∷ cs) = elim (cache_lookup cache c) [
  | none ↦ from_cache cache cs
  | some v ↦ with_verdict v c ∷ from_cache cache cs
]

abbrev pub is_uncached : Cache → Candidate → Bool
is_uncached cache c = elim (cache_lookup cache c) [ none ↦ true | some v ↦ false ]

-- What the caller gets, and whether it is flagged as unavailable.
pub record Verified : Type 0 where
  pub results : List Candidate
  pub unavailable : Bool

unfoldable pub passthrough : List Candidate → Verified
passthrough candidates = record {
  results = map (with_verdict unverified) candidates;
  unavailable = true;
}

abbrev pub conclude : List Candidate → List Candidate → Option (List Candidate) → Verified
conclude candidates cached none = passthrough candidates
conclude candidates cached (some judged) = record {
  results = sort_by_position (filter is_similar cached ++ filter is_similar judged);
  unavailable = false;
}

unfoldable pub llm_verify : Model → List Candidate → Cache → Verified × Cache
unfolding from_cache chunks_from judge_chunks passthrough sort_by_position cached_verdict
llm_verify llm candidates cache =
    let (judged, cache') =
      judge_chunks llm (chunks_from 12 (filter (is_uncached cache) candidates)) cache in
    (conclude candidates (from_cache cache candidates) judged, cache')
