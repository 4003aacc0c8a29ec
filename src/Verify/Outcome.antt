-- ===== src/Verify/Outcome.antt =====
-- What `llm_verify` of nhpc_qa/retrieval/verify.py returns: verified results, or all candidates flagged
-- as unverified, and nothing between.
use nhpc_parliament_rag_syst.Prelude.{
  ℕ, suc, ◌+◌, ◌&&◌, count, if◌then◌else◌, ◌≤◌, ◌≡◌, ◌⊎◌, Bool, true, false, Option, none, some,
  List, [], ◌∷◌, map, filter, All,
}
use nhpc_parliament_rag_syst.Verify.{
  cache_lookup, verdict_of, Verdict, similar, not_similar, Candidate, unverified, Model,
  ChunkResult, call_failed, unparseable, verdicts, Judged, verify_chunk, Cache, chunks_from,
  is_uncached, is_similar, with_verdict, Verified,
}

abbrev pub is_judged : ChunkResult → Bool
is_judged call_failed = false
is_judged unparseable = false
is_judged (verdicts js) = true

-- The calls that a verification makes.
abbrev pub calls : List Candidate → Cache → List (List Candidate)
calls candidates cache = chunks_from 12 (filter (is_uncached cache) candidates)

abbrev pub is_there : Option (List Candidate) → Bool
is_there none = false
is_there (some cs) = true

-- Results in the order of the candidates.
unfoldable pub IsOrdered : List Candidate → Type 0
IsOrdered [] = Unit
IsOrdered (c ∷ cs) = All (λ d. c.position ≤ d.position) cs × IsOrdered cs

-- The cache says that a candidate is similar.
abbrev pub says_similar : Option Verdict → Bool
says_similar (some similar) = true
says_similar _ = false

-- A reply keeps a candidate unless it says otherwise: no verdict is a verdict for it.
abbrev pub keeps : Option Verdict → Bool
keeps none = true
keeps (some similar) = true
keeps (some not_similar) = false
keeps (some unverified) = false

module _ (p : Candidate → Bool) where
  abbrev pub passes : Candidate → Bool
  passes c = p (with_verdict similar c)

  -- How many of a chunk, numbered from i, a reply keeps that pass the test.
  abbrev pub kept_of_chunk : ℕ → List Judged → List Candidate → ℕ
  kept_of_chunk i js [] = 0
  kept_of_chunk i js (c ∷ cs) =
      (if keeps (verdict_of i js) && passes c then 1 else 0) + kept_of_chunk (suc i) js cs

  abbrev pub kept_by : ChunkResult → List Candidate → ℕ
  kept_by (verdicts js) chunk = kept_of_chunk 0 js chunk
  kept_by _ chunk = 0

  abbrev pub kept_of_calls : Model → List (List Candidate) → ℕ
  kept_of_calls llm [] = 0
  kept_of_calls llm (chunk ∷ chunks) =
      kept_by (verify_chunk llm chunk) chunk + kept_of_calls llm chunks

  similar_of : List Candidate → ℕ
  similar_of cs = count p (filter is_similar cs)

  similar_in : Option (List Candidate) → ℕ
  similar_in none = 0
  similar_in (some cs) = similar_of cs

-- Whatever the test, as many results pass it as candidates that the cache or a reply keeps.
abbrev pub IsComplete : Model → List Candidate → Cache → Verified → Type 0
IsComplete llm candidates cache out =
    (p : Candidate → Bool)
    → count p out.results
      ≡ count (λ c. says_similar (cache_lookup cache c) && passes p c) candidates
        + kept_of_calls p llm (calls candidates cache)

-- Flagged, an outcome is all the candidates; otherwise it is candidates marked similar, in order.
abbrev IsMarked : List Candidate → Verified → Type 0
IsMarked candidates out =
    (out.unavailable ≡ true → out.results ≡ map (with_verdict unverified) candidates)
    × (out.unavailable ≡ false → All (λ c. is_similar c ≡ true) out.results × IsOrdered out.results)

-- What holds of an outcome: flagged, it is all the candidates in order and unverified; otherwise it is
-- candidates marked similar, in the candidates' order, and complete.
abbrev pub IsOutcome : Model → List Candidate → Cache → Verified → Type 0
IsOutcome llm candidates cache out =
    ((out.unavailable ≡ true) × (out.results ≡ map (with_verdict unverified) candidates))
    ⊎ ((out.unavailable ≡ false)
        × All (λ c. is_similar c ≡ true) out.results
        × IsOrdered out.results
        × IsComplete llm candidates cache out)
