-- ===== src/Verify/Filter.antt =====
-- `sigmoid_filter` of nhpc_qa/retrieval/verify.py: nothing leaves the list uncounted.
use nhpc_parliament_rag_syst.Prelude.{
  ℕ, zero, suc, ◌+◌, ◌≤◌, ◌≡◌, refl, Bool, true, not, List, [], ◌∷◌, map, take, length, filter,
  count, ltb, All, All-filter, All-take, Bool-cases, inl, inr, arith, length-map,
}
use nhpc_parliament_rag_syst.Verify.{Candidate, scored, is_kept, sigmoid_filter}

split_count :
    (p : Candidate → Bool) (cs : List Candidate)
    → length (filter p cs) + count (λ c. not (p c)) cs ≡ length cs
split_count p [] = refl
split_count p (c ∷ cs) = ground (arith, split_count p cs)

length-take-eq : (n : ℕ) (cs : List Candidate) → n ≤ length cs → length (take n cs) ≡ n
length-take-eq zero cs h = refl
length-take-eq (suc n) [] h = omega (arith, h)
length-take-eq (suc n) (c ∷ cs) h = omega (arith, h, length-take-eq n cs (omega (arith, h)))

-- Every candidate is kept or counted as dropped; no more than `safety_max` are kept; and what is kept
-- has no score or one that reaches the threshold.
sigmoid_filter_exact :
    (sigmoid : ℕ → ℕ) (threshold safety_max : ℕ) (reranked : List Candidate)
    → let (kept, dropped) = sigmoid_filter sigmoid threshold safety_max reranked in
      (length kept + dropped ≡ length reranked)
      × (length kept ≤ safety_max)
      × All (λ c. is_kept threshold c ≡ true) kept
unfolding sigmoid_filter
sigmoid_filter_exact sigmoid threshold safety_max reranked =
    let cs = map (scored sigmoid) reranked in
    let kept = filter (is_kept threshold) cs in
    let split = split_count (is_kept threshold) cs in
    let mapped = length-map (scored sigmoid) reranked in
    let good = All-filter (λ c. is_kept threshold c ≡ true) (is_kept threshold) cs (λ c h. h) in
    elim (Bool-cases (ltb safety_max (length kept))) [
      | inl e ↦
          let full = length-take-eq safety_max kept (ground arith) in
          rw e (
            ground (arith, full, split, mapped),
            omega (arith, full),
            All-take _ safety_max kept good,
          )
      | inr e ↦ rw e (omega (arith, split, mapped), ground arith, good)
    ]
