-- ===== src/Verify/Chunks.antt =====
-- The chunks of `llm_verify` in nhpc_qa/retrieval/verify.py.
use nhpc_parliament_rag_syst.Prelude.{
  ℕ, zero, suc, ◌≤◌, ◌≡◌, refl, ap, ◌∙◌, List, [], ◌∷◌, ◌++◌, length, All, arith,
}
use nhpc_parliament_rag_syst.Verify.{put_first, chunks_from}

module _ {ℓ} {A : Type ℓ} where
  unfoldable pub concat : List (List A) → List A
  concat [] = []
  concat (xs ∷ xss) = xs ++ concat xss

  concat-put_first :
      (c : A) (chunks : List (List A)) → concat (put_first c chunks) ≡ c ∷ concat chunks
  unfolding concat
  concat-put_first c [] = refl
  concat-put_first c (chunk ∷ chunks) = refl

  concat-chunks_from : (room : ℕ) (cs : List A) → concat (chunks_from room cs) ≡ cs
  unfolding concat chunks_from
  concat-chunks_from room [] = refl
  concat-chunks_from zero (c ∷ cs) =
      concat-put_first c (chunks_from 11 cs) ∙ ap (λ (l : List A). c ∷ l) (concat-chunks_from 11 cs)
  concat-chunks_from (suc room) (c ∷ cs) =
      concat-put_first c (chunks_from room cs)
      ∙ ap (λ (l : List A). c ∷ l) (concat-chunks_from room cs)

  -- The first chunk has room for so many, every other for 12.
  Fits : ℕ → List (List A) → Type 0
  Fits room [] = Unit
  Fits room (chunk ∷ chunks) = (length chunk ≤ room) × All (λ k. length k ≤ 12) chunks

  Fits-put_first :
      (room : ℕ) (c : A) (chunks : List (List A))
      → Fits room chunks
      → Fits (suc room) (put_first c chunks)
  unfolding Fits
  Fits-put_first room c [] h = (omega arith, tt)
  Fits-put_first room c (chunk ∷ chunks) (h, hs) = (omega (arith, h), hs)

  Fits-All : (chunks : List (List A)) → Fits 12 chunks → All (λ k. length k ≤ 12) chunks
  unfolding Fits
  Fits-All [] h = tt
  Fits-All (chunk ∷ chunks) h = h

  Fits-chunks_from : (room : ℕ) (cs : List A) → Fits room (chunks_from room cs)
  unfolding Fits chunks_from
  Fits-chunks_from room [] = tt
  Fits-chunks_from zero (c ∷ cs) = (
    omega arith,
    Fits-All (put_first c (chunks_from 11 cs)) (Fits-put_first 11 c _ (Fits-chunks_from 11 cs)),
  )
  Fits-chunks_from (suc room) (c ∷ cs) = Fits-put_first room c _ (Fits-chunks_from room cs)

  -- Every candidate is asked about exactly once and in order, and no call carries more than 12.
  chunks_from_exact :
      (cs : List A)
      → (concat (chunks_from 12 cs) ≡ cs) × All (λ chunk. length chunk ≤ 12) (chunks_from 12 cs)
  chunks_from_exact cs =
      (concat-chunks_from 12 cs, Fits-All (chunks_from 12 cs) (Fits-chunks_from 12 cs))
