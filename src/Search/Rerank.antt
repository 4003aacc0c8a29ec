-- ===== src/Search/Rerank.antt =====
-- The node `rerank` of nhpc_qa/retrieval/graph/nodes.py: the optional layer that must not break a query.
use nhpc_parliament_rag_syst.Prelude.{
  ℕ, zero, suc, ◌+◌, ◌≤◌, ◌<◌, ◌≡◌, refl, ap, ap₂, sym, ◌∙◌, if◌then◌else◌, subst, Bool, true,
  false, Option, none, some, List, [], ◌∷◌, map, take, length, get_elem?, String, All, All-take,
  length-take-le, arith,
}
use nhpc_parliament_rag_syst.Fuse.{Numbers, Fused}
use nhpc_parliament_rag_syst.Search.{
  int_minus, Ranked, SearchConfig, QueryState, Deps, unmoved, passage, moved, moved_next, rrf_order,
  rerank_by, rerank_query, rerank_with, rerank_node,
}

module _ (num : Numbers) where
  open num use {Number}

  -- A candidate that is one of the fused documents.
  abbrev pub IsFrom : List (Fused num) → Ranked num → Type 0
  IsFrom fused r = (i : ℕ) × (get_elem? fused i ≡ some r.fused)

  -- A result of the node: at most k candidates, each one of the fused documents.
  abbrev pub IsRerankOf : ℕ → List (Fused num) → List (Ranked num) → Type 0
  IsRerankOf k fused rs = (length rs ≤ k) × All (IsFrom fused) rs

  -- What the code relies on: a model that answers ranks the passages that it was given.
  abbrev pub RanksPassages : Option (String → List String → Option (List (ℕ × Number))) → Type 0
  RanksPassages none = Unit
  RanksPassages (some model) =
      (query : String) (passages : List String) (ranking : List (ℕ × Number))
      → model query passages ≡ some ranking
      → All (λ e. e.0 < length passages) ranking

  -- The answer that the node gets: none where there is nothing to rank, no model, or the switch is off,
  -- and where the model fails.
  abbrev pub answer_of :
      SearchConfig num
      → QueryState num
      → List (Fused num)
      → Option (String → List String → Option (List (ℕ × Number)))
      → Option (List (ℕ × Number))
  answer_of cfg s [] o = none
  answer_of cfg s (c ∷ cs) none = none
  answer_of cfg s (c ∷ cs) (some model) =
      if cfg.rerank_enabled then model (rerank_query num s) (map (passage num) s.fused) else none

  -- The documents in the order of the fusion, or in the order of the answer.
  abbrev pub order_of : List (Fused num) → Option (List (ℕ × Number)) → List (Option (Fused num))
  order_of fused none = map (λ c. some c) fused
  order_of fused (some ranking) = map (λ e. get_elem? fused e.0) ranking

  abbrev pub documents : List (Ranked num) → List (Option (Fused num))
  documents rs = map (λ r. some r.fused) rs

  Reranks :
      SearchConfig num
      → QueryState num
      → Option (List (ℕ × Number))
      → Option (QueryState num)
      → Type 0
  Reranks cfg s answer o =
      (s' : QueryState num) × (o ≡ some s')
      × (IsRerankOf cfg.final_top_k s.fused s'.reranked)
      × (documents s'.reranked ≡ take cfg.final_top_k (order_of s.fused answer))

  map-take :
      {A B : Type 0} (f : A → B) (k : ℕ) (xs : List A) → map f (take k xs) ≡ take k (map f xs)
  map-take f zero xs = refl
  map-take f (suc k) [] = refl
  map-take {B = B} f (suc k) (x ∷ xs) = ap (λ (l : List B). f x ∷ l) (map-take f k xs)

  documents-unmoved :
      (fused : List (Fused num)) → documents (map (unmoved num) fused) ≡ map (λ c. some c) fused
  documents-unmoved [] = refl
  documents-unmoved (c ∷ cs) =
      ap (λ (l : List (Option (Fused num))). some c ∷ l) (documents-unmoved cs)

  length-passages : (fused : List (Fused num)) → length (map (passage num) fused) ≡ length fused
  length-passages [] = refl
  length-passages (c ∷ cs) = ap suc (length-passages cs)

  found_at :
      (fused : List (Fused num)) (i : ℕ)
      → i < length fused
      → (c : Fused num) × (get_elem? fused i ≡ some c)
  found_at [] i h = absurd (omega (arith, h))
  found_at (c ∷ cs) zero h = (c, refl)
  found_at (c ∷ cs) (suc i) h = found_at cs i (omega (arith, h))

  unmoved-IsFrom :
      (c : Fused num) (cs : List (Fused num)) (rs : List (Ranked num))
      → All (IsFrom cs) rs
      → All (IsFrom (c ∷ cs)) rs
  unmoved-IsFrom c cs [] h = tt
  unmoved-IsFrom c cs (r ∷ rs) h = ((suc h.0.0, h.0.1), unmoved-IsFrom c cs rs h.1)

  take-IsRerankOf :
      (k : ℕ) (fused : List (Fused num)) → IsRerankOf k fused (map (unmoved num) (take k fused))
  take-IsRerankOf zero fused = (omega arith, tt)
  take-IsRerankOf (suc k) [] = (omega arith, tt)
  take-IsRerankOf (suc k) (c ∷ cs) =
      let rest = take-IsRerankOf k cs in
      (
        omega (arith, rest.0),
        ((0, refl), unmoved-IsFrom c cs (map (unmoved num) (take k cs)) rest.1),
      )

  rrf_order-Reranks :
      (cfg : SearchConfig num) (s : QueryState num) (has_failed : Bool)
      → Reranks cfg s none (some (rrf_order num cfg s has_failed))
  unfolding Reranks
  rrf_order-Reranks cfg s has_failed = (
    rrf_order num cfg s has_failed,
    refl,
    take-IsRerankOf cfg.final_top_k s.fused,
    documents-unmoved (take cfg.final_top_k s.fused)
        ∙ map-take (λ (c : Fused num). some c) cfg.final_top_k s.fused,
  )

  moved_all :
      (fused : List (Fused num)) (p : ℕ) (ranking : List (ℕ × Number))
      → All (λ e. e.0 < length fused) ranking
      → (rs : List (Ranked num)) × (moved num fused p ranking ≡ some rs)
        × (length rs ≡ length ranking)
        × All (IsFrom fused) rs
        × (documents rs ≡ map (λ e. get_elem? fused e.0) ranking)
  unfolding moved
  moved_all fused p [] h = ([], refl, refl, tt, refl)
  moved_all fused p ((idx, logit) ∷ rest) h =
      let (c, at_idx) = found_at fused idx h.0 in
      let (rs, e, same, from, docs) = moved_all fused (suc p) rest h.1 in
      (
        record {
          fused = c;
          rerank_logit = some (num.round_to 4 logit);
          rerank_movement = int_minus (idx + 1) p;
        }
            ∷ rs,
        ap₂ (moved_next num p idx logit) at_idx e,
        ap suc same,
        ((idx, at_idx), from),
        ap₂ (λ (o : Option (Fused num)) (l : List (Option (Fused num))). o ∷ l) (sym at_idx) docs,
      )

  by_ranking :
      (cfg : SearchConfig num) (s : QueryState num) (o : Option (List (ℕ × Number)))
      → ((ranking : List (ℕ × Number)) → o ≡ some ranking → All (λ e. e.0 < length s.fused) ranking)
      → Reranks cfg s o (rerank_by num cfg s o)
  unfolding Reranks
  by_ranking cfg s none h = rrf_order-Reranks cfg s true
  by_ranking cfg s (some ranking) h =
      let (rs, e, same, from, docs) =
        moved_all s.fused 1 (take cfg.final_top_k ranking)
          (All-take (λ x. x.0 < length s.fused) cfg.final_top_k ranking (h ranking refl)) in
      (
        record s { reranked = rs; rerank_failed = false },
        rw e refl,
        (omega (arith, same, length-take-le cfg.final_top_k ranking), from),
        docs ∙ map-take (λ (e : ℕ × Number). get_elem? s.fused e.0) cfg.final_top_k ranking,
      )

  switched :
      (cfg : SearchConfig num) (s : QueryState num) (b : Bool) (a a' : Option (List (ℕ × Number)))
      (x y : Option (QueryState num))
      → Reranks cfg s a x
      → Reranks cfg s a' y
      → Reranks cfg s (if b then a else a') (if b then x else y)
  switched cfg s true a a' x y hx hy = hx
  switched cfg s false a a' x y hx hy = hy

  by_model :
      (cfg : SearchConfig num) (s : QueryState num) (c : Fused num) (cs : List (Fused num))
      (o : Option (String → List String → Option (List (ℕ × Number))))
      → RanksPassages o
      → Reranks cfg s (answer_of cfg s (c ∷ cs) o) (rerank_with num cfg s o)
  by_model cfg s c cs none h = rrf_order-Reranks cfg s false
  by_model cfg s c cs (some model) h =
      switched cfg s cfg.rerank_enabled (model (rerank_query num s) (map (passage num) s.fused))
        none _ _
        (by_ranking cfg s (model (rerank_query num s) (map (passage num) s.fused)) λ ranking answer.
          subst (λ (n : ℕ). All (λ x. x.0 < n) ranking) (length-passages s.fused)
            (h (rerank_query num s) (map (passage num) s.fused) ranking answer))
        (rrf_order-Reranks cfg s false)

  take-nil : {A : Type 0} (k : ℕ) → take {A = A} k [] ≡ []
  take-nil zero = refl
  take-nil (suc k) = refl

  by_fused :
      (cfg : SearchConfig num) (s : QueryState num)
      (o : Option (String → List String → Option (List (ℕ × Number))))
      → RanksPassages o
      → (l : List (Fused num)) → s.fused ≡ l
      → Reranks cfg s (answer_of cfg s l o) (elim l as (λ _. Option (QueryState num)) [
        | [] ↦ some (record s { reranked = []; rerank_failed = false })
        | _ ∷ _ ↦ rerank_with num cfg s o
      ])
  unfolding Reranks
  by_fused cfg s o h [] e = (
    record s { reranked = []; rerank_failed = false },
    refl,
    (omega arith, tt),
    sym (
        ap (λ (l : List (Fused num)). take cfg.final_top_k (map (λ c. some c) l)) e
        ∙ take-nil cfg.final_top_k),
  )
  by_fused cfg s o h (c ∷ cs) e = by_model cfg s c cs o h

  -- The rerank node never breaks a query, if an answer of the model ranks the passages that it was
  -- given. Where the model is absent, switched off or fails, the node returns the first `final_top_k` of
  -- the fused documents, in the order of the fusion; where the model answers, the documents that the
  -- first `final_top_k` entries of its answer name, in the order of the answer.
  pub rerank_node_total :
      (deps : Deps num) (cfg : SearchConfig num) (s : QueryState num)
      → RanksPassages deps.reranker
      → (s' : QueryState num) × (rerank_node num deps cfg s ≡ some s')
        × (IsRerankOf cfg.final_top_k s.fused s'.reranked)
        × (documents s'.reranked
            ≡ take cfg.final_top_k (order_of s.fused (answer_of cfg s s.fused deps.reranker)))
  unfolding rerank_node Reranks
  rerank_node_total deps cfg s h = by_fused cfg s deps.reranker h s.fused refl
