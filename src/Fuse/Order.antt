-- ===== src/Fuse/Order.antt =====
-- The order of the fused list of nhpc_qa/retrieval/search/fuse.py.
use nhpc_parliament_rag_syst.Prelude.{
  ◌≡◌, true, false, List, [], ◌∷◌, map, String, Bool-cases, inl, inr, All, All-map,
}
use nhpc_parliament_rag_syst.Fuse.{
  Numbers, Hit, FuseConfig, Fused, accumulate, finish_slot, insert_by_score, sort_by_score, fuse,
}

module _ (num : Numbers) where
  open num use {Number, below}

  -- What the sort relies on: the comparison of floats that are numbers is a strict order in which
  -- what is not below is at least as large.
  record IsOrder : Type 0 where
    pub asymmetric : (x y : Number) → below x y ≡ true → below y x ≡ false
    pub transitive : (x y z : Number) → below x y ≡ false → below y z ≡ false → below x z ≡ false

  -- Nothing is below what stands after it.
  abbrev IsRanked : List (Fused num) → Type 0
  IsRanked [] = Unit
  IsRanked (x ∷ xs) = All (λ y. below x.rrf_score y.rrf_score ≡ false) xs × IsRanked xs

  module _ (order : IsOrder) where
    All-insert_by_score :
        (w x : Fused num) (ys : List (Fused num))
        → below w.rrf_score x.rrf_score ≡ false
        → All (λ y. below w.rrf_score y.rrf_score ≡ false) ys
        → All (λ y. below w.rrf_score y.rrf_score ≡ false) (insert_by_score num x ys)
    unfolding insert_by_score
    All-insert_by_score w x [] h hs = (h, tt)
    All-insert_by_score w x (y ∷ ys) h hs = elim (Bool-cases (below x.rrf_score y.rrf_score)) [
      | inl e ↦ rw e (hs.0, All-insert_by_score w x ys h hs.1)
      | inr e ↦ rw e (h, hs)
    ]

    insert_by_score-IsRanked :
        (x : Fused num) (ys : List (Fused num)) → IsRanked ys → IsRanked (insert_by_score num x ys)
    unfolding insert_by_score
    insert_by_score-IsRanked x [] h = (tt, tt)
    insert_by_score-IsRanked x (y ∷ ys) h = elim (Bool-cases (below x.rrf_score y.rrf_score)) [
      | inl e ↦ rw e (
        All-insert_by_score y x ys (order.asymmetric x.rrf_score y.rrf_score e) h.0,
        insert_by_score-IsRanked x ys h.1,
      )
      | inr e ↦ rw e (
        (
          e,
          All-map (λ z. below y.rrf_score z.rrf_score ≡ false)
              (λ z. below x.rrf_score z.rrf_score ≡ false) ys
              (λ z. order.transitive x.rrf_score y.rrf_score z.rrf_score e) h.0,
        ),
        h,
      )
    ]

    sort_by_score-IsRanked : (xs : List (Fused num)) → IsRanked (sort_by_score num xs)
    unfolding sort_by_score
    sort_by_score-IsRanked [] = tt
    sort_by_score-IsRanked (x ∷ xs) =
        insert_by_score-IsRanked x (sort_by_score num xs) (sort_by_score-IsRanked xs)

    -- The fused list is ranked: no document in it has a lower score than one that stands after it, so
    -- the first has the top score, for numbers that are compared by a strict order.
    fuse-IsRanked :
        (lists : List (String × List Hit)) (cfg : FuseConfig num) (eligible fired : List String)
        → IsRanked (fuse num lists cfg eligible fired).0
    unfolding fuse
    fuse-IsRanked lists cfg eligible fired =
        sort_by_score-IsRanked (map (finish_slot num fired) (accumulate num cfg lists []))
