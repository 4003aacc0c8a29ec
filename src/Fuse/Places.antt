-- ===== src/Fuse/Places.antt =====
-- One document, one place in the fused list of nhpc_qa/retrieval/search/fuse.py.
use nhpc_parliament_rag_syst.Prelude.{
  ◌≤◌, ◌≡◌, refl, ap, sym, ◌∙◌, subst, Bool, true, false, List, [], ◌∷◌, map, filter, length,
  String, str_eq, if◌then◌else◌, Bool-cases, inl, inr, arith,
}
use nhpc_parliament_rag_syst.Fuse.{
  Numbers, Hit, FuseConfig, Slot, Fused, empty_slot, absorb, accumulate, finish_slot,
  insert_by_score, sort_by_score, fuse,
}
use nhpc_parliament_rag_syst.Fuse.Slots.{
  tagged, hits_on, either_none, best_rank, rank_of, total, absorb_all, hit_all, slots_on,
  slots_on-accumulate, hit_all_one, rrf_score-absorb_all, rank_of-absorb_all,
}

cons-nil {ℓ} : {A : Type ℓ} {x : A} {xs : List A} → x ∷ xs ≡ [] → ⊥
cons-nil h = cc

length_zero {ℓ} : {A : Type ℓ} (xs : List A) → length xs ≤ 0 → xs ≡ []
length_zero [] h = refl
length_zero (x ∷ xs) h = absurd (omega (arith, h))

module _ (num : Numbers) where
  open num use {Number, zero_point}

  -- What the fused list holds for a document: nothing if no retriever has found it, else one place with
  -- the sum of the contributions and, for each retriever, the best rank that it gave.
  abbrev pub IsFusedFrom : FuseConfig num → List (String × Hit) → List (Fused num) → Type 0
  IsFusedFrom cfg [] l = l ≡ []
  IsFusedFrom cfg (t ∷ ts) l =
      (e : Fused num) × (l ≡ e ∷ [])
      × (e.rrf_score ≡ total num cfg zero_point (t ∷ ts))
      × ((r : String) → rank_of r e.ranks ≡ best_rank r (t ∷ ts))

  abbrev pub places_of : String → List (Fused num) → List (Fused num)
  places_of k = filter (λ e. str_eq e.doc_key k)

  places_of-finish :
      (k : String) (fired : List String) (slots : List (Slot num))
      → places_of k (map (finish_slot num fired) slots)
        ≡ map (finish_slot num fired) (slots_on num k slots)
  unfolding finish_slot
  places_of-finish k fired [] = refl
  places_of-finish k fired (a ∷ slots) = elim (Bool-cases (str_eq a.doc_key k)) [
    | inl e ↦ rw e (
        ap (λ (l : List (Fused num)). finish_slot num fired a ∷ l) (places_of-finish k fired slots))
    | inr e ↦ rw e (places_of-finish k fired slots)
  ]

  module _ (p : Fused num → Bool) where
    filter-insert_other :
        (x : Fused num) (ys : List (Fused num))
        → p x ≡ false
        → filter p (insert_by_score num x ys) ≡ filter p ys
    unfolding insert_by_score
    filter-insert_other x [] h = rw h refl
    filter-insert_other x (y ∷ ys) h = elim (Bool-cases (num.below x.rrf_score y.rrf_score)) [
      | inl e ↦
          rw e
            (ap (λ (l : List (Fused num)). if p y then y ∷ l else l) (filter-insert_other x ys h))
      | inr e ↦ rw (e, h) refl
    ]

    filter-insert_only :
        (x : Fused num) (ys : List (Fused num))
        → p x ≡ true
        → filter p ys ≡ []
        → filter p (insert_by_score num x ys) ≡ x ∷ []
    unfolding insert_by_score
    filter-insert_only x [] h none_yet = rw h refl
    filter-insert_only x (y ∷ ys) h none_yet =
        elim (Bool-cases (num.below x.rrf_score y.rrf_score)) [
          | inl e ↦ rw e (elim (Bool-cases (p y)) [
            | inl f ↦ absurd (cons-nil (rw f at none_yet))
            | inr f ↦ rw f (filter-insert_only x ys h (rw f at none_yet))
          ])
          | inr e ↦ rw (e, h) (ap (λ (l : List (Fused num)). x ∷ l) none_yet)
        ]

    -- Sorting leaves a sole member of a kind alone.
    filter-sort_by_score :
        (xs : List (Fused num))
        → length (filter p xs) ≤ 1
        → filter p (sort_by_score num xs) ≡ filter p xs
    unfolding sort_by_score
    filter-sort_by_score [] few = refl
    filter-sort_by_score (x ∷ xs) few = elim (Bool-cases (p x)) [
      | inl e ↦
          let nothing : filter p xs ≡ [] = length_zero (filter p xs) (omega (arith, rw e at few)) in
          rw e (
            filter-insert_only x (sort_by_score num xs) e
              (filter-sort_by_score xs (omega (arith, ap length nothing)) ∙ nothing)
            ∙ ap (λ (l : List (Fused num)). x ∷ l) (sym nothing))
      | inr e ↦
          rw e
            (filter-insert_other x (sort_by_score num xs) e ∙ filter-sort_by_score xs (rw e at few))
    ]

  fused_from :
      (cfg : FuseConfig num) (fired : List String) (ts : List (String × Hit))
      → IsFusedFrom cfg ts (map (finish_slot num fired) (hit_all num cfg ts []))
  unfolding finish_slot empty_slot
  fused_from cfg fired [] = refl
  fused_from cfg fired ((r, h) ∷ ts) =
      let a = absorb num cfg r h (empty_slot num h) in
      (
        finish_slot num fired (absorb_all num cfg ts a),
        ap (map (finish_slot num fired)) (hit_all_one num cfg ts a),
        rrf_score-absorb_all num cfg ((r, h) ∷ ts) (empty_slot num h),
        (λ s.
            rank_of-absorb_all num cfg s ((r, h) ∷ ts) (empty_slot num h)
            ∙ either_none (best_rank s ((r, h) ∷ ts))),
      )

  few_places :
      (cfg : FuseConfig num) (ts : List (String × Hit)) (l : List (Fused num))
      → IsFusedFrom cfg ts l
      → length l ≤ 1
  few_places cfg [] l h = omega (arith, ap length h)
  few_places cfg (t ∷ ts) l (e, one, score, ranks) = omega (arith, ap length one)

  -- One document has one place in the fused list. A document that no retriever has found has none; every
  -- other has one, whose score is the sum of the contributions of all hits on it, in the order of the
  -- lists, and which records for each retriever the best rank that it gave to the document.
  pub fuse_exact :
      (lists : List (String × List Hit)) (cfg : FuseConfig num) (eligible fired : List String)
      (k : String)
      → IsFusedFrom cfg
          (hits_on k (tagged lists))
          (places_of k (fuse num lists cfg eligible fired).0)
  unfolding fuse
  fuse_exact lists cfg eligible fired k =
      let slots = accumulate num cfg lists [] in
      let at_key : places_of k (map (finish_slot num fired) slots)
          ≡ map (finish_slot num fired) (hit_all num cfg (hits_on k (tagged lists)) []) =
        places_of-finish k fired slots
        ∙ ap (map (finish_slot num fired)) (slots_on-accumulate num cfg k lists []) in
      let exact = fused_from cfg fired (hits_on k (tagged lists)) in
      let few = few_places cfg (hits_on k (tagged lists)) _ exact in
      subst (IsFusedFrom cfg (hits_on k (tagged lists)))
        (sym (
          filter-sort_by_score (λ e. str_eq e.doc_key k) (map (finish_slot num fired) slots)
            (omega (arith, ap length at_key, few))
          ∙ at_key))
        exact
