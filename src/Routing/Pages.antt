-- ===== src/Routing/Pages.antt =====
-- What the routing of nhpc_qa/pipeline/parse/routing.py amounts to for a document.
use nhpc_parliament_rag_syst.Prelude.{
  ℕ, zero, suc, ◌+◌, ◌≤◌, ◌≡◌, refl, Bool, true, false, Option, none, some, List, [], ◌∷◌, length,
  count, if◌then◌else◌, ◌⊎◌, arith, inl, inr, ltb,
}
use nhpc_parliament_rag_syst.Routing.{
  PageType, digital, scanned, image_based, RoutingConfig, Page, PageRoute, classify_from,
  classify_pages, is_digital, is_scanned, is_image_based, one_if, summarize_routing,
}

one_type :
    (r : PageRoute)
    → (if is_digital r then 1 else 0)
        + (if is_scanned r then 1 else 0)
        + (if is_image_based r then 1 else 0)
      ≡ 1
one_type r = one (r.page_type)
  where
    one :
        (t : PageType)
        → (if elim t as (λ _. Bool) [ digital ↦ true | scanned ↦ false | image_based ↦ false ]
              then 1
              else 0)
            + (if elim t as (λ _. Bool) [ digital ↦ false | scanned ↦ true | image_based ↦ false ]
                then 1
                else 0)
            + (if elim t as (λ _. Bool) [ digital ↦ false | scanned ↦ false | image_based ↦ true ]
                then 1
                else 0)
          ≡ 1
    one digital = refl
    one scanned = refl
    one image_based = refl

counts_add_up :
    (routes : List PageRoute)
    → count is_digital routes + count is_scanned routes + count is_image_based routes
      ≡ length routes
counts_add_up [] = refl
counts_add_up (r ∷ routes) = omega (arith, one_type r, counts_add_up routes)

length-classify_from :
    (cfg : RoutingConfig) (number : ℕ) (pages : List Page)
    → length (classify_from cfg number pages) ≡ length pages
unfolding classify_from
length-classify_from cfg number [] = refl
length-classify_from cfg number (p ∷ ps) = omega (arith, length-classify_from cfg (suc number) ps)

some_page :
    (cfg : RoutingConfig) (pages : Option (List Page)) → 1 ≤ length (classify_pages cfg pages)
unfolding classify_pages classify_from
some_page cfg none = omega arith
some_page cfg (some []) = omega arith
some_page cfg (some (p ∷ ps)) = omega arith

one_if-cases : (n : ℕ) → ((n ≡ 0) × (one_if n ≡ 0)) ⊎ (one_if n ≡ 1)
one_if-cases zero = inl (refl, refl)
one_if-cases (suc n) = inr refl

only_one :
    (d s i : ℕ)
    → ltb 1 (one_if d + one_if s + one_if i) ≡ false
    → ((s ≡ 0) × (i ≡ 0)) ⊎ ((d ≡ 0) × (i ≡ 0)) ⊎ ((d ≡ 0) × (s ≡ 0))
only_one zero zero i h = inr (inr (refl, refl))
only_one zero (suc s) zero h = inr (inl (refl, refl))
only_one (suc d) zero zero h = inl (refl, refl)
only_one zero (suc s) (suc i) h = ground arith
only_one (suc d) (suc s) i h = ground arith
only_one (suc d) zero (suc i) h = ground arith

-- However a PDF was read, or was not, its summary counts at least one page, the pages of the three
-- types add up to all of them, and a document that is not reported as mixed has pages of one type only.
summarize_routing_exact :
    (cfg : RoutingConfig) (pages : Option (List Page))
    → let s = summarize_routing (classify_pages cfg pages) in
      (1 ≤ s.n_pages)
      × (s.n_digital + s.n_scanned + s.n_image_based ≡ s.n_pages)
      × (s.mixed ≡ false
          → ((s.n_scanned ≡ 0) × (s.n_image_based ≡ 0))
            ⊎ ((s.n_digital ≡ 0) × (s.n_image_based ≡ 0))
            ⊎ ((s.n_digital ≡ 0) × (s.n_scanned ≡ 0)))
unfolding summarize_routing
summarize_routing_exact cfg pages =
    let routes = classify_pages cfg pages in
    (
      some_page cfg pages,
      counts_add_up routes,
      only_one (count is_digital routes) (count is_scanned routes) (count is_image_based routes),
    )
