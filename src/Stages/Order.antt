-- ===== src/Stages/Order.antt =====
-- The order in which `resolve_stages` of nhpc_qa/pipeline/orchestrator.py plans the stages.
use nhpc_parliament_rag_syst.Prelude.{
  ◌≡◌, refl, Bool, some, List, [], ◌∷◌, Text, text_eq, filter, all, Bool-cases, inl, inr,
  eq_of_some, if_some, subst,
}
use nhpc_parliament_rag_syst.Stages.{
  stages_in_order, crawl_stage, parse_stage, index_stage, is_in, from_stage_on, resolve_stages,
}

-- Whatever a test picks from the stages is a plan in order.
picked-in_order :
    (f : Text → Bool)
    → filter f stages_in_order ≡ filter (is_in (filter f stages_in_order)) stages_in_order
picked-in_order f = elim (Bool-cases (f crawl_stage)) [
  | inl a ↦ elim (Bool-cases (f parse_stage)) [
    | inl b ↦ elim (Bool-cases (f index_stage)) [
      | inl c ↦ rw (a, b, c) refl
      | inr c ↦ rw (a, b, c) refl
    ]
    | inr b ↦ elim (Bool-cases (f index_stage)) [
      | inl c ↦ rw (a, b, c) refl
      | inr c ↦ rw (a, b, c) refl
    ]
  ]
  | inr a ↦ elim (Bool-cases (f parse_stage)) [
    | inl b ↦ elim (Bool-cases (f index_stage)) [
      | inl c ↦ rw (a, b, c) refl
      | inr c ↦ rw (a, b, c) refl
    ]
    | inr b ↦ elim (Bool-cases (f index_stage)) [
      | inl c ↦ rw (a, b, c) refl
      | inr c ↦ rw (a, b, c) refl
    ]
  ]
]

later-in_order :
    (name : Text)
    → from_stage_on name stages_in_order
      ≡ filter (is_in (from_stage_on name stages_in_order)) stages_in_order
unfolding from_stage_on
later-in_order name = elim (Bool-cases (text_eq crawl_stage name)) [
  | inl a ↦ rw a refl
  | inr a ↦ elim (Bool-cases (text_eq parse_stage name)) [
    | inl b ↦ rw (a, b) refl
    | inr b ↦ elim (Bool-cases (text_eq index_stage name)) [
      | inl c ↦ rw (a, b, c) refl
      | inr c ↦ rw (a, b, c) refl
    ]
  ]
]

-- Every plan is the canonical order crawl, parse, index with the stages left out that it does not
-- name: no stage occurs twice, and none runs before one that it depends on, however they were listed.
resolve_stages_in_order :
    (stages : List Text) (from_stage : Text) (plan : List Text)
    → resolve_stages stages from_stage ≡ some plan
    → plan ≡ filter (is_in plan) stages_in_order
unfolding resolve_stages
resolve_stages_in_order stages (c ∷ from_stage) plan h =
    let (_, e) = if_some (is_in stages_in_order (c ∷ from_stage)) _ h in
    subst (λ (p : List Text). p ≡ filter (is_in p) stages_in_order) e
      (later-in_order (c ∷ from_stage))
resolve_stages_in_order [] [] plan h =
    subst (λ (p : List Text). p ≡ filter (is_in p) stages_in_order) (eq_of_some h) refl
resolve_stages_in_order (s ∷ stages) [] plan h =
    let (_, e) = if_some (all (is_in stages_in_order) (s ∷ stages)) _ h in
    subst (λ (p : List Text). p ≡ filter (is_in p) stages_in_order) e
      (picked-in_order (is_in (s ∷ stages)))
