-- ===== src/Dedupe/Links.antt =====
-- What `apply` of nhpc_qa/entities/dedupe.py does to the rows that refer to entities.
use nhpc_parliament_rag_syst.Prelude.{
  ◌≡◌, ◌≢◌, refl, ap, ap₂, sym, ◌∙◌, subst, Bool, true, false, not, ◌&&◌, ◌||◌, List, [], ◌∷◌, map,
  filter, any, All, String, str_eq, eq_iff, if◌then◌else◌, Bool-cases, inl, inr, arith,
}
use nhpc_parliament_rag_syst.Dedupe.{
  Entity, Reference, Dictionary, Merge, owns, moved_row, repoint, merge_one, merge_losers,
  apply_merges,
}

-- Where a reference to an entity leads once a loser is merged into a survivor.
abbrev redirect : String → String → String → String
redirect survivor loser e = if str_eq e loser then survivor else e

abbrev redirect_losers : String → List Entity → String → String
redirect_losers survivor [] e = e
redirect_losers survivor (l ∷ ls) e = redirect_losers survivor ls (redirect survivor l.entity_id e)

abbrev pub redirect_all : List Merge → String → String
redirect_all [] e = e
redirect_all (m ∷ ms) e = redirect_all ms (redirect_losers m.survivor.entity_id m.losers e)

-- A row for the key whose entity passes a test.
abbrev leads : String → (String → Bool) → List Reference → Bool
leads key p rows = any (λ r. str_eq r.from_key key && p r.to_entity) rows

any-filter-map :
    (p f : Reference → Bool) (g : Reference → Reference) (rows : List Reference)
    → any p (filter f (map g rows)) ≡ any (λ r. f (g r) && p (g r)) rows
any-filter-map p f g [] = refl
any-filter-map p f g (r ∷ rows) = elim (Bool-cases (f (g r))) [
  | inl e ↦ rw e (ap (λ (b : Bool). p (g r) || b) (any-filter-map p f g rows))
  | inr e ↦ rw e (any-filter-map p f g rows)
]

any_same :
    (p q : Reference → Bool) (rows : List Reference)
    → ((r : Reference) → p r ≡ q r)
    → any p rows ≡ any q rows
any_same p q [] h = refl
any_same p q (r ∷ rows) h = ap₂ (λ (a b : Bool). a || b) (h r) (any_same p q rows h)

any_mono :
    (p q : Reference → Bool) (rows : List Reference)
    → ((r : Reference) → p r ≡ true → q r ≡ true)
    → any p rows ≡ true
    → any q rows ≡ true
any_mono p q [] h e = e
any_mono p q (r ∷ rows) h e = ground (arith, h r, any_mono p q rows h, e)

not_same : (s l : String) → s ≢ l → str_eq s l ≡ false
not_same s l h = elim (Bool-cases (str_eq s l)) [
  | inl e ↦ absurd (h ((eq_iff s l).0 e))
  | inr e ↦ e
]

module _ (survivor loser key : String) (p : String → Bool) (apart : survivor ≢ loser)
    (rows : List Reference) where
  abbrev after : Reference → Bool
  after r =
      let r' = moved_row rows survivor loser r in
      not (str_eq r'.to_entity loser) && (str_eq r'.from_key key && p r'.to_entity)

  abbrev before : Reference → Bool
  before r = str_eq r.from_key key && p (redirect survivor loser r.to_entity)

  row_same : (r : Reference) → (p survivor && owns rows key survivor) ≡ false → after r ≡ before r
  row_same r h = elim (Bool-cases (str_eq r.to_entity loser)) [
    | inr e ↦ rw e (rw e refl)
    | inl e ↦ elim (Bool-cases (str_eq r.from_key key)) [
      | inl same ↦ elim (Bool-cases (owns rows r.from_key survivor)) [
        | inl owned ↦
            let owned' : owns rows key survivor ≡ true =
              subst (λ (k : String). owns rows k survivor ≡ true) ((eq_iff r.from_key key).0 same)
                owned in
            let refused : p survivor ≡ false = ground (arith, h, owned') in
            rw (e, owned) (rw (e, same, refused) refl)
        | inr free ↦ rw (e, free, not_same survivor loser apart, same) refl
      ]
      | inr differ ↦ elim (Bool-cases (owns rows r.from_key survivor)) [
        | inl owned ↦ rw (e, owned) (rw (e, differ) refl)
        | inr free ↦ rw (e, free, not_same survivor loser apart, differ) refl
      ]
    ]
  ]

  owned_after :
      p survivor ≡ true
      → (r : Reference) → (str_eq r.from_key key && str_eq r.to_entity survivor) ≡ true
      → after r ≡ true
  owned_after h r own =
      let at_key : str_eq r.from_key key ≡ true = ground (arith, own) in
      let at_survivor : str_eq r.to_entity survivor ≡ true = ground (arith, own) in
      let same = (eq_iff r.to_entity survivor).0 at_survivor in
      let stays : str_eq r.to_entity loser ≡ false =
        ap (λ (x : String). str_eq x loser) same ∙ not_same survivor loser apart in
      let passes : p r.to_entity ≡ true = ap p same ∙ h in
      rw stays (rw (stays, at_key, passes) refl)

  owned_before :
      p survivor ≡ true
      → (r : Reference) → (str_eq r.from_key key && str_eq r.to_entity survivor) ≡ true
      → before r ≡ true
  owned_before h r own =
      let at_key : str_eq r.from_key key ≡ true = ground (arith, own) in
      let at_survivor : str_eq r.to_entity survivor ≡ true = ground (arith, own) in
      let same = (eq_iff r.to_entity survivor).0 at_survivor in
      let stays : str_eq r.to_entity loser ≡ false =
        ap (λ (x : String). str_eq x loser) same ∙ not_same survivor loser apart in
      let passes : p r.to_entity ≡ true = ap p same ∙ h in rw (stays, at_key, passes) refl

  leads-repoint :
      leads key p (repoint survivor loser rows)
      ≡ leads key (λ e. p (redirect survivor loser e)) rows
  unfolding repoint
  leads-repoint =
      any-filter-map (λ r. str_eq r.from_key key && p r.to_entity)
        (λ r. not (str_eq r.to_entity loser)) (moved_row rows survivor loser) rows
      ∙ elim (Bool-cases (p survivor && owns rows key survivor)) [
        | inr h ↦ any_same after before rows (λ r. row_same r h)
        | inl h ↦
            let passes : p survivor ≡ true = ground (arith, h) in
            let owned : owns rows key survivor ≡ true = ground (arith, h) in
            any_mono (λ r. str_eq r.from_key key && str_eq r.to_entity survivor) after rows
              (owned_after passes) owned
            ∙ sym (
                any_mono (λ r. str_eq r.from_key key && str_eq r.to_entity survivor) before rows
                  (owned_before passes) owned)
      ]

-- The merges of the code: no survivor is one of its own losers.
abbrev pub IsApart : List Merge → Type 0
IsApart = All (λ m. All (λ l. m.survivor.entity_id ≢ l.entity_id) m.losers)

-- One of the two tables that refer to entities.
leads-merge_losers :
    (key : String) (p : String → Bool) (survivor : String) (losers : List Entity) (d : Dictionary)
    → All (λ l. survivor ≢ l.entity_id) losers
    → (leads key p (merge_losers survivor losers d).aliases
        ≡ leads key (λ e. p (redirect_losers survivor losers e)) d.aliases)
      × (leads key p (merge_losers survivor losers d).sub_questions
          ≡ leads key (λ e. p (redirect_losers survivor losers e)) d.sub_questions)
unfolding merge_losers merge_one
leads-merge_losers key p s [] d h = (refl, refl)
leads-merge_losers key p s (l ∷ ls) d h =
    let rest = leads-merge_losers key p s ls (merge_one s l.entity_id d) h.1 in
    let p' : String → Bool = λ e. p (redirect_losers s ls e) in
    (
      rest.0 ∙ leads-repoint s l.entity_id key p' h.0 d.aliases,
      rest.1 ∙ leads-repoint s l.entity_id key p' h.0 d.sub_questions,
    )

leads-apply_merges :
    (key : String) (p : String → Bool) (ms : List Merge) (d : Dictionary)
    → IsApart ms
    → (leads key p (apply_merges ms d).aliases ≡ leads key (λ e. p (redirect_all ms e)) d.aliases)
      × (leads key p (apply_merges ms d).sub_questions
          ≡ leads key (λ e. p (redirect_all ms e)) d.sub_questions)
unfolding apply_merges
leads-apply_merges key p [] d h = (refl, refl)
leads-apply_merges key p (m ∷ ms) d h =
    let s = m.survivor.entity_id in
    let rest = leads-apply_merges key p ms (merge_losers s m.losers d) h.1 in
    let this = leads-merge_losers key (λ e. p (redirect_all ms e)) s m.losers d h.0 in
    (rest.0 ∙ this.0, rest.1 ∙ this.1)

-- Merging loses no reference and invents none. An alias or a sub-question belongs to an entity after the
-- merges exactly if it belonged before to an entity that they lead there, for merges in which no
-- survivor is among its own losers.
pub apply_merges_exact :
    (ms : List Merge) (d : Dictionary) (key entity : String)
    → IsApart ms
    → (owns (apply_merges ms d).aliases key entity
        ≡ any (λ r. str_eq r.from_key key && str_eq (redirect_all ms r.to_entity) entity) d.aliases)
      × (owns (apply_merges ms d).sub_questions key entity
          ≡ any
              (λ r. str_eq r.from_key key && str_eq (redirect_all ms r.to_entity) entity)
              d.sub_questions)
apply_merges_exact ms d key entity h = leads-apply_merges key (λ e. str_eq e entity) ms d h
