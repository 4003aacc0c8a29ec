-- ===== src/Dedupe/Survivor.antt =====
-- Which entities `plan` of nhpc_qa/entities/dedupe.py merges, and into which.
use nhpc_parliament_rag_syst.Prelude.{
  ℕ, ◌+◌, ◌≤◌, ◌≡◌, ◌≢◌, refl, ap, sym, ◌∙◌, Bool, List, [], ◌∷◌, All, All-append, All-map, count,
  count-append, String, str_eq, eq_refl, Bool-cases, inl, inr, arith,
}
use nhpc_parliament_rag_syst.Dedupe.Words.{IsNamedAlike, IsSame-IsNamedAlike}
use nhpc_parliament_rag_syst.Dedupe.{
  Names, Entity, Merge, merge_key, starts_bucket, join_bucket, is_empty, fill_buckets, goes_first,
  insert_member, sort_members, merge_of, merges_of, plan,
}
use nhpc_parliament_rag_syst.Dedupe.Links.{IsApart}
use nhpc_parliament_rag_syst.Dedupe.Buckets.{IsSame, IsSame-via, IsBucket, fill_buckets-IsBucket}

module _ (P : Entity → Type 0) where
  All-insert_member : (e : Entity) (ms : List Entity) → P e → All P ms → All P (insert_member e ms)
  unfolding insert_member
  All-insert_member e [] h hs = (h, tt)
  All-insert_member e (m ∷ ms) h hs = elim (Bool-cases (goes_first e m)) [
    | inl s ↦ rw s (h, hs)
    | inr s ↦ rw s (hs.0, All-insert_member e ms h hs.1)
  ]

  All-sort_members : (ms : List Entity) → All P ms → All P (sort_members ms)
  unfolding sort_members
  All-sort_members [] h = tt
  All-sort_members (m ∷ ms) h = All-insert_member m (sort_members ms) h.0 (All-sort_members ms h.1)

-- The first member has the most links.
abbrev IsLed : List Entity → Type 0
IsLed [] = Unit
IsLed (m ∷ ms) = All (λ l. l.links ≤ m.links) ms

insert_member-IsLed : (e : Entity) (ms : List Entity) → IsLed ms → IsLed (insert_member e ms)
unfolding insert_member
insert_member-IsLed e [] h = tt
insert_member-IsLed e (m ∷ ms) h = elim (Bool-cases (goes_first e m)) [
  | inl s ↦
      let more : m.links ≤ e.links = ground (arith, s) in
      rw s (
        more,
        All-map (λ l. l.links ≤ m.links) (λ l. l.links ≤ e.links) ms
            (λ l le. omega (arith, le, more)) h,
      )
  | inr s ↦ rw s (All-insert_member (λ l. l.links ≤ m.links) e ms (ground (arith, s)) h)
]

sort_members-IsLed : (ms : List Entity) → IsLed (sort_members ms)
unfolding sort_members
sort_members-IsLed [] = tt
sort_members-IsLed (m ∷ ms) = insert_member-IsLed m (sort_members ms) (sort_members-IsLed ms)

-- Identifiers: how often one occurs.
abbrev pub has_id : String → Entity → Bool
has_id i e = str_eq e.entity_id i

abbrev count_in : String → List (List Entity) → ℕ
count_in i [] = 0
count_in i (b ∷ bs) = count (has_id i) b + count_in i bs

module _ (i : String) where
  count-insert_member :
      (e : Entity) (ms : List Entity)
      → count (has_id i) (insert_member e ms) ≡ count (has_id i) (e ∷ []) + count (has_id i) ms
  unfolding insert_member
  count-insert_member e [] = omega arith
  count-insert_member e (m ∷ ms) = elim (Bool-cases (goes_first e m)) [
    | inl s ↦ rw s (omega arith)
    | inr s ↦ rw s (omega (arith, count-insert_member e ms))
  ]

  count-sort_members : (ms : List Entity) → count (has_id i) (sort_members ms) ≡ count (has_id i) ms
  unfolding sort_members
  count-sort_members [] = refl
  count-sort_members (m ∷ ms) =
      omega (arith, count-insert_member m (sort_members ms), count-sort_members ms)

  count_in-join_bucket :
      (names : Names) (e : Entity) (bs : List (List Entity))
      → count_in i (join_bucket names e bs) ≡ count (has_id i) (e ∷ []) + count_in i bs
  unfolding join_bucket
  count_in-join_bucket names e [] = omega arith
  count_in-join_bucket names e (b ∷ bs) = elim (Bool-cases (starts_bucket names e b)) [
    | inl s ↦ rw s (omega (arith, count-append (has_id i) b (e ∷ [])))
    | inr s ↦ rw s (omega (arith, count_in-join_bucket names e bs))
  ]

  count_in-fill_buckets :
      (names : Names) (es : List Entity) (bs : List (List Entity))
      → count_in i (fill_buckets names es bs) ≤ count (has_id i) es + count_in i bs
  unfolding fill_buckets
  count_in-fill_buckets names [] bs = omega arith
  count_in-fill_buckets names (e ∷ es) bs =
      elim (Bool-cases (is_empty (merge_key names e.canonical))) [
        | inl s ↦ rw s (omega (arith, count_in-fill_buckets names es bs))
        | inr s ↦ rw s (
            omega (
              arith,
              count_in-fill_buckets names es (join_bucket names e bs),
              count_in-join_bucket names e bs,
            ))
      ]

  absent : (ls : List Entity) → count (has_id i) ls ≡ 0 → All (λ l. i ≢ l.entity_id) ls
  absent [] h = tt
  absent (l ∷ ls) h = elim (Bool-cases (str_eq l.entity_id i)) [
    | inl e ↦ absurd (omega (arith, rw e at h))
    | inr e ↦ (
      (λ same.
          absurd (omega (arith, rw (ap (λ (x : String). str_eq x i) (sym same) ∙ eq_refl i) at h))),
      absent ls (omega (arith, h)),
    )
  ]

-- No identifier occurs twice.
abbrev pub IsUnique : List Entity → Type 0
IsUnique es = (i : String) → count (has_id i) es ≤ 1

both : (P Q : Entity → Type 0) (ls : List Entity) → All P ls → All Q ls → All (λ l. P l × Q l) ls
both P Q [] h h' = tt
both P Q (l ∷ ls) h h' = ((h.0, h'.0), both P Q ls h.1 h'.1)

module _ (names : Names) where
  -- What the buckets and the order of their members give a merge.
  abbrev IsSound : Merge → Type 0
  IsSound m = All (λ l. IsSame names m.survivor l × (l.links ≤ m.survivor.links)) m.losers

  led_bucket :
      (first : Entity) (ms : List Entity)
      → All (IsSame names first) ms
      → IsLed ms
      → All IsSound (merge_of ms)
  led_bucket first [] h led = tt
  led_bucket first (m ∷ []) h led = tt
  led_bucket first (m ∷ n ∷ ms) h led = (
    both (IsSame names m) (λ l. l.links ≤ m.links) (n ∷ ms)
        (All-map (IsSame names first) (IsSame names m) (n ∷ ms)
          (λ l. IsSame-via names first m l h.0) h.1)
        led,
    tt,
  )

  right_bucket : (b : List Entity) → IsBucket names b → All IsSound (merge_of (sort_members b))
  unfolding sort_members
  right_bucket [] h = tt
  right_bucket (m ∷ ms) h =
      led_bucket m (sort_members (m ∷ ms)) (All-sort_members (IsSame names m) (m ∷ ms) h)
        (sort_members-IsLed (m ∷ ms))

  merges_of-IsSound :
      (bs : List (List Entity)) → All (IsBucket names) bs → All IsSound (merges_of bs)
  unfolding merges_of
  merges_of-IsSound [] h = tt
  merges_of-IsSound (b ∷ bs) h =
      All-append IsSound (merge_of (sort_members b)) (merges_of bs) (right_bucket b h.0)
        (merges_of-IsSound bs h.1)

  IsApart-merge_of : (ms : List Entity) → IsUnique ms → IsApart (merge_of ms)
  IsApart-merge_of [] h = tt
  IsApart-merge_of (m ∷ []) h = tt
  IsApart-merge_of (m ∷ n ∷ ms) h =
      (absent m.entity_id (n ∷ ms) (omega (arith, rw (eq_refl m.entity_id) at (h m.entity_id))), tt)

  merges_of-IsApart :
      (bs : List (List Entity)) → ((i : String) → count_in i bs ≤ 1) → IsApart (merges_of bs)
  unfolding merges_of
  merges_of-IsApart [] h = tt
  merges_of-IsApart (b ∷ bs) h =
      All-append (λ (m : Merge). All (λ l. m.survivor.entity_id ≢ l.entity_id) m.losers)
        (merge_of (sort_members b)) (merges_of bs)
        (IsApart-merge_of (sort_members b) (λ i. omega (arith, count-sort_members i b, h i)))
        (merges_of-IsApart bs (λ i. omega (arith, h i)))

  -- A merge that may be applied: each loser is of the survivor's type, its name has the same
  -- distinguishing words, and it has at most as many links.
  abbrev pub IsRightMerge : Merge → Type 0
  IsRightMerge m =
      All
        (λ l.
          (m.survivor.entity_type ≡ l.entity_type)
          × IsNamedAlike names m.survivor.canonical l.canonical
          × (l.links ≤ m.survivor.links))
        m.losers

  IsSound-IsRightMerge : (m : Merge) → IsSound m → IsRightMerge m
  IsSound-IsRightMerge m h =
      All-map _ _ m.losers (λ l s. (s.0.0, IsSame-IsNamedAlike names m.survivor l s.0, s.1)) h

  -- The plan merges only what names one thing: each loser has the survivor's type and the same
  -- distinguishing words, which are those that are on no list of words for kinds of things and are years
  -- (19 or 20 and two digits) or no numbers; the survivor has the most links, and, for entities whose
  -- identifiers are unique, no survivor is one of its own losers.
  pub plan-IsRightMerge :
      (entities : List Entity)
      → IsUnique entities
      → All IsRightMerge (plan names entities) × IsApart (plan names entities)
  unfolding plan
  plan-IsRightMerge entities unique = (
    All-map IsSound IsRightMerge (plan names entities) IsSound-IsRightMerge (
        merges_of-IsSound (fill_buckets names entities [])
          (fill_buckets-IsBucket names entities [] tt)),
    merges_of-IsApart (fill_buckets names entities [])
        (λ i. omega (arith, count_in-fill_buckets i names entities [], unique i)),
  )
