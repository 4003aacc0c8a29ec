-- ===== src/Dedupe/Buckets.antt =====
-- The buckets into which `plan` of nhpc_qa/entities/dedupe.py sorts the entities.
use nhpc_parliament_rag_syst.Prelude.{
  ◌≡◌, refl, sym, ◌∙◌, subst, true, List, [], ◌∷◌, ◌++◌, all, All, All-append, eq_iff, Bool-cases,
  inl, inr, arith, Text, text_eq, text_eq→eq, text_eq_refl,
}
use nhpc_parliament_rag_syst.Dedupe.{
  Names, Entity, merge_key, has_word, same_words, share_bucket, starts_bucket, join_bucket,
  is_empty, fill_buckets,
}

-- Sets of words.
pub has_word_through :
    (b c : List Text) (t : Text)
    → all (has_word c) b ≡ true
    → has_word b t ≡ true
    → has_word c t ≡ true
has_word_through [] c t h e = ground (arith, e)
has_word_through (u ∷ b) c t h e = elim (Bool-cases (text_eq u t)) [
  | inl same ↦ subst (λ (x : Text). has_word c x ≡ true) (text_eq→eq u t same) (ground (arith, h))
  | inr other ↦ has_word_through b c t (ground (arith, h)) (ground (arith, e, other))
]

all_through :
    (a b c : List Text)
    → all (has_word c) b ≡ true
    → all (has_word b) a ≡ true
    → all (has_word c) a ≡ true
all_through [] b c h e = refl
all_through (t ∷ a) b c h e =
    ground
      (arith, has_word_through b c t h (ground (arith, e)), all_through a b c h (ground (arith, e)))

same_words_trans :
    (a b c : List Text) → same_words a b ≡ true → same_words b c ≡ true → same_words a c ≡ true
same_words_trans a b c h h' = ground (
  arith,
  all_through a b c (ground (arith, h')) (ground (arith, h)),
  all_through c b a (ground (arith, h)) (ground (arith, h')),
)

same_words_sym : (a b : List Text) → same_words a b ≡ true → same_words b a ≡ true
same_words_sym a b h = ground (arith, h)

all_mem :
    (a b : List Text)
    → ((t : Text) → has_word a t ≡ true → has_word b t ≡ true)
    → all (has_word b) a ≡ true
all_mem [] b h = refl
all_mem (t ∷ a) b h =
    ground
      (arith, h t (ground (arith, text_eq_refl t)), all_mem a b (λ u e. h u (ground (arith, e))))

same_words_refl : (a : List Text) → same_words a a ≡ true
same_words_refl a = ground (arith, all_mem a a (λ t h. h))

module _ (names : Names) where
  -- Entities of one type whose names have the same distinguishing words.
  abbrev pub IsSame : Entity → Entity → Type 0
  IsSame a b =
      (a.entity_type ≡ b.entity_type)
      × (same_words (merge_key names a.canonical) (merge_key names b.canonical) ≡ true)

  share_bucket→IsSame : (a b : Entity) → share_bucket names a b ≡ true → IsSame a b
  share_bucket→IsSame a b h =
      ((eq_iff a.entity_type b.entity_type).0 (ground (arith, h)), ground (arith, h))

  pub IsSame-via : (m a b : Entity) → IsSame m a → IsSame m b → IsSame a b
  IsSame-via m a b h h' = (
    sym h.0 ∙ h'.0,
    same_words_trans (merge_key names a.canonical) (merge_key names m.canonical)
        (merge_key names b.canonical)
        (same_words_sym (merge_key names m.canonical) (merge_key names a.canonical) h.1) h'.1,
  )

  IsSame-refl : (a : Entity) → IsSame a a
  IsSame-refl a = (refl, same_words_refl (merge_key names a.canonical))

  -- A bucket: its members are all the same as the first.
  abbrev pub IsBucket : List Entity → Type 0
  IsBucket [] = Unit
  IsBucket (m ∷ ms) = All (IsSame m) (m ∷ ms)

  IsBucket-append :
      (e : Entity) (b : List Entity)
      → starts_bucket names e b ≡ true
      → IsBucket b
      → IsBucket (b ++ e ∷ [])
  IsBucket-append e [] h ok = (IsSame-refl e, tt)
  IsBucket-append e (m ∷ ms) h ok =
      (ok.0, All-append (IsSame m) ms (e ∷ []) ok.1 (share_bucket→IsSame m e h, tt))

  join_bucket-IsBucket :
      (e : Entity) (bs : List (List Entity))
      → All IsBucket bs
      → All IsBucket (join_bucket names e bs)
  unfolding join_bucket
  join_bucket-IsBucket e [] h = ((IsSame-refl e, tt), tt)
  join_bucket-IsBucket e (b ∷ bs) h = elim (Bool-cases (starts_bucket names e b)) [
    | inl s ↦ rw s (IsBucket-append e b s h.0, h.1)
    | inr s ↦ rw s (h.0, join_bucket-IsBucket e bs h.1)
  ]

  pub fill_buckets-IsBucket :
      (es : List Entity) (bs : List (List Entity))
      → All IsBucket bs
      → All IsBucket (fill_buckets names es bs)
  unfolding fill_buckets
  fill_buckets-IsBucket [] bs h = h
  fill_buckets-IsBucket (e ∷ es) bs h = elim (Bool-cases (is_empty (merge_key names e.canonical))) [
    | inl s ↦ rw s (fill_buckets-IsBucket es bs h)
    | inr s ↦ rw s (fill_buckets-IsBucket es (join_bucket names e bs) (join_bucket-IsBucket e bs h))
  ]
