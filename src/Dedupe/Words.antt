-- ===== src/Dedupe/Words.antt =====
-- The words of a name by which `merge_key` of nhpc_qa/entities/dedupe.py tells one thing from another.
use nhpc_parliament_rag_syst.Prelude.{
  ℕ, ◌≡◌, ◌↔◌, ◌⊎◌, inl, inr, refl, ap, sym, ◌∙◌, Bool, true, false, not, ◌&&◌, ◌||◌, List, [], ◌∷◌,
  filter, any, all, codes, Text, text_eq, text_eq→eq, ◌==◌, Bool-cases, arith, false≢true,
}
use nhpc_parliament_rag_syst.Dedupe.{
  Names, Entity, generic_words, is_generic, is_number, is_year, keeps_word, merge_key, has_word,
}
use nhpc_parliament_rag_syst.Dedupe.Buckets.{IsSame, has_word_through}

module _ (names : Names) where
  -- A year: 19 or 20 and two more digits.
  abbrev pub IsYear : Text → Type 0
  IsYear t =
      (c : ℕ) × (d : ℕ) × ((t ≡ b'1' ∷ b'9' ∷ c ∷ d ∷ []) ⊎ (t ≡ b'2' ∷ b'0' ∷ c ∷ d ∷ []))
      × (names.is_decimal c ≡ true)
      × (names.is_decimal d ≡ true)

  -- Neither digit, comma nor dot.
  abbrev pub is_letter : ℕ → Bool
  is_letter c = not (names.is_decimal c) && (not (c == b',') && not (c == b'.'))

  -- A word that distinguishes: it is no word for a kind of thing, and it is a year or no number.
  abbrev pub Distinguishes : Text → Type 0
  Distinguishes t =
      (any (λ w. text_eq (codes w) t) generic_words ≡ false)
      × (IsYear t ⊎ (t ≡ []) ⊎ (any is_letter t ≡ true))

  -- Two names have the same distinguishing words.
  abbrev pub IsNamedAlike : Text → Text → Type 0
  IsNamedAlike a b =
      (t : Text)
      → ((has_word (names.words a) t ≡ true) × Distinguishes t)
        ↔ ((has_word (names.words b) t ≡ true) × Distinguishes t)

  has_letter :
      (t : Text)
      → any is_letter t ≡ not (all (λ d. names.is_decimal d || ((d == b',') || (d == b'.'))) t)
  has_letter [] = refl
  has_letter (c ∷ t) = ground (arith, has_letter t)

  year_of :
      (a b c d : ℕ)
      → is_year names (a ∷ b ∷ c ∷ d ∷ []) ≡ true
      → ((a ≡ b'1') × (b ≡ b'9')) ⊎ ((a ≡ b'2') × (b ≡ b'0'))
  year_of a b c d h = elim (Bool-cases (a == b'1')) [
    | inl e ↦ inl (ground (arith, h, e), ground (arith, h, e))
    | inr e ↦ inr (ground (arith, h, e), ground (arith, h, e))
  ]

  is_year-IsYear : (t : Text) → is_year names t ≡ true → IsYear t
  is_year-IsYear [] h = absurd (ground (arith, h))
  is_year-IsYear (a ∷ []) h = absurd (ground (arith, h))
  is_year-IsYear (a ∷ b ∷ []) h = absurd (ground (arith, h))
  is_year-IsYear (a ∷ b ∷ c ∷ []) h = absurd (ground (arith, h))
  is_year-IsYear (a ∷ b ∷ c ∷ d ∷ e ∷ t) h = absurd (ground (arith, h))
  is_year-IsYear (a ∷ b ∷ c ∷ d ∷ []) h = (
    c,
    d,
    elim (year_of a b c d h) [
      | inl (x, y) ↦ inl (rw (x, y) refl)
      | inr (x, y) ↦ inr (rw (x, y) refl)
    ],
    ground (arith, h),
    ground (arith, h),
  )

  IsYear-is_year : (t : Text) → IsYear t → is_year names t ≡ true
  IsYear-is_year t (c, d, inl e, x, y) = rw (e, x, y) refl
  IsYear-is_year t (c, d, inr e, x, y) = rw (e, x, y) refl

  not_number : (t : Text) → is_number names t ≡ false → (t ≡ []) ⊎ (any is_letter t ≡ true)
  not_number [] h = inl refl
  not_number (c ∷ t) h = inr (has_letter (c ∷ t) ∙ ap not h)

  letter-not_number : (t : Text) → (t ≡ []) ⊎ (any is_letter t ≡ true) → is_number names t ≡ false
  letter-not_number [] h = refl
  letter-not_number (c ∷ t) (inl e) = cc
  letter-not_number (c ∷ t) (inr e) = flipped _ (sym (has_letter (c ∷ t)) ∙ e)
    where
      flipped : (b : Bool) → not b ≡ true → b ≡ false
      flipped true e = absurd (false≢true e)
      flipped false e = refl

  keeps_word-Distinguishes : (t : Text) → (keeps_word names t ≡ true) ↔ Distinguishes t
  keeps_word-Distinguishes t = (forth, back)
    where
      decide :
          (g n y : Bool)
          → (not g && not (n && not y)) ≡ true
          → (g ≡ false) × ((y ≡ true) ⊎ (n ≡ false))
      decide true n y h = absurd (false≢true h)
      decide false true true h = (refl, inl refl)
      decide false true false h = absurd (false≢true h)
      decide false false y h = (refl, inr refl)

      forth : keeps_word names t ≡ true → Distinguishes t
      forth h =
          let (g, rest) = decide (is_generic t) (is_number names t) (is_year names t) h in
          (g, elim rest [ inl y ↦ inl (is_year-IsYear t y) | inr n ↦ inr (not_number t n) ])

      keep_year : (n : Bool) → (not false && not (n && not true)) ≡ true
      keep_year true = refl
      keep_year false = refl

      back : Distinguishes t → keeps_word names t ≡ true
      back (g, inl y) = rw (g, IsYear-is_year t y) (keep_year (is_number names t))
      back (g, inr n) = rw (g, letter-not_number t n) refl

both_true : (a b : Bool) → (a && b) ≡ true → (a ≡ true) × (b ≡ true)
both_true true b h = (refl, h)
both_true false b h = absurd (false≢true h)

has_word-filter :
    (f : Text → Bool) (ws : List Text) (t : Text)
    → has_word (filter f ws) t ≡ (has_word ws t && f t)
has_word-filter f [] t = refl
has_word-filter f (u ∷ ws) t = elim (Bool-cases (text_eq u t)) [
  | inl same ↦
      let e : f u ≡ f t = ap f (text_eq→eq u t same) in
      ground (arith, same, e, has_word-filter f ws t)
  | inr other ↦ ground (arith, other, has_word-filter f ws t)
]

module _ (names : Names) where
  -- A word of the merge key is a word of the name that distinguishes.
  merge_key-Distinguishes :
      (name t : Text)
      → (has_word (merge_key names name) t ≡ true)
        ↔ ((has_word (names.words name) t ≡ true) × Distinguishes names t)
  unfolding merge_key
  merge_key-Distinguishes name t =
      let e = has_word-filter (keeps_word names) (names.words name) t in
      (
        λ h.
            let (w, k) =
              both_true (has_word (names.words name) t) (keeps_word names t) (sym e ∙ h) in
            (w, (keeps_word-Distinguishes names t).0 k),
        λ (w, d). e ∙ (rw (w, (keeps_word-Distinguishes names t).1 d) refl),
      )

  pub IsSame-IsNamedAlike :
      (a b : Entity) → IsSame names a b → IsNamedAlike names a.canonical b.canonical
  IsSame-IsNamedAlike a b same t =
      let ka = merge_key names a.canonical in
      let kb = merge_key names b.canonical in
      let (ab, ba) = both_true (all (has_word kb) ka) (all (has_word ka) kb) same.1 in
      (
        λ h.
            (merge_key-Distinguishes b.canonical t).0
              (has_word_through ka kb t ab ((merge_key-Distinguishes a.canonical t).1 h)),
        λ h.
            (merge_key-Distinguishes a.canonical t).0
              (has_word_through kb ka t ba ((merge_key-Distinguishes b.canonical t).1 h)),
      )
