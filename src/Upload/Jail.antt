-- ===== src/Upload/Jail.antt =====
-- What nhpc_qa/api/security/upload_guard.py lets through: where an upload may land, and which names it
-- may carry.
use nhpc_parliament_rag_syst.Prelude.{
  ℕ, zero, suc, ◌-◌, ◌≡◌, ◌≢◌, refl, ap, ap₂, sym, ◌∙◌, subst, Bool, true, false, not, ◌||◌, Option,
  none, some, [], ◌∷◌, ◌++◌, map, reverse, if◌then◌else◌, Text, has, replace, split, strip_by,
  drop_while, filter, take, Bool-cases, Option-cases, append-nil, append_assoc, leb, ltb, length,
  lower, ◌⊎◌, inl, inr, if_some, eq_of_some, none-some, has-append, has-replace, arith, false≢true,
  reverse_aux, text_eq_refl, ◌==◌,
}
use nhpc_parliament_rag_syst.OsPath.{AbsPath, below, below→append, raw_join}
use nhpc_parliament_rag_syst.Upload.{
  Unicode, jail, last_dot, leading_dots, splitext, cut_stem, cut_component, drop_drive,
  is_forbidden, scrub, is_device, first_part, accept_component, sanitize_component,
}

below_refl : (p : AbsPath) → below (p ++ []) p ≡ true
unfolding below
below_refl [] = refl
below_refl (c ∷ p) = ground (arith, below_refl p, text_eq_refl c)

jail_if :
    (inside same : Bool) (target t : AbsPath)
    → (if not inside then none else if same then none else some target) ≡ some t
    → (inside ≡ true) × (same ≡ false) × (target ≡ t)
jail_if true true target t h = absurd (none-some h)
jail_if true false target t h = (refl, refl, eq_of_some h)
jail_if false same target t h = absurd (none-some h)

strictly_below :
    (root_real t rest target : AbsPath)
    → t ≡ root_real ++ rest
    → below t root_real ≡ false
    → t ≡ target
    → (c : Text) × (tail : AbsPath) × (target ≡ root_real ++ c ∷ tail)
strictly_below root_real t [] target e other same =
    absurd
      (false≢true (sym other ∙ ap (λ (p : AbsPath). below p root_real) e ∙ below_refl root_real))
strictly_below root_real t (c ∷ rest) target e other same = (c, rest, sym same ∙ e)

-- A target that the jail lets through lies strictly inside the real root: it is the root with at least
-- one more component. This holds for every relative path, with or without dots, a leading slash or
-- links: nothing is assumed of where the links of the file system lead.
pub jail_inside :
    (realpath : AbsPath → AbsPath) (root : AbsPath) (rel : Text) (target : AbsPath)
    → jail realpath root rel ≡ some target
    → (c : Text) × (rest : AbsPath) × (target ≡ realpath root ++ c ∷ rest)
unfolding jail
jail_inside realpath root rel target h =
    let root_real = realpath root in
    let t = realpath (raw_join root_real rel) in
    let (inside, other, same) = jail_if (below root_real t) (below t root_real) t target h in
    let (rest, e) = below→append root_real t inside in
    strictly_below root_real t rest target e other same

has-drop_while :
    (c : ℕ) (p : ℕ → Bool) (t : Text) → has c t ≡ false → has c (drop_while p t) ≡ false
unfolding drop_while
has-drop_while c p [] h = refl
has-drop_while c p (d ∷ t) h = elim (Bool-cases (p d)) [
  | inl e ↦ rw e (has-drop_while c p t (ground arith))
  | inr e ↦ rw e h
]

has-reverse_aux : (c : ℕ) (t r : Text) → has c (reverse_aux t r) ≡ has c t || has c r
has-reverse_aux c [] r = refl
has-reverse_aux c (d ∷ t) r = ground (arith, has-reverse_aux c t (d ∷ r))

has-reverse : (c : ℕ) (t : Text) → has c (reverse t) ≡ has c t
has-reverse c t = ground (arith, has-reverse_aux c t [])

has-strip_by : (c : ℕ) (p : ℕ → Bool) (t : Text) → has c t ≡ false → has c (strip_by p t) ≡ false
unfolding strip_by
has-strip_by c p t h =
    has-reverse c (drop_while p (reverse (drop_while p t)))
    ∙ has-drop_while c p (reverse (drop_while p t))
        (has-reverse c (drop_while p t) ∙ has-drop_while c p t h)

has-drop_drive : (c : ℕ) (t : Text) → has c t ≡ false → has c (drop_drive t) ≡ false
has-drop_drive c [] h = refl
has-drop_drive c (d ∷ []) h = h
has-drop_drive c (d ∷ e ∷ t) h = ground arith

has-replace-other : (c d x : ℕ) (t : Text) → c ≢ x → has c t ≡ false → has c (replace d x t) ≡ false
has-replace-other c d x [] ne h = refl
has-replace-other c d x (y ∷ t) ne h =
    ground (arith, has-replace-other c d x t ne (ground arith), ne)

has-map-other :
    (c x : ℕ) (p : ℕ → Bool) (t : Text)
    → c ≢ x
    → has c t ≡ false
    → has c (map (λ y. if p y then x else y) t) ≡ false
has-map-other c x p [] ne h = refl
has-map-other c x p (y ∷ t) ne h = ground (arith, has-map-other c x p t ne (ground arith), ne)

has-take : (c n : ℕ) (t : Text) → has c t ≡ false → has c (take n t) ≡ false
has-take c zero t h = refl
has-take c (suc n) [] h = refl
has-take c (suc n) (d ∷ t) h = ground (arith, has-take c n t (ground arith))

has-leading_dots : (c : ℕ) (t : Text) → has c t ≡ false → has c (leading_dots t) ≡ false
has-leading_dots c [] h = refl
has-leading_dots c (d ∷ t) h = ground (arith, has-leading_dots c t (ground arith))

last_dot-append : (n stem ext : Text) → last_dot n ≡ some (stem, ext) → stem ++ ext ≡ n
unfolding last_dot
last_dot-append [] stem ext h = absurd (none-some h)
last_dot-append (c ∷ n) stem ext h = elim (Option-cases (last_dot n)) [
  | inr ((s, e), found) ↦
      let same : (c ∷ s, e) ≡ (stem, ext) = eq_of_some (rw (found, last_dot) at h) in
      sym (ap (λ (x : Text × Text). x.0 ++ x.1) same)
      ∙ ap (λ (l : Text). c ∷ l) (last_dot-append n s e found)
  | inl none_found ↦
      let (_, same) = if_some (c == b'.') ([], c ∷ n) (rw (none_found, last_dot) at h) in
      sym (ap (λ (x : Text × Text). x.0 ++ x.1) same)
]

leading_dots-append : (n : Text) → leading_dots n ++ drop_while (λ c. c == b'.') n ≡ n
unfolding drop_while
leading_dots-append [] = refl
leading_dots-append (c ∷ n) = elim (Bool-cases (c == b'.')) [
  | inl e ↦ rw (e, drop_while) (ap (λ (l : Text). c ∷ l) (leading_dots-append n))
  | inr e ↦ rw (e, drop_while) refl
]

parts-append :
    (n : Text) (o : Option (Text × Text))
    → ((stem ext : Text) → o ≡ some (stem, ext) → leading_dots n ++ stem ++ ext ≡ n)
    → (elim o as (λ _. Text × Text) [
      | none ↦ (n, [])
      | some (stem, ext) ↦ (leading_dots n ++ stem, ext)
    ]).0
        ++ (elim o as (λ _. Text × Text) [
          | none ↦ (n, [])
          | some (stem, ext) ↦ (leading_dots n ++ stem, ext)
        ]).1
      ≡ n
parts-append n none h = append-nil n
parts-append n (some (stem, ext)) h = h stem ext refl

-- A name is its stem and its extension.
splitext-append : (n : Text) → (splitext n).0 ++ (splitext n).1 ≡ n
unfolding splitext
splitext-append n = parts-append n (last_dot (drop_while (λ c. c == b'.') n)) (λ stem ext e.
    append_assoc (leading_dots n) stem ext
    ∙ ap (λ (l : Text). leading_dots n ++ l)
        (last_dot-append (drop_while (λ c. c == b'.') n) stem ext e)
    ∙ leading_dots-append n)

or_false : (a b : Bool) → a || b ≡ false → (a ≡ false) × (b ≡ false)
or_false false false h = (refl, refl)
or_false false true h = (refl, h)
or_false true b h = (h, absurd (false≢true (sym h)))

has-cut_stem : (c : ℕ) (stem : Text) (k : ℕ) → has c stem ≡ false → has c (cut_stem stem k) ≡ false
has-cut_stem c stem k h = elim (Bool-cases (leb k 120)) [
  | inl e ↦ rw e (has-take c (120 - k) stem h)
  | inr e ↦ rw e (has-take c (length stem - (k - 120)) stem h)
]

has-cut_component : (c : ℕ) (n : Text) → has c n ≡ false → has c (cut_component n) ≡ false
has-cut_component c n h = elim (Bool-cases (ltb 120 (length n))) [
  | inr e ↦ rw e h
  | inl e ↦
      let (in_stem, in_ext) =
        or_false (has c (splitext n).0) (has c (splitext n).1)
          (sym (has-append c (splitext n).0 (splitext n).1) ∙ ap (has c) (splitext-append n) ∙ h) in
      rw e (
        has-append c (cut_stem (splitext n).0 (length (splitext n).1)) (splitext n).1
        ∙ ap₂ (λ (a b : Bool). a || b)
            (has-cut_stem c (splitext n).0 (length (splitext n).1) in_stem) in_ext)
]

no_separator :
    (c : ℕ) (t : Text)
    → (c ≡ b'/') ⊎ (c ≡ 92)
    → has c (replace 92 b'_' (replace b'/' b'_' t)) ≡ false
no_separator c t (inl slash) =
    has-replace-other c 92 b'_' _ (λ e. omega (arith, e, slash))
      (subst (λ (x : ℕ). has x (replace b'/' b'_' t) ≡ false) (sym slash)
        (has-replace b'/' b'_' t (λ e. omega (arith, e))))
no_separator c t (inr backslash) =
    subst (λ (x : ℕ). has x (replace 92 b'_' (replace b'/' b'_' t)) ≡ false) (sym backslash)
      (has-replace 92 b'_' (replace b'/' b'_' t) (λ e. omega (arith, e)))

not_underscore : (c : ℕ) → (c ≡ b'/') ⊎ (c ≡ 92) → c ≢ b'_'
not_underscore c (inl a) e = omega (arith, a, e)
not_underscore c (inr a) e = omega (arith, a, e)

module _ (uc : Unicode) where
  has-scrub : (c : ℕ) (n : Text) → (c ≡ b'/') ⊎ (c ≡ 92) → has c (scrub uc n) ≡ false
  unfolding scrub
  has-scrub c n sep =
      let visible = filter (λ d. not (uc.is_control d)) n in
      has-strip_by c _ _ (
        has-strip_by c _ _ (
          has-map-other c b'_' is_forbidden _ (not_underscore c sep)
            (has-drop_drive c _ (no_separator c visible sep))))

  accept_component-has :
      (c : ℕ) (n m : Text) → has c n ≡ false → accept_component uc n ≡ some m → has c m ≡ false
  unfolding accept_component
  accept_component-has c [] m h e = absurd (none-some e)
  accept_component-has c (d ∷ n) m h e =
      elim (Bool-cases (is_device (lower (first_part (split b'.' (d ∷ n)))))) [
        | inl device ↦ absurd (none-some (rw device at e))
        | inr other ↦
            subst (λ (x : Text). has c x ≡ false) (eq_of_some (rw other at e))
              (has-cut_component c (d ∷ n) h)
      ]

  -- A component that is let through has no slash and no backslash, whatever the client sent.
  pub sanitize_component-has :
      (c : ℕ) (name m : Text)
      → (c ≡ b'/') ⊎ (c ≡ 92)
      → sanitize_component uc name ≡ some m
      → has c m ≡ false
  unfolding sanitize_component
  sanitize_component-has c [] m sep e = absurd (none-some e)
  sanitize_component-has c (d ∷ name) m sep e = elim (Bool-cases (has 0 (uc.nfc (d ∷ name)))) [
    | inl nul ↦ absurd (none-some (rw nul at e))
    | inr no_nul ↦
        accept_component-has c (scrub uc (uc.nfc (d ∷ name))) m
          (has-scrub c (uc.nfc (d ∷ name)) sep) (rw no_nul at e)
  ]
