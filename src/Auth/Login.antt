-- ===== src/Auth/Login.antt =====
-- `authenticate` of nhpc_qa/api/security/users.py: what every attempt leaves behind, and what a caller
-- can learn from a refusal.
use nhpc_parliament_rag_syst.Prelude.{
  ℕ, ◌≡◌, refl, ap, sym, Bool, true, false, Option, none, some, List, [], ◌∷◌, ◌++◌, arith, ◌==◌,
  Text, lower, strip, Bool-cases, inl, inr, Option-cases, false≢true, ◌↔◌, eq_of_some, none-some,
  subst,
}
use nhpc_parliament_rag_syst.Auth.{
  Crypto, Config, User, Db, AuditRow, audit, get_by_email, get_by_id, has_email, update_user,
  is_locked, refuse, wrong_password, right_password, try_user, authenticate,
}

module _ {H : Type 0} where
  pub get_by_email-update :
      (email : Text) (f : User H → User H) (us : List (User H)) (u : User H)
      → ((v : User H) → (f v).email ≡ v.email)
      → get_by_email email us ≡ some u
      → get_by_email email (update_user u.user_id f us) ≡ some (f u)
  unfolding get_by_email
  get_by_email-update email f [] u keep h = cc
  get_by_email-update email f (v ∷ vs) u keep h = elim (Bool-cases (has_email email v)) [
    | inl hit ↦
        let same : v ≡ u = eq_of_some (rw hit at h) in
        subst (λ (w : User H). get_by_email email (update_user w.user_id f (v ∷ vs)) ≡ some (f w))
          same (ground (arith, keep v, hit))
    | inr miss ↦ ground (arith, keep v, miss, get_by_email-update email f vs u keep (rw miss at h))
  ]

  pub get_by_id-update :
      (i : ℕ) (f : User H → User H) (us : List (User H)) (u : User H)
      → ((v : User H) → (f v).user_id ≡ v.user_id)
      → get_by_id i us ≡ some u
      → get_by_id i (update_user i f us) ≡ some (f u)
  unfolding get_by_id
  get_by_id-update i f [] u keep h = cc
  get_by_id-update i f (v ∷ vs) u keep h = ground (arith, keep v, get_by_id-update i f vs u keep)

  -- The user that an email finds has an id that finds some user.
  pub get_by_id-of_email :
      (email : Text) (us : List (User H)) (u : User H)
      → get_by_email email us ≡ some u
      → (v : User H) × (get_by_id u.user_id us ≡ some v)
  unfolding get_by_email get_by_id
  get_by_id-of_email email [] u h = absurd (none-some h)
  get_by_id-of_email email (v ∷ vs) u h = elim (Bool-cases (has_email email v)) [
    | inl hit ↦
        let same : v.user_id ≡ u.user_id =
          ap (λ (w : User H). w.user_id) (eq_of_some (rw hit at h)) in
        (v, ground (arith, same))
    | inr miss ↦ elim (Bool-cases (v.user_id == u.user_id)) [
      | inl hit ↦ (v, rw hit)
      | inr other ↦ let (w, e) = get_by_id-of_email email vs u (rw miss at h) in (w, rw other e)
    ]
  ]

abbrev pub is_some {ℓ} : {A : Type ℓ} → Option A → Bool
is_some none = false
is_some (some a) = true

module _ (cr : Crypto) (cfg : Config) (now salt : ℕ) (password : Text) where
  open cr use {Hash, verify}

  abbrev pub OneRow : Db Hash → Db Hash × Option (User Hash) × ℕ → Type 0
  OneRow db out =
      ((row : AuditRow) × (out.0.audit ≡ db.audit ++ row ∷ []) × (row.success ≡ is_some out.1))
      × (out.2 ≡ 1)

  right_password-OneRow :
      (email : Text) (u : User Hash) (db : Db Hash)
      → get_by_email email db.users ≡ some u
      → OneRow db (right_password cr now salt password u db)
  unfolding right_password audit
  right_password-OneRow email u db h =
      let (v, e) = get_by_id-of_email email db.users u h in
      let found = get_by_id-update u.user_id _ db.users v (λ w. refl) e in
      ((_, refl, sym (ap is_some found)), refl)

  try_user-OneRow :
      (email : Text) (u : User Hash) (db : Db Hash)
      → get_by_email email db.users ≡ some u
      → OneRow db (try_user cr cfg now salt password u db)
  unfolding try_user refuse wrong_password audit
  try_user-OneRow email u db h = elim (Bool-cases u.is_active) [
    | inr off ↦ rw (off, try_user) ((_, refl, refl), refl)
    | inl on ↦ elim (Bool-cases (is_locked now u)) [
      | inl shut ↦ rw (on, try_user) (rw shut ((_, refl, refl), refl))
      | inr open' ↦ elim (Bool-cases (verify password u.password_hash)) [
        | inl good ↦ rw (on, try_user) (rw open' (rw good (right_password-OneRow email u db h)))
        | inr bad ↦ rw (on, try_user) (rw open' (rw bad ((_, refl, refl), refl)))
      ]
    ]
  ]

  -- Every attempt, on every branch, makes exactly one Argon2 verification, a dummy one included, and
  -- adds exactly one row to the audit, which is marked a success exactly when a user is returned.
  authenticate_audits :
      (email : Text) (db : Db Hash) → OneRow db (authenticate cr cfg now salt email password db)
  unfolding authenticate refuse audit
  authenticate_audits email db = elim (Option-cases (get_by_email (lower (strip email)) db.users)) [
    | inl e ↦ rw (e, authenticate) ((_, refl, refl), refl)
    | inr (u, e) ↦ rw (e, authenticate) (try_user-OneRow (lower (strip email)) u db e)
  ]

  -- What a login needs.
  abbrev pub MayEnter : Text → Db Hash → Type 0
  MayEnter email db =
      (u : User Hash) × (get_by_email (lower (strip email)) db.users ≡ some u)
      × (u.is_active ≡ true)
      × (is_locked now u ≡ false)
      × (verify password u.password_hash ≡ true)

  try_user_sound :
      (u : User Hash) (db : Db Hash)
      → is_some (try_user cr cfg now salt password u db).1 ≡ true
      → (u.is_active ≡ true) × (is_locked now u ≡ false) × (verify password u.password_hash ≡ true)
  unfolding try_user refuse wrong_password
  try_user_sound u db h = ground arith

  authenticate_sound :
      (email : Text) (db : Db Hash)
      → is_some (authenticate cr cfg now salt email password db).1 ≡ true
      → MayEnter email db
  unfolding authenticate refuse
  authenticate_sound email db h =
      elim (Option-cases (get_by_email (lower (strip email)) db.users)) [
        | inl e ↦ absurd (false≢true (rw (e, authenticate) at h))
        | inr (u, e) ↦
            let (a, b, c) = try_user_sound u db (rw (e, authenticate) at h) in (u, e, a, b, c)
      ]

  right_password-some :
      (email : Text) (u : User Hash) (db : Db Hash)
      → get_by_email email db.users ≡ some u
      → is_some (right_password cr now salt password u db).1 ≡ true
  unfolding right_password
  right_password-some email u db h =
      let (v, e) = get_by_id-of_email email db.users u h in
      ap is_some (get_by_id-update u.user_id _ db.users v (λ w. refl) e)

  authenticate_complete :
      (email : Text) (db : Db Hash)
      → MayEnter email db
      → is_some (authenticate cr cfg now salt email password db).1 ≡ true
  unfolding authenticate try_user
  authenticate_complete email db (u, e, on, open', good) =
      rw (e, authenticate)
        (rw (on, try_user) (rw open' (rw good (right_password-some (lower (strip email)) u db e))))

  -- A user is returned exactly when the email belongs to an active user who is not locked at that
  -- moment and whose stored hash verifies the password.
  pub authenticate_exact :
      (email : Text) (db : Db Hash)
      → (is_some (authenticate cr cfg now salt email password db).1 ≡ true) ↔ MayEnter email db
  authenticate_exact email db = (authenticate_sound email db, authenticate_complete email db)
