-- ===== src/Auth/Accounts.antt =====
-- `create_user`, `admin_exists` and `any_user_exists` of nhpc_qa/api/security/users.py, and the first
-- login of a new user. `uid` is the identifier that the database draws.
use nhpc_parliament_rag_syst.Prelude.{
  ℕ, ◌≡◌, refl, ap, ap₂, sym, ◌∙◌, subst, Bool, true, false, not, ◌&&◌, ◌||◌, none, some, List, [],
  ◌∷◌, ◌++◌, any, length, leb, if◌then◌else◌, Text, codes, text_eq, text_eq_refl, has, lower,
  lower_char, strip, Bool-cases, inl, inr, arith,
}
use nhpc_parliament_rag_syst.Auth.{
  Crypto, Config, User, Db, user_created, given_role, audit, has_email, get_by_email, authenticate,
}
use nhpc_parliament_rag_syst.Auth.Login.{is_some, authenticate_exact}
use nhpc_parliament_rag_syst.Auth.Policy.{Problem, check_policy}

pub data CreateError : Type 0 where
  invalid_email unknown_role email_taken database_error : CreateError
  weak_password : List Problem → CreateError

pub record PasswordRules : Type 0 where
  pub roles : List Text
  pub password_min_length : ℕ
  pub is_decimal : ℕ → Bool

pub data Created (H : Type 0) : Type 0 where
  created : Db H → Created H
  refused : CreateError → Created H

-- `SELECT 1 FROM users WHERE role='admin' AND is_active LIMIT 1`
unfoldable pub admin_exists : {H : Type 0} → List (User H) → Bool
admin_exists us = any (λ u. text_eq u.role (codes "admin") && u.is_active) us

unfoldable pub any_user_exists : {H : Type 0} → List (User H) → Bool
any_user_exists us = any (λ u. true) us

abbrev pub is_email : Text → Bool
is_email e = has 64 e && leb 5 (length e)

-- CHECK (role IN ('admin', 'officer'))
abbrev allowed_role : Text → Bool
allowed_role r = text_eq r (codes "admin") || text_eq r (codes "officer")

module _ (cr : Crypto) where
  open cr use {Hash, hash, verify}

  -- The row, with the defaults of its columns.
  abbrev pub new_user : ℕ → ℕ → Text → Text → Text → Bool → User Hash
  new_user uid salt email password role must_change = record {
    user_id = uid;
    email = email;
    password_hash = hash salt password;
    role = role;
    is_active = true;
    must_change_password = must_change;
    failed_login_count = 0;
    locked_until = none;
    last_login_at = none;
  }

  unfoldable pub insert_user : User Hash → Db Hash → Created Hash
  unfolding audit
  insert_user u db =
      if any (has_email (lower u.email)) db.users
      then refused email_taken
      else if allowed_role u.role
      then created (
          audit user_created true (some u.user_id) (given_role u.role)
            (record db { users = db.users ++ u ∷ [] }))
      else refused database_error

  abbrev pub with_problems : List Problem → Created Hash → Created Hash
  with_problems [] out = out
  with_problems (p ∷ ps) out = refused (weak_password (p ∷ ps))

  unfoldable pub create_user :
      PasswordRules → ℕ → ℕ → Text → Text → Text → Bool → Db Hash → Created Hash
  unfolding insert_user
  create_user rules uid salt raw_email password role must_change db =
      let email = lower (strip raw_email) in
      if not (is_email email)
      then refused invalid_email
      else if not (any (λ r. text_eq r role) rules.roles)
      then refused unknown_role
      else with_problems
          (check_policy rules.is_decimal rules.password_min_length password (some email))
          (insert_user (new_user uid salt email password role must_change) db)

  lower_char_twice : (c : ℕ) → lower_char (lower_char c) ≡ lower_char c
  lower_char_twice c = ground arith

  lower_twice : (t : Text) → lower (lower t) ≡ lower t
  lower_twice [] = refl
  lower_twice (c ∷ t) = ap₂ (λ (x : ℕ) (y : Text). x ∷ y) (lower_char_twice c) (lower_twice t)

  get_by_email-new :
      (email : Text) (u : User Hash) (us : List (User Hash))
      → any (has_email email) us ≡ false
      → has_email email u ≡ true
      → get_by_email email (us ++ u ∷ []) ≡ some u
  unfolding get_by_email
  get_by_email-new email u [] h own = rw own refl
  get_by_email-new email u (v ∷ us) h own =
      let other : has_email email v ≡ false = ground (arith, h) in
      rw other (get_by_email-new email u us (ground (arith, h)) own)

  refused_created : {x : CreateError} {d : Db Hash} → refused x ≡ created d → ⊥
  refused_created h = cc

  users_of : Created Hash → List (User Hash)
  users_of (created d) = d.users
  users_of (refused x) = []

  -- What the insertion leaves.
  insert_user-created :
      (u : User Hash) (db db' : Db Hash)
      → insert_user u db ≡ created db'
      → (any (has_email (lower u.email)) db.users ≡ false) × (db.users ++ u ∷ [] ≡ db'.users)
  unfolding insert_user audit users_of
  insert_user-created u db db' h = elim (Bool-cases (any (has_email (lower u.email)) db.users)) [
    | inl e ↦ absurd (refused_created (rw e at h))
    | inr e ↦ elim (Bool-cases (allowed_role u.role)) [
      | inr f ↦ absurd (refused_created (rw (e, f) at h))
      | inl f ↦ (e, ap users_of (rw (e, f) at h))
    ]
  ]

  with_problems-created :
      (ps : List Problem) (out : Created Hash) (db' : Db Hash)
      → with_problems ps out ≡ created db'
      → (ps ≡ []) × (out ≡ created db')
  with_problems-created [] out db' h = (refl, h)
  with_problems-created (p ∷ ps) out db' h = cc

  -- A user is created only if the password passes the policy.
  create_user-created :
      (rules : PasswordRules) (uid salt : ℕ) (raw_email password role : Text) (must_change : Bool)
      (db db' : Db Hash)
      → create_user rules uid salt raw_email password role must_change db ≡ created db'
      → (check_policy rules.is_decimal rules.password_min_length password
            (some (lower (strip raw_email)))
          ≡ [])
        × (insert_user (new_user uid salt (lower (strip raw_email)) password role must_change) db
            ≡ created db')
  unfolding create_user
  create_user-created rules uid salt raw_email password role must_change db db' h =
      elim (Bool-cases (is_email (lower (strip raw_email)))) [
        | inr e ↦ absurd (refused_created (rw e at h))
        | inl e ↦ elim (Bool-cases (any (λ r. text_eq r role) rules.roles)) [
          | inr f ↦ absurd (refused_created (rw (e, f) at h))
          | inl f ↦ with_problems-created _ _ db' (rw (e, f) at h)
        ]
      ]

  -- A new user can log in at once. If `create_user` succeeds, the password passed the policy, and with it
  -- any spelling of the email that differs in case or in surrounding space gets in, for a hash that
  -- verifies the password it was made from.
  pub create_user-authenticate :
      (rules : PasswordRules) (cfg : Config) (uid salt now salt' : ℕ)
      (raw_email typed password role : Text) (must_change : Bool) (db db' : Db Hash)
      → ((s : ℕ) (p : Text) → verify p (hash s p) ≡ true)
      → create_user rules uid salt raw_email password role must_change db ≡ created db'
      → lower (strip typed) ≡ lower (strip raw_email)
      → (check_policy rules.is_decimal rules.password_min_length password
            (some (lower (strip raw_email)))
          ≡ [])
        × (is_some (authenticate cr cfg now salt' typed password db').1 ≡ true)
  create_user-authenticate rules cfg uid salt now salt' raw_email typed password role must_change db
        db' law h same =
      let email = lower (strip raw_email) in
      let u = new_user uid salt email password role must_change in
      let (good, inserted) =
        create_user-created rules uid salt raw_email password role must_change db db' h in
      let (free, users) = insert_user-created u db db' inserted in
      let twice : lower email ≡ email = lower_twice (strip raw_email) in
      let found : get_by_email (lower (strip typed)) db'.users ≡ some u =
        ap₂ (λ (t : Text) (us : List (User Hash)). get_by_email t us) same (sym users)
        ∙ get_by_email-new email u db.users
            (subst (λ (t : Text). any (has_email t) db.users ≡ false) twice free)
            (ap (λ (t : Text). text_eq t email) twice ∙ text_eq_refl email) in
      (
        good,
        (authenticate_exact cr cfg now salt' password typed db').1
            (u, found, refl, refl, law salt password),
      )
