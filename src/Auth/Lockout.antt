-- ===== src/Auth/Lockout.antt =====
-- The lockout of nhpc_qa/api/security/users.py: wrong passwords in a row, and what follows them.
use nhpc_parliament_rag_syst.Prelude.{
  ℕ, suc, ◌+◌, ◌<◌, ◌≡◌, refl, ap, ◌∙◌, true, false, Option, none, some, List, [], ◌∷◌, arith, ltb,
  Text, lower, strip, length, All, lt→ltb,
}
use nhpc_parliament_rag_syst.Auth.{
  Crypto, Config, User, Db, audit, get_by_email, is_locked, lock_after, refuse, wrong_password,
  login_locked, locked, try_user, authenticate,
}
use nhpc_parliament_rag_syst.Auth.Login.{get_by_email-update}

-- An attempt: when, the salt that a rehash would draw, and the password.
abbrev pub Try : Type 0
Try = ℕ × ℕ × Text

abbrev pub last_time : ℕ → List Try → ℕ
last_time t [] = t
last_time t ((now, salt, password) ∷ ts) = last_time now ts

abbrev pub failed_once : Config → ℕ → {H : Type 0} → User H → User H
failed_once cfg now u = record u {
  failed_login_count = u.failed_login_count + 1;
  locked_until = lock_after cfg now (u.failed_login_count + 1);
}

module _ (cr : Crypto) (cfg : Config) (email : Text) where
  open cr use {Hash, verify}

  -- Attempts one after the other.
  unfoldable pub run_tries : List Try → Db Hash → Db Hash
  run_tries [] db = db
  run_tries ((now, salt, password) ∷ ts) db =
      run_tries ts (authenticate cr cfg now salt email password db).0

  abbrev pub IsWrong : User Hash → Try → Type 0
  IsWrong u (now, salt, password) = verify password u.password_hash ≡ false

  -- A user that the email finds, active, with no lock and `f` failures so far.
  abbrev pub IsTarget : User Hash → Db Hash → Type 0
  IsTarget u db =
      (get_by_email (lower (strip email)) db.users ≡ some u)
      × (u.is_active ≡ true)
      × (u.locked_until ≡ none)

  try_user-wrong :
      (now salt : ℕ) (password : Text) (u : User Hash) (db : Db Hash)
      → u.is_active ≡ true
      → is_locked now u ≡ false
      → verify password u.password_hash ≡ false
      → try_user cr cfg now salt password u db ≡ wrong_password cr cfg now u db
  unfolding try_user
  try_user-wrong now salt password u db on open' bad = rw (on, try_user) (rw open' (rw bad refl))

  try_user-locked :
      (now salt : ℕ) (password : Text) (u : User Hash) (db : Db Hash)
      → u.is_active ≡ true
      → is_locked now u ≡ true
      → try_user cr cfg now salt password u db ≡ refuse cr login_locked (some u.user_id) locked db
  unfolding try_user
  try_user-locked now salt password u db on shut = rw (on, try_user) (rw shut refl)

  wrong_try :
      (now salt : ℕ) (password : Text) (u : User Hash) (db : Db Hash)
      → IsTarget u db
      → verify password u.password_hash ≡ false
      → get_by_email (lower (strip email)) (authenticate cr cfg now salt email password db).0.users
        ≡ some (failed_once cfg now u)
  unfolding authenticate wrong_password audit
  wrong_try now salt password u db (found, on, unlocked) bad =
      let open' : is_locked now u ≡ false = ground arith in
      rw (found, authenticate)
        (rw (try_user-wrong now salt password u db on open' bad)
          (get_by_email-update (lower (strip email)) _ db.users u (λ v. refl) found))

  locked_after_tries :
      (now salt : ℕ) (password : Text) (ts : List Try) (u : User Hash) (db : Db Hash)
      → IsTarget u db
      → All (IsWrong u) ((now, salt, password) ∷ ts)
      → u.failed_login_count + suc (length ts) ≡ cfg.max_failed_logins
      → (v : User Hash) × (get_by_email
            (lower (strip email))
            (run_tries ((now, salt, password) ∷ ts) db).users
          ≡ some v)
        × (v.is_active ≡ true)
        × (v.locked_until ≡ some (last_time now ts + cfg.lockout_seconds))
  unfolding run_tries
  locked_after_tries now salt password [] u db target wrong n = (
    failed_once cfg now u,
    wrong_try now salt password u db target wrong.0,
    target.1,
    ground arith,
  )
  locked_after_tries now salt password ((now', salt', password') ∷ ts) u db target wrong n =
      locked_after_tries now' salt' password' ts (failed_once cfg now u)
        (authenticate cr cfg now salt email password db).0
        (wrong_try now salt password u db target wrong.0, target.1, ground arith) wrong.1
        (omega arith)

  -- After as many wrong passwords in a row as the limit allows, every further attempt before the lock
  -- ends is refused, the right password included, and changes no user.
  pub lockout_holds :
      (now salt : ℕ) (password : Text) (ts : List Try) (u : User Hash) (db : Db Hash)
      (later salt' : ℕ) (guess : Text)
      → IsTarget u db
      → All (IsWrong u) ((now, salt, password) ∷ ts)
      → u.failed_login_count + suc (length ts) ≡ cfg.max_failed_logins
      → later < last_time now ts + cfg.lockout_seconds
      → let db' = run_tries ((now, salt, password) ∷ ts) db in
        ((authenticate cr cfg later salt' email guess db').1 ≡ none)
        × ((authenticate cr cfg later salt' email guess db').0.users ≡ db'.users)
  unfolding authenticate refuse audit
  lockout_holds now salt password ts u db later salt' guess target wrong n early =
      let (v, found, on, until) = locked_after_tries now salt password ts u db target wrong n in
      let shut : is_locked later v ≡ true =
        ap (λ (o : Option ℕ). elim o [ none ↦ false | some t ↦ ltb later t ]) until
        ∙ lt→ltb later (last_time now ts + cfg.lockout_seconds) early in
      rw (found, authenticate)
        (rw
          (try_user-locked later salt' guess v (run_tries ((now, salt, password) ∷ ts) db) on shut)
          (refl, refl))
