-- ===== src/Auth.antt =====
-- nhpc_qa/api/security/users.py: the tables users, sessions and auth_audit, and every operation that
-- writes them. Argon2 and SHA-256 are not implemented by the program: they are the parameter `Crypto`.
-- An AuthError with the one generic message is `none`.
pub mod Login
pub mod Lockout
pub mod Sessions
pub mod Deps
pub mod RateLimit
pub mod Policy
pub mod Accounts
use nhpc_parliament_rag_syst.Prelude.{
  ℕ, suc, ◌+◌, ◌*◌, Bool, true, false, not, ◌&&◌, ◌||◌, Option, none, some, List, [], ◌∷◌, ◌++◌,
  map, ltb, leb, ◌==◌, if◌then◌else◌, Text, text_eq, lower, strip,
}

-- argon2-cffi and hashlib, as the code uses them. `hash` is given the salt that the library draws.
pub record Crypto : Type 1 where
  pub Hash : Type 0
  pub hash : ℕ → Text → Hash
  pub verify : Text → Hash → Bool
  pub needs_rehash : Hash → Bool
  pub token_hash : Text → Text

pub record Config : Type 0 where
  pub max_failed_logins : ℕ
  pub lockout_seconds : ℕ
  pub session_seconds : ℕ

pub record User (Hash : Type 0) : Type 0 where
  pub user_id : ℕ
  pub email : Text
  pub password_hash : Hash
  pub role : Text
  pub is_active : Bool
  pub must_change_password : Bool
  pub failed_login_count : ℕ
  pub locked_until : Option ℕ
  pub last_login_at : Option ℕ

pub record Session : Type 0 where
  pub session_id : ℕ
  pub token_hash : Text
  pub user_id : ℕ
  pub expires_at : ℕ
  pub last_seen_at : ℕ
  pub revoked_at : Option ℕ

pub data Event : Type 0 where
  login_success login_failed login_locked access_denied user_created : Event

pub data Reason : Type 0 where
  no_reason no_such_user inactive locked not_admin : Reason
  bad_password : ℕ → Bool → Reason
  given_role : Text → Reason

pub record AuditRow : Type 0 where
  pub event : Event
  pub success : Bool
  pub target : Option ℕ
  pub reason : Reason

pub record Db (Hash : Type 0) : Type 0 where
  pub users : List (User Hash)
  pub sessions : List Session
  pub next_session : ℕ
  pub audit : List AuditRow

-- What a query on a session returns.
pub record Identity : Type 0 where
  pub session_id : ℕ
  pub user_id : ℕ
  pub email : Text
  pub role : Text
  pub must_change_password : Bool

-- The user's sessions that have not been revoked, less the one that is spared.
abbrev pub revokes : ℕ → Option ℕ → Session → Bool
revokes user_id spared s =
    s.user_id == user_id
    && elim s.revoked_at [ none ↦ true | some t ↦ false ]
    && elim spared [ none ↦ true | some i ↦ not (s.session_id == i) ]

abbrev pub revoke_all : ℕ → ℕ → Option ℕ → List Session → List Session
revoke_all now user_id spared =
    map (λ s. if revokes user_id spared s then record s { revoked_at = some now } else s)

module _ {H : Type 0} where
  unfoldable pub audit : Event → Bool → Option ℕ → Reason → Db H → Db H
  audit event success target reason db = record db {
    audit =
        db.audit
        ++ record { event = event; success = success; target = target; reason = reason } ∷ [];
  }

  -- The column is citext: it compares in one case. The caller has lowered `email`.
  abbrev pub has_email : Text → User H → Bool
  has_email email u = text_eq (lower u.email) email

  unfoldable pub get_by_email : Text → List (User H) → Option (User H)
  get_by_email email [] = none
  get_by_email email (u ∷ us) = if has_email email u then some u else get_by_email email us

  unfoldable pub get_by_id : ℕ → List (User H) → Option (User H)
  get_by_id i [] = none
  get_by_id i (u ∷ us) = if u.user_id == i then some u else get_by_id i us

  abbrev pub update_user : ℕ → (User H → User H) → List (User H) → List (User H)
  update_user i f = map (λ u. if u.user_id == i then f u else u)

  -- `locked_until and locked_until > now`
  abbrev pub is_locked : ℕ → User H → Bool
  is_locked now u = elim u.locked_until [ none ↦ false | some t ↦ ltb now t ]

  unfoldable pub set_active : ℕ → ℕ → Bool → Db H → Db H
  set_active now user_id active db =
      let us = update_user user_id (λ u. record u { is_active = active }) db.users in
      if active
      then record db { users = us }
      else record db { users = us; sessions = revoke_all now user_id none db.sessions }

-- The lock after a number of failures.
abbrev pub lock_after : Config → ℕ → ℕ → Option ℕ
lock_after cfg now fails =
    if leb cfg.max_failed_logins fails then some (now + cfg.lockout_seconds) else none

abbrev pub locks : Config → ℕ → Bool
locks cfg fails = leb cfg.max_failed_logins fails

-- What an attempt leaves: the tables, the user if it succeeded, and how many Argon2 verifications it
-- made, `burn_dummy_verify` included.
abbrev pub Attempt : Type 0 → Type 0
Attempt H = Db H × Option (User H) × ℕ

module _ (cr : Crypto) where
  open cr use {Hash, hash, verify, needs_rehash}

  -- A refusal after a dummy verification.
  refuse : Event → Option ℕ → Reason → Db Hash → Attempt Hash
  unfolding audit
  refuse event target reason db = (audit event false target reason db, none, 1)

  wrong_password : Config → ℕ → User Hash → Db Hash → Attempt Hash
  unfolding audit
  wrong_password cfg now u db =
      let fails = u.failed_login_count + 1 in
      let lock_to = lock_after cfg now fails in
      let db' = record db {
        users =
            update_user u.user_id
              (λ v. record v { failed_login_count = fails; locked_until = lock_to }) db.users;
      } in
      (
        audit login_failed false (some u.user_id) (bad_password fails (locks cfg fails)) db',
        none,
        1,
      )

  -- A stored hash of weaker parameters is replaced while the plaintext is at hand.
  right_password : ℕ → ℕ → Text → User Hash → Db Hash → Attempt Hash
  unfolding audit
  right_password now salt password u db =
      let us =
        update_user u.user_id
          (λ v. record v {
            failed_login_count = 0;
            locked_until = none;
            last_login_at = some now;
            password_hash =
                if needs_rehash u.password_hash then hash salt password else v.password_hash;
          })
          db.users in
      (
        audit login_success true (some u.user_id) no_reason (record db { users = us }),
        get_by_id u.user_id us,
        1,
      )

  try_user : Config → ℕ → ℕ → Text → User Hash → Db Hash → Attempt Hash
  unfolding refuse wrong_password right_password
  try_user cfg now salt password u db =
      if not u.is_active
      then refuse login_failed (some u.user_id) inactive db
      else if is_locked now u
      then refuse login_locked (some u.user_id) locked db
      else if verify password u.password_hash
      then right_password now salt password u db
      else wrong_password cfg now u db

  unfoldable pub authenticate : Config → ℕ → ℕ → Text → Text → Db Hash → Attempt Hash
  unfolding try_user get_by_email
  authenticate cfg now salt email password db = elim (get_by_email (lower (strip email)) db.users) [
    | none ↦ refuse login_failed none no_such_user db
    | some u ↦ try_user cfg now salt password u db
  ]

  unfoldable pub set_password : ℕ → ℕ → ℕ → Text → Bool → Option ℕ → Db Hash → Db Hash
  set_password now salt user_id new_password must_change spared db = record db {
    users =
        update_user user_id
          (λ u. record u {
            password_hash = hash salt new_password;
            must_change_password = must_change;
            failed_login_count = 0;
            locked_until = none;
          })
          db.users;
    sessions = revoke_all now user_id spared db.sessions;
  }

  -- `token` is what secrets.token_urlsafe draws; only its hash is stored.
  unfoldable pub create_session : Config → ℕ → ℕ → Text → Db Hash → Db Hash
  create_session cfg now user_id token db = record db {
    sessions =
        db.sessions
        ++ record {
          session_id = db.next_session;
          token_hash = cr.token_hash token;
          user_id = user_id;
          expires_at = now + cfg.session_seconds;
          last_seen_at = now;
          revoked_at = none;
        }
          ∷ [];
    next_session = suc db.next_session;
  }

  abbrev pub is_open : ℕ → Text → Session → Bool
  is_open now token s =
      text_eq s.token_hash (cr.token_hash token)
      && elim s.revoked_at [ none ↦ true | some t ↦ false ]
      && ltb now s.expires_at

  -- JOIN users u ON u.user_id = s.user_id AND u.is_active
  unfoldable pub join_user : ℕ → List (User Hash) → Option (User Hash)
  unfolding get_by_id
  join_user i us = elim (get_by_id i us) [
    | none ↦ none
    | some u ↦ if u.is_active then some u else none
  ]

  unfoldable pub identity_of : Session → User Hash → Identity
  identity_of s u = record {
    session_id = s.session_id;
    user_id = u.user_id;
    email = u.email;
    role = u.role;
    must_change_password = u.must_change_password;
  }

  unfoldable pub find_session : ℕ → Text → List (User Hash) → List Session → Option Identity
  unfolding join_user identity_of
  find_session now token us [] = none
  find_session now token us (s ∷ ss) =
      let rest = find_session now token us ss in
      if is_open now token s
      then elim (join_user s.user_id us) [ none ↦ rest | some u ↦ some (identity_of s u) ]
      else rest

  -- The write of last_seen_at.
  unfoldable pub touch : ℕ → Option Identity → Db Hash → Db Hash
  touch now none db = db
  touch now (some who) db = record db {
    sessions =
        map (λ s. if s.session_id == who.session_id then record s { last_seen_at = now } else s)
          db.sessions;
  }

  -- An empty token has no session.
  unfoldable pub resolve_session : ℕ → Text → Db Hash → Db Hash × Option Identity
  unfolding find_session touch
  resolve_session now [] db = (db, none)
  resolve_session now (c ∷ token) db =
      let who = find_session now (c ∷ token) db.users db.sessions in (touch now who db, who)

  unfoldable pub revoke_session : ℕ → Text → Db Hash → Db Hash
  revoke_session now token db = record db {
    sessions =
        map
          (λ s.
            if text_eq s.token_hash (cr.token_hash token)
              && elim s.revoked_at [ none ↦ true | some t ↦ false ]
            then record s { revoked_at = some now }
            else s)
          db.sessions;
  }
