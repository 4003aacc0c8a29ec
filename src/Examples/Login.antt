-- ===== src/Examples/Login.antt =====
-- Runs of nhpc_qa/api/security/users.py and deps.py with one user.
use nhpc_parliament_rag_syst.Prelude.{
  Bool, List, ◌+◌, ◌*◌, any, inr, split, leb, ◌&&◌, text_eq_refl, ℕ, ◌≡◌, ◌≢◌, ◌↔◌, ◌≤◌, refl, true,
  false, none, some, [], ◌∷◌, Text, codes, text_eq, arith, strip_by, is_space,
}
use nhpc_parliament_rag_syst.Auth.{
  Crypto, Config, User, Session, Db, Identity, get_by_email, authenticate, set_active,
  resolve_session,
}
use nhpc_parliament_rag_syst.Auth.Login.{is_some, MayEnter, authenticate_exact}
use nhpc_parliament_rag_syst.Auth.Policy.{check_policy}
use nhpc_parliament_rag_syst.Auth.Accounts.{
  PasswordRules, Created, created, refused, create_user, create_user-authenticate,
}
use nhpc_parliament_rag_syst.Auth.Lockout.{run_tries, lockout_holds}
use nhpc_parliament_rag_syst.Auth.Sessions.{is_left, set_active-resolve_session}
use nhpc_parliament_rag_syst.Auth.RateLimit.{run, successes, rate_limit_bounds}
use nhpc_parliament_rag_syst.Auth.Deps.{admin_role}

-- A password is its own hash.
abbrev plain : Crypto
plain = record {
  Hash = Text;
  hash = λ salt p. p;
  verify = λ p h. text_eq p h;
  needs_rehash = λ h. false;
  token_hash = λ t. t;
}

abbrev config : Config
config = record { max_failed_logins = 2; lockout_seconds = 900; session_seconds = 3600 }

abbrev email : Text
email = codes "a@b.c"

abbrev officer : User Text
officer = record {
  user_id = 7;
  email = email;
  password_hash = codes "right";
  role = admin_role;
  is_active = true;
  must_change_password = false;
  failed_login_count = 0;
  locked_until = none;
  last_login_at = none;
}

abbrev session : ℕ → Text → Session
session i token = record {
  session_id = i;
  token_hash = token;
  user_id = 7;
  expires_at = 1000;
  last_seen_at = 0;
  revoked_at = none;
}

abbrev db : Db Text
db = record {
  users = officer ∷ [];
  sessions = session 1 (codes "t1") ∷ session 2 (codes "t2") ∷ [];
  next_session = 3;
  audit = [];
}

abbrev identity : Identity
identity = record {
  session_id = 1;
  user_id = 7;
  email = email;
  role = admin_role;
  must_change_password = false;
}

authenticate_exact_example :
    (is_some (authenticate plain config 5 0 email (codes "right") db).1 ≡ true)
    ↔ MayEnter plain config 5 0 (codes "right") email db
authenticate_exact_example = authenticate_exact plain config 5 0 (codes "right") email db

lockout_holds_example :
    let db' = run_tries plain config email ((5, 0, codes "x") ∷ (6, 0, codes "y") ∷ []) db in
    ((authenticate plain config 100 0 email (codes "right") db').1 ≡ none)
    × ((authenticate plain config 100 0 email (codes "right") db').0.users ≡ db'.users)
unfolding get_by_email strip_by is_space
lockout_holds_example =
    lockout_holds plain config email 5 0 (codes "x") ((6, 0, codes "y") ∷ []) officer db 100 0
      (codes "right") (refl, refl, refl) (refl, (refl, tt)) refl (omega arith)

-- With a second user, whose session outlives the deactivation of the first.
abbrev two_users : Db Text
two_users = record db {
  users = officer ∷ record officer { user_id = 8 } ∷ [];
  sessions = record (session 1 (codes "t1")) { user_id = 8 } ∷ session 2 (codes "t2") ∷ [];
}

abbrev other : Identity
other = record identity { user_id = 8 }

set_active-resolve_session_example :
    (other.user_id ≢ 7) × (any (is_left plain 7) (set_active 5 7 false two_users).sessions ≡ false)
unfolding resolve_session set_active
set_active-resolve_session_example =
    set_active-resolve_session plain 5 9 8 7 (codes "t1") two_users other (inr refl)

abbrev five_tries : List (ℕ × Bool)
five_tries = (10, false) ∷ (20, false) ∷ (15, true) ∷ (30, true) ∷ (35, false) ∷ []

rate_limit_bounds_example : run 60 2 (3 ∷ []) five_tries ≤ 2 + 2 * successes five_tries
rate_limit_bounds_example = rate_limit_bounds 60 2 10 (3 ∷ []) five_tries (
  (omega arith, omega arith),
  (
    (omega arith, omega arith),
    ((omega arith, omega arith), ((omega arith, omega arith), ((omega arith, omega arith), tt))),
  ),
)

abbrev db_of : Db Text → Created Text → Db Text
db_of d (created d') = d'
db_of d (refused e) = d

abbrev rules : PasswordRules
rules = record {
  roles = codes "admin" ∷ codes "officer" ∷ [];
  password_min_length = 12;
  is_decimal = λ c. leb 48 c && leb c 57;
}

create_user-authenticate_example :
    let password = codes "Teesta-flows-4" in
    (check_policy rules.is_decimal 12 password (some (codes "new@nhpc.in")) ≡ [])
    × (is_some
          (authenticate plain config 50 0 (codes " New@nhpc.in") password (
            db_of db (
              create_user plain rules 9 0
                (codes "NEW@nhpc.in ")
                password
                (codes "officer")
                true
                db))).1
        ≡ true)
unfolding create_user strip_by is_space check_policy split
create_user-authenticate_example =
    create_user-authenticate plain rules config 9 0 50 0 (codes "NEW@nhpc.in ")
      (codes " New@nhpc.in") (codes "Teesta-flows-4") (codes "officer") true db
      (db_of db (
        create_user plain rules 9 0 (codes "NEW@nhpc.in ") (codes "Teesta-flows-4")
          (codes "officer") true db))
      (λ s p. text_eq_refl p) refl refl
