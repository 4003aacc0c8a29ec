-- ===== src/Auth/Deps.antt =====
-- The request gates of nhpc_qa/api/security/deps.py: `current_user`, `require_user`, `require_admin`,
-- on a path and the token that the cookie carries.
use nhpc_parliament_rag_syst.Prelude.{
  ℕ, Bool, false, not, ◌&&◌, ◌||◌, Option, none, some, if◌then◌else◌, Text, codes, text_eq,
}
use nhpc_parliament_rag_syst.Auth.{
  Crypto, Identity, Db, audit, access_denied, not_admin, resolve_session,
}

-- The shape that everything downstream consumes.
pub record Who : Type 0 where
  pub email : Text
  pub user_role : Text
  pub must_change_password : Bool
  pub db_user_id : Option ℕ
  pub session_id : Option ℕ

-- 401, the two kinds of 403, or the user.
pub data Gate : Type 0 where
  not_authenticated password_change_required admin_required : Gate
  allowed : Who → Gate

abbrev pub officer1 : Who
officer1 = record {
  email = codes "officer1";
  user_role = codes "officer";
  must_change_password = false;
  db_user_id = none;
  session_id = none;
}

abbrev pub who_of : Identity → Who
who_of i = record {
  email = i.email;
  user_role = i.role;
  must_change_password = i.must_change_password;
  db_user_id = some i.user_id;
  session_id = some i.session_id;
}

abbrev pub may_owe : Text → Bool
may_owe path =
    text_eq path (codes "/auth/change-password")
    || text_eq path (codes "/auth/me")
    || text_eq path (codes "/auth/logout")

abbrev pub owes_change : Text → Who → Bool
owes_change path who = who.must_change_password && not (may_owe path)

unfoldable pub gate_user : Text → Option Who → Gate
gate_user path none = not_authenticated
gate_user path (some who) = if owes_change path who then password_change_required else allowed who

abbrev pub admin_role : Text
admin_role = codes "admin"

module _ (cr : Crypto) where
  open cr use {Hash}

  -- With authentication switched off, the fixed legacy identity.
  unfoldable pub current_user : Bool → ℕ → Text → Db Hash → Db Hash × Option Who
  current_user auth_enabled now token db =
      if auth_enabled
      then (let (db', who) = resolve_session cr now token db in
          (db', elim who [ none ↦ none | some i ↦ some (who_of i) ]))
      else (db, some officer1)

  unfoldable pub require_user : Bool → ℕ → Text → Text → Db Hash → Db Hash × Gate
  unfolding current_user gate_user
  require_user auth_enabled now path token db =
      let (db', who) = current_user auth_enabled now token db in (db', gate_user path who)

  -- A denial of a user who is no administrator is audited.
  unfoldable pub gate_admin : Db Hash × Gate → Db Hash × Gate
  unfolding audit
  gate_admin (db, allowed who) =
      if text_eq who.user_role admin_role
      then (db, allowed who)
      else (audit access_denied false who.db_user_id not_admin db, admin_required)
  gate_admin (db, not_authenticated) = (db, not_authenticated)
  gate_admin (db, password_change_required) = (db, password_change_required)
  gate_admin (db, admin_required) = (db, admin_required)

  unfoldable pub require_admin : Bool → ℕ → Text → Text → Db Hash → Db Hash × Gate
  unfolding require_user gate_admin
  require_admin auth_enabled now path token db =
      gate_admin (require_user auth_enabled now path token db)
