-- ===== src/Auth/Sessions.antt =====
-- Sessions of nhpc_qa/api/security/users.py: a token opens a session until it expires, is revoked, or
-- its user is deactivated or changes the password.
use nhpc_parliament_rag_syst.Prelude.{
  ℕ, Memᴰ, ◌+◌, ◌<◌, ◌≡◌, ◌≢◌, refl, ap, sym, ◌∙◌, Bool, true, false, ◌&&◌, Option, none, some,
  List, [], ◌∷◌, ◌++◌, arith, ◌==◌, ==_iff, if◌then◌else◌, Text, text_eq, text_eq_refl, text_eq→eq,
  Bool-cases, inl, inr, Option-cases, any, eq_of_some, none-some, if_some, ◌⊎◌, lt→ltb, map,
}
use mathlib.Core.List.Memᴰ.{head, tail}
use nhpc_parliament_rag_syst.Auth.{
  Crypto, Config, User, Session, Identity, Db, get_by_id, update_user, revokes, revoke_all,
  set_active, set_password, create_session, is_open, join_user, identity_of, find_session,
  resolve_session, revoke_session,
}

module _ {H : Type 0} where
  pub get_by_id-id :
      (i : ℕ) (us : List (User H)) (u : User H) → get_by_id i us ≡ some u → u.user_id ≡ i
  unfolding get_by_id
  get_by_id-id i [] u h = absurd (none-some h)
  get_by_id-id i (v ∷ vs) u h = elim (Bool-cases (v.user_id == i)) [
    | inl hit ↦
        ap (λ (w : User H). w.user_id) (sym (eq_of_some (rw hit at h))) ∙ (==_iff v.user_id i).0 hit
    | inr miss ↦ get_by_id-id i vs u (rw miss at h)
  ]

  -- After an update of one user by a function that makes it inactive, the user is inactive.
  deactivated :
      (i : ℕ) (us : List (User H)) (u : User H)
      → get_by_id i (update_user i (λ v. record v { is_active = false }) us) ≡ some u
      → u.is_active ≡ false
  unfolding get_by_id
  deactivated i [] u h = absurd (none-some h)
  deactivated i (v ∷ vs) u h = elim (Bool-cases (v.user_id == i)) [
    | inl hit ↦ ground (arith, hit, h)
    | inr miss ↦ ground (arith, miss, h, deactivated i vs u)
  ]

module _ (cr : Crypto) where
  open cr use {Hash}

  join_user-active :
      (i : ℕ) (us : List (User Hash)) (u : User Hash)
      → join_user cr i us ≡ some u
      → (get_by_id i us ≡ some u) × (u.is_active ≡ true)
  unfolding join_user
  join_user-active i us u h = elim (Option-cases (get_by_id i us)) [
    | inl e ↦ absurd (none-some (rw (e, join_user) at h))
    | inr (v, e) ↦
        let (on, same) = if_some v.is_active v (rw (e, join_user) at h) in
        (e ∙ ap some same, ap (λ (w : User Hash). w.is_active) (sym same) ∙ on)
  ]

  -- Who a session finds is an active user.
  pub find_session-active :
      (now : ℕ) (token : Text) (us : List (User Hash)) (ss : List Session) (who : Identity)
      → find_session cr now token us ss ≡ some who
      → (u : User Hash) × (get_by_id who.user_id us ≡ some u)
        × (u.is_active ≡ true)
        × (u.role ≡ who.role)
  unfolding find_session identity_of
  find_session-active now token us [] who h = absurd (none-some h)
  find_session-active now token us (s ∷ ss) who h = elim (Bool-cases (is_open cr now token s)) [
    | inr shut ↦ find_session-active now token us ss who (rw (shut, find_session) at h)
    | inl open' ↦ elim (Option-cases (join_user cr s.user_id us)) [
      | inl e ↦ find_session-active now token us ss who (rw e at (rw (open', find_session) at h))
      | inr (u, e) ↦
          let (found, on) = join_user-active s.user_id us u e in
          let who' : identity_of cr s u ≡ who =
            eq_of_some (rw e at (rw (open', find_session) at h)) in
          let same : u.user_id ≡ who.user_id = ap (λ (w : Identity). w.user_id) who' in
          (
            u,
            ap (λ (i : ℕ). get_by_id i us) (sym same ∙ get_by_id-id s.user_id us u found) ∙ found,
            on,
            ap (λ (w : Identity). w.role) who',
          )
    ]
  ]

  -- Where a search that succeeds found its session.
  find_session-cons :
      (now : ℕ) (token : Text) (us : List (User Hash)) (s : Session) (ss : List Session)
      (who : Identity)
      → find_session cr now token us (s ∷ ss) ≡ some who
      → (find_session cr now token us ss ≡ some who)
        ⊎ ((u : User Hash) × (is_open cr now token s ≡ true)
            × (join_user cr s.user_id us ≡ some u)
            × (identity_of cr s u ≡ who))
  unfolding find_session
  find_session-cons now token us s ss who h = elim (Bool-cases (is_open cr now token s)) [
    | inr shut ↦ inl (rw (shut, find_session) at h)
    | inl open' ↦ elim (Option-cases (join_user cr s.user_id us)) [
      | inl e ↦ inl (rw e at (rw (open', find_session) at h))
      | inr (u, e) ↦ inr (u, open', e, eq_of_some (rw e at (rw (open', find_session) at h)))
    ]
  ]

  -- The session by which a token finds a user: it is in the table, the token hashes to its stored hash,
  -- it is not revoked and has not expired, and it belongs to the user that is found.
  abbrev pub IsHeld : ℕ → Text → List Session → Identity → Session → Type 0
  IsHeld now token ss who s =
      Memᴰ s ss
      × (s.token_hash ≡ cr.token_hash token)
      × (s.revoked_at ≡ none)
      × (now < s.expires_at)
      × (s.user_id ≡ who.user_id)
      × (s.session_id ≡ who.session_id)

  is_open-held :
      (now : ℕ) (token : Text) (s : Session)
      → is_open cr now token s ≡ true
      → (s.token_hash ≡ cr.token_hash token) × (s.revoked_at ≡ none) × (now < s.expires_at)
  is_open-held now token s h =
      (text_eq→eq s.token_hash (cr.token_hash token) (ground arith), ground arith, ground arith)

  pub find_session-IsHeld :
      (now : ℕ) (token : Text) (us : List (User Hash)) (ss : List Session) (who : Identity)
      → find_session cr now token us ss ≡ some who
      → (s : Session) × IsHeld now token ss who s
  unfolding find_session identity_of
  find_session-IsHeld now token us [] who h = absurd (none-some h)
  find_session-IsHeld now token us (s ∷ ss) who h =
      elim (find_session-cons now token us s ss who h) [
        | inl rest ↦
            let f = find_session-IsHeld now token us ss who rest in
            let (m, hash, live, early, user, session) = f.1 in
            (f.0, (tail m, hash, live, early, user, session))
        | inr (u, open', j, e) ↦
            let (hash, live, early) = is_open-held now token s open' in
            (
              s,
              (
                head refl,
                hash,
                live,
                early,
                sym (get_by_id-id s.user_id us u (join_user-active s.user_id us u j).0)
                    ∙ ap (λ (w : Identity). w.user_id) e,
                ap (λ (w : Identity). w.session_id) e,
              ),
            )
      ]

  spared_open :
      (now later i : ℕ) (spared : Option ℕ) (token : Text) (s : Session) (n : ℕ)
      → let s' : Session = if revokes i spared s then record s { revoked_at = some now } else s in
        s'.user_id ≡ i → s'.session_id ≡ n → is_open cr later token s' ≡ true → spared ≡ some n
  spared_open now later i spared token s n user session open' = ground (arith, user, session, open')

  -- After a revocation of a user's sessions, only the spared one still finds the user.
  only_spared :
      (now later i : ℕ) (spared : Option ℕ) (token : Text) (us : List (User Hash))
      (ss : List Session) (who : Identity)
      → find_session cr later token us (revoke_all now i spared ss) ≡ some who
      → who.user_id ≡ i
      → spared ≡ some who.session_id
  unfolding find_session identity_of
  only_spared now later i spared token us [] who h same = absurd (none-some h)
  only_spared now later i spared token us (s ∷ ss) who h same =
      let s' : Session = if revokes i spared s then record s { revoked_at = some now } else s in
      elim (find_session-cons later token us s' (revoke_all now i spared ss) who h) [
        | inl rest ↦ only_spared now later i spared token us ss who rest same
        | inr (u, open', j, e) ↦
            let id_s : u.user_id ≡ s'.user_id =
              get_by_id-id s'.user_id us u (join_user-active s'.user_id us u j).0 in
            let id_who : u.user_id ≡ who.user_id = ap (λ (w : Identity). w.user_id) e in
            let session : s'.session_id ≡ who.session_id = ap (λ (w : Identity). w.session_id) e in
            spared_open now later i spared token s who.session_id (sym id_s ∙ id_who ∙ same) session
              open'
      ]

  -- A user's session that nobody has revoked.
  abbrev pub is_left : ℕ → Session → Bool
  is_left i s = s.user_id == i && elim s.revoked_at [ none ↦ true | some t ↦ false ]

  none_left : (now i : ℕ) (ss : List Session) → any (is_left i) (revoke_all now i none ss) ≡ false
  none_left now i [] = refl
  none_left now i (s ∷ ss) = ground (arith, none_left now i ss)

  -- Deactivating a user ends every session for good: no session of the user is left that is not
  -- revoked, and no token resolves to that user, neither from the next request on nor after the user
  -- has been made active again.
  pub set_active-resolve_session :
      (now later again user_id : ℕ) (token : Text) (db : Db Hash) (who : Identity)
      → ((resolve_session cr later token (set_active now user_id false db)).1 ≡ some who)
        ⊎ ((resolve_session cr later token
              (set_active again user_id true (set_active now user_id false db))).1
            ≡ some who)
      → (who.user_id ≢ user_id)
        × (any (is_left user_id) (set_active now user_id false db).sessions ≡ false)
  unfolding resolve_session set_active
  set_active-resolve_session now later again i [] db who (inl h) = absurd (none-some h)
  set_active-resolve_session now later again i [] db who (inr h) = absurd (none-some h)
  set_active-resolve_session now later again i (c ∷ token) db who (inl h) = (
    λ same. none-some (only_spared now later i none (c ∷ token) _ db.sessions who h same),
    none_left now i db.sessions,
  )
  set_active-resolve_session now later again i (c ∷ token) db who (inr h) = (
    λ same. none-some (only_spared now later i none (c ∷ token) _ db.sessions who h same),
    none_left now i db.sessions,
  )

  -- A password change ends the user's other sessions: afterwards a token that resolves to the user
  -- resolves to the session that was spared; where none was spared, none does.
  set_password-resolve_session :
      (now salt later user_id : ℕ) (password token : Text) (must_change : Bool) (spared : Option ℕ)
      (db : Db Hash) (who : Identity)
      → (resolve_session cr later token
          (set_password cr now salt user_id password must_change spared db)).1
        ≡ some who
      → who.user_id ≡ user_id
      → spared ≡ some who.session_id
  unfolding resolve_session set_password
  set_password-resolve_session now salt later i password [] must spared db who h same =
      absurd (none-some h)
  set_password-resolve_session now salt later i password (c ∷ token) must spared db who h same =
      only_spared now later i spared (c ∷ token) _ db.sessions who h same

  revoked_row :
      (now later : ℕ) (token : Text) (s : Session)
      → is_open cr later token (
          if text_eq s.token_hash (cr.token_hash token)
            && elim s.revoked_at [ none ↦ true | some t ↦ false ]
          then record s { revoked_at = some now }
          else s)
        ≡ false
  revoked_row now later token s = ground arith

  find_session-shut :
      (now : ℕ) (token : Text) (us : List (User Hash)) (ss : List Session)
      → any (is_open cr now token) ss ≡ false
      → find_session cr now token us ss ≡ none
  unfolding find_session
  find_session-shut now token us [] h = refl
  find_session-shut now token us (s ∷ ss) h =
      let shut : is_open cr now token s ≡ false = ground arith in
      rw (shut, find_session) (find_session-shut now token us ss (ground arith))

  all_revoked :
      (now later : ℕ) (token : Text) (ss : List Session)
      → any (is_open cr later token) (
          map
            (λ s.
              if text_eq s.token_hash (cr.token_hash token)
                && elim s.revoked_at [ none ↦ true | some t ↦ false ]
              then record s { revoked_at = some now }
              else s)
            ss)
        ≡ false
  all_revoked now later token [] = refl
  all_revoked now later token (s ∷ ss) =
      rw (revoked_row now later token s) (all_revoked now later token ss)

  join_found :
      (i : ℕ) (us : List (User Hash)) (u : User Hash)
      → get_by_id i us ≡ some u
      → u.is_active ≡ true
      → join_user cr i us ≡ some u
  unfolding join_user
  join_found i us u found on = rw (found, join_user) (ground (arith, on))

  -- A revoked token resolves to nobody, at any later time and for any users.
  revoke_session-resolve_session :
      (now later : ℕ) (token : Text) (db : Db Hash)
      → (resolve_session cr later token (revoke_session cr now token db)).1 ≡ none
  unfolding resolve_session revoke_session
  revoke_session-resolve_session now later [] db = refl
  revoke_session-resolve_session now later (c ∷ token) db =
      find_session-shut later (c ∷ token) db.users (revoke_session cr now (c ∷ token) db).sessions
        (all_revoked now later (c ∷ token) db.sessions)

  fresh_shut :
      (now : ℕ) (token : Text) (ss : List Session)
      → any (λ s. text_eq s.token_hash (cr.token_hash token)) ss ≡ false
      → (us : List (User Hash)) (s : Session)
      → find_session cr now token us (ss ++ s ∷ []) ≡ find_session cr now token us (s ∷ [])
  unfolding find_session
  fresh_shut now token [] h us s = refl
  fresh_shut now token (r ∷ rs) h us s =
      let shut : is_open cr now token r ≡ false = ground arith in
      rw (shut, find_session) (fresh_shut now token rs (ground arith) us s)

  one_session :
      (now : ℕ) (token : Text) (us : List (User Hash)) (s : Session) (u : User Hash)
      → is_open cr now token s ≡ true
      → get_by_id s.user_id us ≡ some u
      → u.is_active ≡ true
      → find_session cr now token us (s ∷ []) ≡ some (identity_of cr s u)
  unfolding find_session
  one_session now token us s u open' found on =
      let j : join_user cr s.user_id us ≡ some u = join_found s.user_id us u found on in
      rw (open', find_session) (rw j refl)

  -- A login's token resolves to its user until the session expires: where the user is active, and the
  -- token's hash is not already in the table, which its UNIQUE constraint ensures.
  create_session-resolve_session :
      (cfg : Config) (now later user_id : ℕ) (c : ℕ) (token : Text) (db : Db Hash) (u : User Hash)
      → any (λ s. text_eq s.token_hash (cr.token_hash (c ∷ token))) db.sessions ≡ false
      → get_by_id user_id db.users ≡ some u
      → u.is_active ≡ true
      → later < now + cfg.session_seconds
      → (who : Identity) × ((resolve_session cr later
            (c ∷ token)
            (create_session cr cfg now user_id (c ∷ token) db)).1
          ≡ some who)
        × (who.user_id ≡ user_id)
        × (who.session_id ≡ db.next_session)
  unfolding resolve_session create_session identity_of
  create_session-resolve_session cfg now later i c token db u fresh found on early =
      let s : Session = record {
        session_id = db.next_session;
        token_hash = cr.token_hash (c ∷ token);
        user_id = i;
        expires_at = now + cfg.session_seconds;
        last_seen_at = now;
        revoked_at = none;
      } in
      (
        identity_of cr s u,
        fresh_shut later (c ∷ token) db.sessions fresh db.users s
            ∙ one_session later (c ∷ token) db.users s u
                (rw (text_eq_refl (cr.token_hash (c ∷ token)))
                  (lt→ltb later (now + cfg.session_seconds) early))
                found on,
        get_by_id-id i db.users u found,
        refl,
      )
