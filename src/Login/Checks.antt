-- ===== src/Login/Checks.antt =====
-- `login` of backend/app/api/routes/auth.py: what a login has passed.
use frappe_os.Login.{
  mfa_required, with_login_user, ip_allowed, find_user, LoginUser, login, LoginOut, LoginError,
  LoginState, LoginRequest, LoginLibraries,
}
use frappe_os.Base.{
  Bool-cases, Option, [], arith, false, inl, inr, ltb, none, refl, some, true, ◌++◌, ◌∷◌, ◌≡◌, ◌⊎◌,
}
use frappe_os.Base.Results.{Result, err, ok}
use frappe_os.Throttle.{retry_after}

module _ {A : Type 0} (lib : LoginLibraries A) (req : LoginRequest) (st : LoginState) where
  -- The address is allowed, the pair is not locked, the password is that of the active user of the
  -- email address, and a session is started only for a user without a second factor.
  pub record Checked (out : LoginOut) (st' : LoginState) : Type 0 where
    pub user : LoginUser
    pub found : find_user (lib.lower req.email) st.users ≡ some user
    pub allowed : ip_allowed lib req.ip st.ip_allowlist ≡ true
    pub not_locked : retry_after req.now st.throttle (lib.lower req.email) req.ip ≡ 0
    pub password_right : lib.verify_password user.password_hash req.password ≡ true
    pub active : user.is_active ≡ true
    pub granted :
        ((user.has_confirmed_totp ≡ true) × (out ≡ mfa_required) × (st'.sessions ≡ st.sessions))
        ⊎ ((user.has_confirmed_totp ≡ false) × (st'.sessions ≡ st.sessions ++ user.id ∷ []))

  -- A refusal starts no session.
  abbrev pub Judged : Result LoginError LoginOut × LoginState → Type 0
  Judged (err e, st') = st'.sessions ≡ st.sessions
  Judged (ok out, st') = Checked out st'

  with_login_user-Judged :
      (found : Option LoginUser)
      → find_user (lib.lower req.email) st.users ≡ found
      → ip_allowed lib req.ip st.ip_allowlist ≡ true
      → retry_after req.now st.throttle (lib.lower req.email) req.ip ≡ 0
      → Judged (with_login_user lib req (lib.lower req.email) found st)
  with_login_user-Judged none e allowed open_pair = refl
  with_login_user-Judged (some user) e allowed open_pair =
      elim (Bool-cases (lib.verify_password user.password_hash req.password)) [
        | inr f ↦ rw f refl
        | inl f ↦ rw f (elim (Bool-cases user.is_active) [
          | inr g ↦ rw g refl
          | inl g ↦ rw g (elim (Bool-cases user.has_confirmed_totp) [
            | inl h ↦ rw h (record {
              user = user;
              found = e;
              allowed = allowed;
              not_locked = open_pair;
              password_right = f;
              active = g;
              granted = inl (h, refl, refl);
            })
            | inr h ↦ rw h (record {
              user = user;
              found = e;
              allowed = allowed;
              not_locked = open_pair;
              password_right = f;
              active = g;
              granted = inr (h, refl);
            })
          ])
        ])
      ]

  -- A login that is answered has passed every check: the address is allowed, the pair is not locked,
  -- the password is that of the active user of the email address; with a second factor it starts no
  -- session, and without one it starts one, of that user. A refusal starts none.
  pub login-Judged : Judged (login lib req st)
  unfolding login
  login-Judged = elim (Bool-cases (ip_allowed lib req.ip st.ip_allowlist)) [
    | inr e ↦ rw e refl
    | inl e ↦
        rw e
          (elim (Bool-cases
            (ltb 0 (retry_after req.now st.throttle (lib.lower req.email) req.ip))) [
              | inl f ↦ rw f refl
              | inr f ↦ rw f (
                  with_login_user-Judged (find_user (lib.lower req.email) st.users) refl e
                    (ground arith))
            ])
  ]
