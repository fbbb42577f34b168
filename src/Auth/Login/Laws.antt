-- ===== src/Auth/Login/Laws.antt =====
-- What a login admits, and the session that it leaves (apps/api/src/auth/auth.controller.ts with
-- session.service.ts).
use ikg_studio_model_trainin.Common.{
  ℕ, ◌+◌, ◌*◌, ◌<◌, ◌≡◌, refl, ap, ◌∙◌, inl, inr, Bool, true, false, ◌||◌, none, some, String,
  take_first-update, is_empty_text, ◌==◌, Bool-cases,
}
use ikg_studio_model_trainin.Json.{text, field, end}
use ikg_studio_model_trainin.Http.{ok}
use ikg_studio_model_trainin.Database.{AuditActorType, AuditResult}
use ikg_studio_model_trainin.Auth.Store.{
  UserStatus, is_active_status, is_locked, User, SessionData, Store, Settings, user_row,
  session_row, update_user, audit,
}
use ikg_studio_model_trainin.Auth.Session.{NewSession, create, validate}
use ikg_studio_model_trainin.Auth.Session.Created.{create-validate, create-outdated}
use ikg_studio_model_trainin.Auth.Login.{
  Credentials, LoginIds, login_entry, is_unlockable, auto_unlock, normalized, named_user, rehashed,
  refresh_hash, logged_in, accept, login_fresh, login_named, login,
}

pub active-not_locked : (t : UserStatus) → is_active_status t ≡ true → is_locked t ≡ false
active-not_locked UserStatus.active h = refl
active-not_locked UserStatus.disabled h = refl
active-not_locked UserStatus.locked h = absurd (cc h)

-- A row that is found again after an UPDATE of its user.
pub user_row-update_user :
    (k : ℕ) (f : User → User) (s : Store) (u : User)
    → ((x : User) → (f x).id ≡ x.id)
    → user_row k s ≡ some u
    → user_row k (update_user k f s) ≡ some (f u)
unfolding update_user
user_row-update_user k f s u keep found =
    take_first-update (λ (x : User). x.id == k) f (λ x h. ap (λ (i : ℕ). i == k) (keep x) ∙ h)
      s.users found

module _ (verify : String → String → Bool) (needs_rehash : String → Bool) (rehash : String → String)
    (now : ℕ) (settings : Settings) (ids : LoginIds) (c : Credentials) (s : Store) (u : User) where
  -- A login by the right password of a user who is ACTIVE.
  pub login-accept :
      (is_empty_text c.username || is_empty_text c.password) ≡ false
      → named_user (normalized c) s ≡ some u
      → user_row u.id s ≡ some u
      → is_active_status u.status ≡ true
      → verify u.password_hash c.password ≡ true
      → login verify needs_rehash rehash now settings ids c s
        ≡ (accept verify needs_rehash rehash now settings ids c u s, ok u.id)
  unfolding login login_named login_fresh auto_unlock is_unlockable
  login-accept given named own standing right = rw given (
      ap (login_named verify needs_rehash rehash now settings ids c s) named
      ∙ rw (active-not_locked u.status standing) (
          ap (login_fresh verify needs_rehash rehash now settings ids c s) own
          ∙ rw standing (rw right refl)))

  -- The token's user, and the session that is created for it.
  abbrev session_of : NewSession
  session_of = record {
    id = ids.session_id;
    user_id = u.id;
    role = u.role;
    status = u.status;
    must_change_password = u.must_change_password;
    password_updated_at = u.password_updated_at;
  }

  abbrev before_session : Store
  before_session =
      audit
        (login_entry AuditActorType.user (some u.id) none "AUTH_LOGIN_SUCCEEDED" u.id
          AuditResult.success ids.correlation_id none (field "username" (text u.username) end))
        (update_user u.id (logged_in now) (refresh_hash verify needs_rehash rehash now c u s))

  accept-create :
      accept verify needs_rehash rehash now settings ids c u s
      ≡ create now settings ids.token_hash session_of before_session
  unfolding accept audit create
  accept-create = refl

  kept_row :
      needs_rehash u.password_hash ≡ false
      → user_row u.id s ≡ some u
      → user_row u.id before_session ≡ some (logged_in now u)
  unfolding refresh_hash logged_in audit
  kept_row fresh own = rw fresh (user_row-update_user u.id (logged_in now) s u (λ x. refl) own)

  rehashed_row :
      needs_rehash u.password_hash ≡ true
      → user_row u.id s ≡ some u
      → user_row u.id before_session
        ≡ some (logged_in now (rehashed verify needs_rehash rehash now c u))
  unfolding refresh_hash logged_in audit rehashed
  rehashed_row old own =
      let f = rehashed verify needs_rehash rehash now c in
      rw old (
        user_row-update_user u.id (logged_in now) (update_user u.id f s) (f u) (λ x. refl)
          (user_row-update_user u.id f s u (λ x. refl) own))

  same_sessions : session_row ids.token_hash before_session ≡ session_row ids.token_hash s
  unfolding refresh_hash update_user audit
  same_sessions = elim (Bool-cases (needs_rehash u.password_hash)) [
    | inl old ↦ rw old refl
    | inr fresh ↦ rw fresh refl
  ]

-- The right password of a user who is ACTIVE is admitted as that user and, unless the hash is to be
-- renewed, the token that the login draws is then granted a session of that user, with the user's
-- role, until the idle or absolute expiry.
pub login-validate :
    (verify : String → String → Bool) (needs_rehash : String → Bool) (rehash : String → String)
    (now later : ℕ) (settings : Settings) (ids : LoginIds) (c : Credentials) (s : Store) (u : User)
    → (is_empty_text c.username || is_empty_text c.password) ≡ false
    → named_user (normalized c) s ≡ some u
    → user_row u.id s ≡ some u
    → is_active_status u.status ≡ true
    → verify u.password_hash c.password ≡ true
    → needs_rehash u.password_hash ≡ false
    → session_row ids.token_hash s ≡ none
    → later < now + settings.session_idle_minutes * 60
    → later < now + settings.session_absolute_hours * 3600
    → ((login verify needs_rehash rehash now settings ids c s).1 ≡ ok u.id)
      × ((d : SessionData) × ((validate later settings ids.token_hash
              (login verify needs_rehash rehash now settings ids c s).0).1
            ≡ some d)
          × (d.user_id ≡ u.id)
          × (d.role ≡ u.role)
          × (d.idle_expires_at ≡ later + settings.session_idle_minutes * 60))
unfolding logged_in
login-validate verify needs_rehash rehash now later settings ids c s u given named own standing
      right fresh new idle over =
    let accepted =
      login-accept verify needs_rehash rehash now settings ids c s u given named own standing
        right in
    let created = accept-create verify needs_rehash rehash now settings ids c s u in
    let (d, granted, owner, role, expiry) =
      create-validate now later settings ids.token_hash
        (session_of verify needs_rehash rehash now settings ids c s u)
        (before_session verify needs_rehash rehash now settings ids c s u) (logged_in now u)
        (same_sessions verify needs_rehash rehash now settings ids c s u ∙ new)
        (kept_row verify needs_rehash rehash now settings ids c s u fresh own) standing refl idle
        over in
    (
      ap (λ r. r.1) accepted,
      (
        d,
        ap (λ r. (validate later settings ids.token_hash r.0).1) accepted
            ∙ ap (λ x. (validate later settings ids.token_hash x).1) created
            ∙ granted,
        owner,
        role,
        expiry,
      ),
    )

-- A login by the right password whose hash is renewed succeeds, but in the store that it leaves,
-- whose Redis entry has the password version that the renewal has replaced, the token that it draws
-- is refused at any time, unless the password was last set in that same moment.
pub login-rehash_refused :
    (verify : String → String → Bool) (needs_rehash : String → Bool) (rehash : String → String)
    (now later : ℕ) (settings : Settings) (ids : LoginIds) (c : Credentials) (s : Store) (u : User)
    → (is_empty_text c.username || is_empty_text c.password) ≡ false
    → named_user (normalized c) s ≡ some u
    → user_row u.id s ≡ some u
    → is_active_status u.status ≡ true
    → verify u.password_hash c.password ≡ true
    → needs_rehash u.password_hash ≡ true
    → (now == u.password_updated_at) ≡ false
    → ((login verify needs_rehash rehash now settings ids c s).1 ≡ ok u.id)
      × ((validate later settings ids.token_hash
            (login verify needs_rehash rehash now settings ids c s).0).1
          ≡ none)
unfolding logged_in rehashed
login-rehash_refused verify needs_rehash rehash now later settings ids c s u given named own
      standing right old changed =
    let accepted =
      login-accept verify needs_rehash rehash now settings ids c s u given named own standing
        right in
    let created = accept-create verify needs_rehash rehash now settings ids c s u in
    (
      ap (λ r. r.1) accepted,
      ap (λ r. (validate later settings ids.token_hash r.0).1) accepted
          ∙ ap (λ x. (validate later settings ids.token_hash x).1) created
          ∙ create-outdated now later settings ids.token_hash
              (session_of verify needs_rehash rehash now settings ids c s u)
              (before_session verify needs_rehash rehash now settings ids c s u)
              (logged_in now (rehashed verify needs_rehash rehash now c u))
              (rehashed_row verify needs_rehash rehash now settings ids c s u old own) changed,
    )
