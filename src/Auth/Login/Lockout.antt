-- ===== src/Auth/Login/Lockout.antt =====
-- Failed logins, the lock that they put on an account, and its end
-- (apps/api/src/auth/auth.controller.ts).
use ikg_studio_model_trainin.Common.{
  ℕ, ◌+◌, ◌*◌, ◌≤◌, ◌≡◌, refl, ap, ◌∙◌, Bool, true, false, ◌&&◌, ◌||◌, some, String, take_first,
  take_first-update_hit, update, is_empty_text, str_eq, lower_text, leb, arith, ◌==◌, ==_refl, List,
}
use ikg_studio_model_trainin.Http.{ok, err}
use ikg_studio_model_trainin.Auth.Store.{
  UserStatus, is_locked, User, Store, Settings, user_row, update_user, audit,
}
use ikg_studio_model_trainin.Auth.Login.{
  Credentials, LoginIds, invalid_credentials, counted_failure, locked, is_lockable, lock_if,
  increment_failed_login, is_unlockable, unlocked, auto_unlock, normalized, named_user, login_fresh,
  login_named, login,
}
use ikg_studio_model_trainin.Auth.Login.Laws.{user_row-update_user}

-- The failure that reaches the threshold locks the account, be it ACTIVE or DISABLED before.
module _ (now : ℕ) (settings : Settings) (s : Store) (u : User) where
  lockable :
      is_locked u.status ≡ false
      → settings.failed_login_threshold ≤ u.failed_login_count + 1
      → is_lockable settings u.id (counted_failure now u) ≡ true
  unfolding is_lockable counted_failure
  lockable free reached = rw (==_refl u.id, free) (ground arith)

  increment-unfolds :
      user_row u.id s ≡ some u
      → settings.failed_login_threshold ≤ u.failed_login_count + 1
      → increment_failed_login now settings u.id s
        ≡ record (update_user u.id (counted_failure now) s) {
          users =
              update
                (is_lockable settings u.id)
                (locked now settings)
                (update_user u.id (counted_failure now) s).users;
        }
  unfolding increment_failed_login lock_if counted_failure
  increment-unfolds own reached =
      let counted = update_user u.id (counted_failure now) s in
      let over : leb settings.failed_login_threshold (u.failed_login_count + 1) ≡ true =
        ground arith in
      ap (lock_if now settings u.id counted)
        (user_row-update_user u.id (counted_failure now) s u (λ x. refl) own)
      ∙ rw over refl

  abbrev locked_out : User
  locked_out = locked now settings (counted_failure now u)

  pub increment-own :
      user_row u.id s ≡ some u
      → is_locked u.status ≡ false
      → settings.failed_login_threshold ≤ u.failed_login_count + 1
      → user_row u.id (increment_failed_login now settings u.id s) ≡ some locked_out
  unfolding is_lockable counted_failure locked
  increment-own own free reached =
      ap (user_row u.id) (increment-unfolds own reached)
      ∙ take_first-update_hit (is_lockable settings u.id) (λ (x : User). x.id == u.id)
          (locked now settings) (λ x h. refl) (update_user u.id (counted_failure now) s).users
          (user_row-update_user u.id (counted_failure now) s u (λ x. refl) own)
          (lockable free reached)

  pub increment-named :
      (name : String)
      → user_row u.id s ≡ some u
      → named_user name s ≡ some u
      → is_locked u.status ≡ false
      → settings.failed_login_threshold ≤ u.failed_login_count + 1
      → named_user name (increment_failed_login now settings u.id s) ≡ some locked_out
  unfolding named_user update_user is_lockable counted_failure locked
  increment-named name own named free reached =
      ap (λ x. take_first (λ (r : User). str_eq (lower_text r.username) name) x.users)
        (increment-unfolds own reached)
      ∙ take_first-update_hit (is_lockable settings u.id)
          (λ (r : User). str_eq (lower_text r.username) name) (locked now settings) (λ x h. refl)
          (update_user u.id (counted_failure now) s).users
          (take_first-update_hit (λ (r : User). r.id == u.id)
            (λ (r : User). str_eq (lower_text r.username) name) (counted_failure now) (λ x h. refl)
            s.users named (==_refl u.id))
          (lockable free reached)

module _ (verify : String → String → Bool) (needs_rehash : String → Bool) (rehash : String → String)
    (now : ℕ) (settings : Settings) (ids : LoginIds) (c : Credentials) (s : Store) (u : User) where
  -- Once the lock's time is over, the row is ACTIVE again.
  pub auto_unlock-row :
      user_row u.id s ≡ some u
      → is_unlockable now u ≡ true
      → user_row u.id (auto_unlock now ids.correlation_id u s) ≡ some (unlocked now u)
  unfolding auto_unlock audit unlocked is_unlockable
  auto_unlock-row own over =
      let shut : is_locked u.status ≡ true = ground arith in
      rw over (
        take_first-update_hit (λ (x : User). x.id == u.id && is_locked x.status)
          (λ (x : User). x.id == u.id) (unlocked now) (λ x h. refl) s.users own
          (rw (==_refl u.id, shut) refl))

  -- The right password is then enough.
  pub login-unlocked :
      (is_empty_text c.username || is_empty_text c.password) ≡ false
      → named_user (normalized c) s ≡ some u
      → user_row u.id s ≡ some u
      → is_unlockable now u ≡ true
      → verify u.password_hash c.password ≡ true
      → (login verify needs_rehash rehash now settings ids c s).1 ≡ ok u.id
  unfolding login login_named login_fresh unlocked
  login-unlocked given named own over right =
      let usable = auto_unlock now ids.correlation_id u s in
      rw given (
        ap (λ o. (login_named verify needs_rehash rehash now settings ids c s o).1) named
        ∙ ap (λ o. (login_fresh verify needs_rehash rehash now settings ids c usable o).1)
            (auto_unlock-row own over)
        ∙ rw right refl)

  -- Where no lock is over, the login goes by the row as it was found.
  pub login-fresh :
      (is_empty_text c.username || is_empty_text c.password) ≡ false
      → named_user (normalized c) s ≡ some u
      → user_row u.id s ≡ some u
      → is_unlockable now u ≡ false
      → login verify needs_rehash rehash now settings ids c s
        ≡ login_fresh verify needs_rehash rehash now settings ids c s (some u)
  unfolding login login_named auto_unlock
  login-fresh given named own held = rw given (
      ap (login_named verify needs_rehash rehash now settings ids c s) named
      ∙ rw held (ap (login_fresh verify needs_rehash rehash now settings ids c s) own))

  -- A disabled user's login is refused, and counted.
  pub login-refused :
      (is_empty_text c.username || is_empty_text c.password) ≡ false
      → named_user (normalized c) s ≡ some u
      → user_row u.id s ≡ some u
      → u.status ≡ UserStatus.disabled
      → ((login verify needs_rehash rehash now settings ids c s).1 ≡ err invalid_credentials)
        × ((login verify needs_rehash rehash now settings ids c s).0.users
            ≡ (increment_failed_login now settings u.id s).users)
  unfolding is_unlockable login_fresh audit
  login-refused given named own out =
      let fresh = login-fresh given named own (rw out refl) in
      (ap (λ r. r.1) fresh ∙ rw out refl, ap (λ r. r.0.users) fresh ∙ rw out refl)

-- A disabled user whose failures are one short of the threshold is refused, but the refusal sets the
-- status LOCKED until the lockout's minutes are over; a login with the right password is then
-- admitted.
pub disabled-login :
    (verify : String → String → Bool) (needs_rehash : String → Bool) (rehash : String → String)
    (now later : ℕ) (settings : Settings) (ids ids' : LoginIds) (c c' : Credentials) (s : Store)
    (u : User)
    → (is_empty_text c.username || is_empty_text c.password) ≡ false
    → (is_empty_text c'.username || is_empty_text c'.password) ≡ false
    → normalized c' ≡ normalized c
    → named_user (normalized c) s ≡ some u
    → user_row u.id s ≡ some u
    → u.status ≡ UserStatus.disabled
    → settings.failed_login_threshold ≤ u.failed_login_count + 1
    → now + settings.lockout_minutes * 60 ≤ later
    → verify u.password_hash c'.password ≡ true
    → ((login verify needs_rehash rehash now settings ids c s).1 ≡ err invalid_credentials)
      × ((v : User) × (user_row u.id (login verify needs_rehash rehash now settings ids c s).0
            ≡ some v)
          × (v.status ≡ UserStatus.locked)
          × (v.locked_until ≡ some (now + settings.lockout_minutes * 60)))
      × ((login verify needs_rehash rehash later settings ids' c'
            (login verify needs_rehash rehash now settings ids c s).0).1
          ≡ ok u.id)
unfolding named_user locked counted_failure is_unlockable
disabled-login verify needs_rehash rehash now later settings ids ids' c c' s u given given' same
      named own out reached waited right =
    let (refused, rows) =
      login-refused verify needs_rehash rehash now settings ids c s u given named own out in
    let after = (login verify needs_rehash rehash now settings ids c s).0 in
    let free : is_locked u.status ≡ false = rw out refl in
    let due : leb (now + settings.lockout_minutes * 60) later ≡ true = ground arith in
    let shut : user_row u.id after ≡ some (locked_out now settings s u) =
      ap (λ (r : List User). take_first (λ (x : User). x.id == u.id) r) rows
      ∙ increment-own now settings s u own free reached in
    (
      refused,
      (locked_out now settings s u, shut, refl, refl),
      login-unlocked verify needs_rehash rehash later settings ids' c' after
          (locked_out now settings s u) given'
          (ap
              (λ (r : List User).
                take_first (λ (x : User). str_eq (lower_text x.username) (normalized c')) r)
              rows
            ∙ rw same (increment-named now settings s u (normalized c) own named free reached))
          shut due right,
    )
