-- ===== src/Auth/Session/Loaded.antt =====
-- Where the data of a session comes from (apps/api/src/auth/session.service.ts).
use ikg_studio_model_trainin.Common.{
  ℕ, ◌≡◌, refl, sym, ap, ◌∙◌, Option, none, some, ==_refl, eq_of_some,
}
use ikg_studio_model_trainin.Auth.Store.{
  User, UserSession, SessionData, Store, user_row, session_row,
}
use ikg_studio_model_trainin.Auth.Session.{
  data_of, data_of_user, data_of_session, cached_or_read, load, bumped, set_cached,
  update_session_password_version,
}

module _ (h : ℕ) (s : Store) where
  pub load-cached : (d : SessionData) → s.redis h ≡ some d → load h s ≡ some d
  unfolding load cached_or_read
  load-cached d held = ap (cached_or_read h s) held

  pub load-read :
      (r : UserSession) (u : User)
      → s.redis h ≡ none
      → session_row h s ≡ some r
      → user_row r.user_id s ≡ some u
      → load h s ≡ some (data_of h r u)
  unfolding load cached_or_read data_of_session data_of_user
  load-read r u held row owner =
      ap (cached_or_read h s) held ∙ ap (data_of_session h s) row ∙ ap (data_of_user h r) owner

  read_owner :
      (r : UserSession) (d : SessionData) (o : Option User)
      → data_of_user h r o ≡ some d
      → (u : User) × (o ≡ some u) × (d ≡ data_of h r u)
  unfolding data_of_user
  read_owner r d none gone = absurd (cc gone)
  read_owner r d (some u) read = (u, refl, sym (eq_of_some read))

  pub load-read_inv :
      (r : UserSession) (d : SessionData)
      → s.redis h ≡ none
      → session_row h s ≡ some r
      → load h s ≡ some d
      → (u : User) × (user_row r.user_id s ≡ some u) × (d ≡ data_of h r u)
  unfolding load cached_or_read data_of_session
  load-read_inv r d held row read =
      read_owner r d (user_row r.user_id s)
        (sym (ap (data_of_session h s) row) ∙ sym (ap (cached_or_read h s) held) ∙ read)

  pub version-cached :
      (version : ℕ) (d : SessionData)
      → s.redis h ≡ some d
      → (update_session_password_version h version s).redis h
        ≡ some (record d { password_updated_at = version })
  unfolding update_session_password_version bumped set_cached
  version-cached version d held = rw (==_refl h) (rw held refl)

  pub version-not_cached :
      (version : ℕ)
      → s.redis h ≡ none
      → (update_session_password_version h version s).redis h ≡ none
  unfolding update_session_password_version bumped set_cached
  version-not_cached version held = rw (==_refl h) (rw held refl)
