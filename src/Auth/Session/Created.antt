-- ===== src/Auth/Session/Created.antt =====
-- A session that was just created is granted (apps/api/src/auth/session.service.ts).
use ikg_studio_model_trainin.Common.{
  ℕ, ◌+◌, ◌*◌, ◌<◌, ◌≡◌, refl, ap, ◌∙◌, inl, inr, true, false, List, [], ◌∷◌, ◌++◌, none, some,
  take_first, leb, ◌==◌, ==_refl, arith, Bool-cases,
}
use ikg_studio_model_trainin.Auth.Store.{
  User, UserSession, SessionData, Store, Settings, user_row, session_row, is_active_status,
}
use ikg_studio_model_trainin.Auth.Session.{
  NewSession, set_cached, create, cached_or_read, load, refreshed, is_revoked, check_session,
  check_user, check_data, validate,
}

take_first-snoc :
    (h : ℕ) (rows : List UserSession) (r : UserSession)
    → take_first (λ x. x.session_token_hash == h) rows ≡ none
    → (r.session_token_hash == h) ≡ true
    → take_first (λ x. x.session_token_hash == h) (rows ++ r ∷ []) ≡ some r
take_first-snoc h [] r fresh own = rw own refl
take_first-snoc h (x ∷ rows) r fresh own = elim (Bool-cases (x.session_token_hash == h)) [
  | inl taken ↦ absurd (cc (rw taken at fresh))
  | inr other ↦ rw other (take_first-snoc h rows r (rw other at fresh) own)
]

-- What is enough for a token to be granted a session.
pub grants :
    (now : ℕ) (settings : Settings) (h : ℕ) (s : Store) (d : SessionData) (u : User)
    (r : UserSession)
    → load h s ≡ some d
    → leb d.absolute_expires_at now ≡ false
    → leb d.idle_expires_at now ≡ false
    → user_row d.user_id s ≡ some u
    → is_active_status u.status ≡ true
    → (u.password_updated_at == d.password_updated_at) ≡ true
    → session_row h s ≡ some r
    → is_revoked r ≡ false
    → (validate now settings h s).1 ≡ some (refreshed now settings d u)
unfolding validate check_data check_user check_session
grants now settings h s d u r source over idle owned standing same row live =
    ap (λ o. (check_data now settings h s o).1) source
    ∙ rw over (
        rw idle (
          ap (λ o. (check_user now settings h d s o).1) owned
          ∙ rw standing
              (rw same (ap (λ o. (check_session now settings h d u s o).1) row ∙ rw live refl))))

-- A token whose session was created, under a hash that no row had, for a user who is ACTIVE and
-- whose password is the one given, is granted a session of that user until the session's idle or
-- absolute expiry.
pub create-validate :
    (now later : ℕ) (settings : Settings) (h : ℕ) (n : NewSession) (s : Store) (u : User)
    → session_row h s ≡ none
    → user_row n.user_id s ≡ some u
    → is_active_status u.status ≡ true
    → u.password_updated_at ≡ n.password_updated_at
    → later < now + settings.session_idle_minutes * 60
    → later < now + settings.session_absolute_hours * 3600
    → (d : SessionData) × ((validate later settings h (create now settings h n s)).1 ≡ some d)
      × (d.user_id ≡ n.user_id)
      × (d.role ≡ u.role)
      × (d.idle_expires_at ≡ later + settings.session_idle_minutes * 60)
unfolding create set_cached load cached_or_read refreshed
create-validate now later settings h n s u fresh owned standing password idle over =
    let after = create now settings h n s in
    let d : SessionData = record {
      session_id = h;
      user_id = n.user_id;
      role = n.role;
      status = n.status;
      must_change_password = n.must_change_password;
      password_updated_at = n.password_updated_at;
      idle_expires_at = now + settings.session_idle_minutes * 60;
      absolute_expires_at = now + settings.session_absolute_hours * 3600;
    } in
    let row =
      take_first-snoc h s.user_sessions
        (record {
          id = n.id;
          user_id = n.user_id;
          session_token_hash = h;
          last_seen_at = now;
          idle_expires_at = now + settings.session_idle_minutes * 60;
          absolute_expires_at = now + settings.session_absolute_hours * 3600;
          revoked_at = none;
          revoked_reason = none;
          created_password_version = n.password_updated_at;
        })
        fresh (==_refl h) in
    (
      refreshed later settings d u,
      grants later settings h after d u _ (rw (==_refl h) refl) (ground arith) (ground arith) owned
          standing (ground arith) row refl,
      refl,
      refl,
      refl,
    )

-- A session that is created with another password version than its user's is never granted.
pub create-outdated :
    (now later : ℕ) (settings : Settings) (h : ℕ) (n : NewSession) (s : Store) (u : User)
    → user_row n.user_id s ≡ some u
    → (u.password_updated_at == n.password_updated_at) ≡ false
    → (validate later settings h (create now settings h n s)).1 ≡ none
unfolding create set_cached load cached_or_read validate check_data check_user
create-outdated now later settings h n s u owned other =
    let after = create now settings h n s in
    rw (==_refl h) (elim (Bool-cases (leb (now + settings.session_absolute_hours * 3600) later)) [
      | inl over ↦ rw over refl
      | inr left ↦ elim (Bool-cases (leb (now + settings.session_idle_minutes * 60) later)) [
        | inl idle ↦ rw left (rw idle refl)
        | inr used ↦ rw left (
            rw used (
              rw owned (elim (Bool-cases (is_active_status u.status)) [
                | inl standing ↦ rw standing (rw other refl)
                | inr out ↦ rw out refl
              ])))
      ]
    ])
