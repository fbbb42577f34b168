-- ===== src/Auth/Password/Sessions.antt =====
-- What a change of password does to the sessions of its user (apps/api/src/auth/auth.controller.ts
-- with session.service.ts).
use ikg_studio_model_trainin.Common.{
  ℕ, ◌≡◌, refl, sym, ap, ◌∙◌, inl, inr, Bool, true, false, Option, none, some, String,
  take_first-update, take_first-update_kept, take_first-update_hit, take_first-update_inv,
  take_first-holds, update, arith, ◌==◌, ==_iff, ==_refl, Option-cases, eq_of_some,
}
use ikg_studio_model_trainin.Http.{ok}
use ikg_studio_model_trainin.Auth.Store.{
  is_active_status, User, UserSession, SessionData, Store, Settings, user_row, session_row,
  update_user, audit,
}
use ikg_studio_model_trainin.Auth.Session.{
  is_revoked, data_of, load, refreshed, revoked, validate, set_cached,
  update_session_password_version,
}
use ikg_studio_model_trainin.Auth.Session.Laws.{validate-Granted, refused}
use ikg_studio_model_trainin.Auth.Session.Created.{grants}
use ikg_studio_model_trainin.Auth.Session.Loaded.{
  load-cached, load-read, load-read_inv, version-cached, version-not_cached,
}
use ikg_studio_model_trainin.Auth.Login.Laws.{user_row-update_user}
use ikg_studio_model_trainin.Auth.Password.{
  PasswordChange, is_other_session, end_others, with_version, keep_current, with_password,
  apply_change, change_password,
}
use ikg_studio_model_trainin.Auth.Password.Laws.{change-ok}

-- The rows and the entry of the current session, after the change.
module _ (verify : String → String → Bool) (hash : String → String) (now correlation k h : ℕ)
    (c : PasswordChange) (s : Store) (u : User) where
  abbrev after : Store
  after = apply_change verify hash now correlation k (some h) c u s

  after-user :
      user_row k s ≡ some u → user_row k after ≡ some (with_password now (hash c.new_password) u)
  unfolding apply_change keep_current end_others audit update_session_password_version set_cached
      with_password
  after-user row =
      user_row-update_user k (with_password now (hash c.new_password)) s u (λ x. refl) row

  after-session :
      (r : UserSession) → session_row h s ≡ some r → session_row h after ≡ some (with_version now r)
  unfolding apply_change keep_current end_others audit update_session_password_version set_cached
      update_user is_other_session
  after-session r row =
      let own =
        take_first-holds (λ (x : UserSession). x.session_token_hash == h) s.user_sessions row in
      take_first-update (λ (x : UserSession). x.session_token_hash == h) (with_version now)
        (λ x e. e)
        (update (is_other_session k (some h)) (revoked now (some "PASSWORD_CHANGED"))
          s.user_sessions)
        (take_first-update_kept (is_other_session k (some h))
          (λ (x : UserSession). x.session_token_hash == h) (revoked now (some "PASSWORD_CHANGED"))
          (λ x e. refl) s.user_sessions row (ground (arith, own)))

  -- The data that the token has afterwards: the user's, with the new version.
  after-load :
      (r : UserSession) (d : SessionData)
      → user_row k s ≡ some u
      → session_row h s ≡ some r
      → load h s ≡ some d
      → d.user_id ≡ k
      → (e : SessionData) × (load h after ≡ some e)
        × (e.user_id ≡ k)
        × (e.password_updated_at ≡ now)
        × (e.absolute_expires_at ≡ d.absolute_expires_at)
        × (e.idle_expires_at ≡ d.idle_expires_at)
  unfolding apply_change keep_current end_others audit update_user data_of with_password
      update_session_password_version set_cached
  after-load r d row session read owner = elim (Option-cases (s.redis h)) [
    | inr (cached, held) ↦
        let same : cached ≡ d = eq_of_some (sym (load-cached h s cached held) ∙ read) in
        (
          record cached { password_updated_at = now },
          load-cached h after (record cached { password_updated_at = now })
              (version-cached h s now cached held),
          ap (λ (x : SessionData). x.user_id) same ∙ owner,
          refl,
          ap (λ (x : SessionData). x.absolute_expires_at) same,
          ap (λ (x : SessionData). x.idle_expires_at) same,
        )
    | inl held ↦
        let (v, own, built) = load-read_inv h s r d held session read in
        let ids : v.id ≡ r.user_id =
          (==_iff v.id r.user_id).0
            (take_first-holds (λ (x : User). x.id == r.user_id) s.users own) in
        let whose : r.user_id ≡ k =
          sym ids ∙ sym (ap (λ (x : SessionData). x.user_id) built) ∙ owner in
        (
          data_of h (with_version now r) (with_password now (hash c.new_password) u),
          load-read h after (with_version now r) (with_password now (hash c.new_password) u)
              (version-not_cached h s now held) (after-session r session)
              (rw whose (after-user row)),
          (==_iff u.id k).0 (take_first-holds (λ (x : User). x.id == k) s.users row),
          refl,
          sym (ap (λ (x : SessionData). x.absolute_expires_at) built),
          sym (ap (λ (x : SessionData). x.idle_expires_at) built),
        )
  ]

-- After a successful change of password the token that made it is still granted a session of its
-- user, at once and with the same rights.
pub change_password-current :
    (verify : String → String → Bool) (hash : String → String) (now correlation k h : ℕ)
    (settings : Settings) (c : PasswordChange) (s : Store) (d : SessionData)
    → (validate now settings h s).1 ≡ some d
    → d.user_id ≡ k
    → (change_password verify hash now correlation (some k) (some h) c s).1 ≡ ok tt
    → (e : SessionData) × ((validate now settings h
          (change_password verify hash now correlation (some k) (some h) c s).0).1
        ≡ some e)
      × (e.user_id ≡ k)
      × (e.role ≡ d.role)
unfolding refreshed with_password
change_password-current verify hash now correlation k h settings c s d granted owner done =
    let (u, row, same) = change-ok verify hash now correlation k (some h) c s done in
    let g = validate-Granted now settings h s d granted in
    let own : g.loaded.user_id ≡ k = sym (ap (λ (x : SessionData). x.user_id) g.result) ∙ owner in
    let (e, read, whose, version, over, idle) =
      after-load verify hash now correlation k h c s u g.session g.loaded row g.recorded g.source
        own in
    let owner_u : g.owner ≡ u = eq_of_some (sym g.owned ∙ ap (λ i. user_row i s) own ∙ row) in
    (
      refreshed now settings e (with_password now (hash c.new_password) u),
      ap (λ x. (validate now settings h x).1) same
          ∙ grants now settings h (after verify hash now correlation k h c s u) e
              (with_password now (hash c.new_password) u) (with_version now g.session) read
              (rw over (ground (arith, g.not_over))) (rw idle (ground (arith, g.not_idle)))
              (rw whose (after-user verify hash now correlation k h c s u row))
              (sym (ap (λ (x : User). is_active_status x.status) owner_u) ∙ g.is_in_good_standing)
              (rw version (==_refl now))
              (after-session verify hash now correlation k h c s u g.session g.recorded)
              g.not_revoked,
      whose,
      sym (ap (λ (x : SessionData). x.role) g.result ∙ ap (λ (x : User). x.role) owner_u),
    )

-- After a successful change of password every other token of the user is refused, at any time and
-- whatever Redis still holds for it.
pub change_password-other :
    (verify : String → String → Bool) (hash : String → String) (now later correlation k h other : ℕ)
    (settings : Settings) (c : PasswordChange) (s : Store) (r : UserSession)
    (stale : Option SessionData)
    → session_row other s ≡ some r
    → r.user_id ≡ k
    → (other == h) ≡ false
    → (change_password verify hash now correlation (some k) (some h) c s).1 ≡ ok tt
    → (validate later settings other (
        set_cached other stale
          (change_password verify hash now correlation (some k) (some h) c s).0)).1
      ≡ none
unfolding apply_change keep_current end_others audit update_session_password_version set_cached
    update_user is_other_session revoked
change_password-other verify hash now later correlation k h other settings c s r stale found own
      apart done =
    let (u, row, same) = change-ok verify hash now correlation k (some h) c s done in
    ap (λ x. (validate later settings other (set_cached other stale x)).1) same
    ∙ refused later settings other
        (set_cached other stale (apply_change verify hash now correlation k (some h) c u s))
        (λ y at_end.
          let (x, mid, how) =
            take_first-update_inv (λ (x : UserSession). x.session_token_hash == h)
              (λ (x : UserSession). x.session_token_hash == other) (with_version now) (λ x e. refl)
              (update (is_other_session k (some h)) (revoked now (some "PASSWORD_CHANGED"))
                s.user_sessions)
              at_end in
          let hit =
            take_first-update_hit (is_other_session k (some h))
              (λ (x : UserSession). x.session_token_hash == other)
              (revoked now (some "PASSWORD_CHANGED")) (λ x e. refl) s.user_sessions found
              (ground (
                arith,
                own,
                take_first-holds (λ (x : UserSession). x.session_token_hash == other)
                    s.user_sessions found,
              )) in
          let ended : x ≡ revoked now (some "PASSWORD_CHANGED") r = eq_of_some (sym mid ∙ hit) in
          let over : is_revoked x ≡ true = ap is_revoked ended in
          elim how [
            | inl (missed, as_was) ↦ ap is_revoked as_was ∙ over
            | inr (changed, as_set) ↦ ap is_revoked as_set ∙ over
          ])
