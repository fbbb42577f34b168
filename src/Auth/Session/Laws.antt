-- ===== src/Auth/Session/Laws.antt =====
-- Who gets a session, and that a revoked one is over whatever Redis still holds
-- (apps/api/src/auth/session.service.ts).
use ikg_studio_model_trainin.Common.{
  ℕ, ◌<◌, ◌≡◌, refl, ap, sym, ◌∙◌, inl, inr, true, false, Option, none, some, String, leb, ◌==◌,
  arith, subst, take_first-holds, Bool-cases, Option-cases, take_first-update_inv, eq_of_some,
}
use ikg_studio_model_trainin.Auth.Store.{
  User, UserSession, SessionData, Store, Settings, user_row, session_row, is_active_status,
}
use ikg_studio_model_trainin.Auth.Session.{
  is_revoked, load, refreshed, check_session, check_user, check_data, validate, revoked, revoke,
  set_cached, is_except, is_revocable, revoke_all_for_user,
}

-- What a session that is granted says of the tables.
pub record Granted (now : ℕ) (settings : Settings) (h : ℕ) (s : Store) (d : SessionData)
    : Type 0 where
  pub loaded : SessionData
  pub source : load h s ≡ some loaded
  pub not_over : now < loaded.absolute_expires_at
  pub not_idle : now < loaded.idle_expires_at
  pub owner : User
  pub owned : user_row loaded.user_id s ≡ some owner
  pub is_in_good_standing : is_active_status owner.status ≡ true
  pub same_password : owner.password_updated_at ≡ loaded.password_updated_at
  pub session : UserSession
  pub recorded : session_row h s ≡ some session
  pub not_revoked : is_revoked session ≡ false
  pub result : d ≡ refreshed now settings loaded owner

abbrev GrantedBy : ℕ → Settings → ℕ → Store → Option SessionData → Type 0
GrantedBy now settings h s none = Unit
GrantedBy now settings h s (some d) = Granted now settings h s d

module _ (now : ℕ) (settings : Settings) (h : ℕ) (s : Store) where
  session-Granted :
      (d : SessionData) (u : User)
      → load h s ≡ some d
      → now < d.absolute_expires_at
      → now < d.idle_expires_at
      → user_row d.user_id s ≡ some u
      → is_active_status u.status ≡ true
      → u.password_updated_at ≡ d.password_updated_at
      → (o : Option UserSession) → session_row h s ≡ o
      → GrantedBy now settings h s (check_session now settings h d u s o).1
  unfolding check_session
  session-Granted d u source over idle owned standing password none row = tt
  session-Granted d u source over idle owned standing password (some r) row =
      elim (Bool-cases (is_revoked r)) [
        | inl out ↦ rw out tt
        | inr live ↦ rw live (record {
          loaded = d;
          source = source;
          not_over = over;
          not_idle = idle;
          owner = u;
          owned = owned;
          is_in_good_standing = standing;
          same_password = password;
          session = r;
          recorded = row;
          not_revoked = live;
          result = refl;
        })
      ]

  user-Granted :
      (d : SessionData)
      → load h s ≡ some d
      → now < d.absolute_expires_at
      → now < d.idle_expires_at
      → (o : Option User) → user_row d.user_id s ≡ o
      → GrantedBy now settings h s (check_user now settings h d s o).1
  unfolding check_user
  user-Granted d source over idle none row = tt
  user-Granted d source over idle (some u) row = elim (Bool-cases (is_active_status u.status)) [
    | inr out ↦ rw out tt
    | inl standing ↦ elim (Bool-cases (u.password_updated_at == d.password_updated_at)) [
      | inr changed ↦ rw standing (rw changed tt)
      | inl same ↦ rw standing (
          rw same (
            session-Granted d u source over idle row standing (ground arith) (session_row h s)
              refl))
    ]
  ]

  data-Granted :
      (o : Option SessionData)
      → load h s ≡ o
      → GrantedBy now settings h s (check_data now settings h s o).1
  unfolding check_data
  data-Granted none row = tt
  data-Granted (some d) row = elim (Bool-cases (leb d.absolute_expires_at now)) [
    | inl over ↦ rw over tt
    | inr left ↦ elim (Bool-cases (leb d.idle_expires_at now)) [
      | inl idle ↦ rw left (rw idle tt)
      | inr used ↦
          rw left
            (rw used (user-Granted d row (ground arith) (ground arith) (user_row d.user_id s) refl))
    ]
  ]

  validated : GrantedBy now settings h s (validate now settings h s).1
  unfolding validate
  validated = data-Granted (load h s) refl

-- A token is granted a session only if, whatever Redis holds: its user exists and is ACTIVE, its row
-- exists and is not revoked, and the data read for it has not expired and has the user's password
-- version; the role and the status in the answer are the user's own.
pub validate-Granted :
    (now : ℕ) (settings : Settings) (h : ℕ) (s : Store) (d : SessionData)
    → (validate now settings h s).1 ≡ some d
    → Granted now settings h s d
validate-Granted now settings h s d granted =
    subst (GrantedBy now settings h s) granted (validated now settings h s)

-- No session is granted to a token whose row is revoked.
pub refused :
    (now : ℕ) (settings : Settings) (h : ℕ) (s : Store)
    → ((r : UserSession) → session_row h s ≡ some r → is_revoked r ≡ true)
    → (validate now settings h s).1 ≡ none
refused now settings h s out = elim (Option-cases (validate now settings h s).1) [
  | inl none_given ↦ none_given
  | inr (d, given) ↦
      let g = validate-Granted now settings h s d given in
      absurd (cc (sym (out g.session g.recorded) ∙ g.not_revoked))
]

-- After a revocation the token is refused at any time, whatever Redis held for it and even if its
-- entry is written again.
pub revoke-validate :
    (now later : ℕ) (settings : Settings) (h : ℕ) (reason : Option String) (s : Store)
    (stale : Option SessionData)
    → (validate later settings h (set_cached h stale (revoke now h reason s))).1 ≡ none
unfolding revoke set_cached revoked
revoke-validate now later settings h reason s stale =
    refused later settings h (set_cached h stale (revoke now h reason s)) (λ r row.
      let (x, found, how) =
        take_first-update_inv (λ r. r.session_token_hash == h) (λ r. r.session_token_hash == h)
          (revoked now reason) (λ y _. refl) s.user_sessions row in
      elim how [
        | inl (missed, same) ↦ absurd (
            cc (
              sym (
                take_first-holds (λ (y : UserSession). y.session_token_hash == h) s.user_sessions
                  found)
              ∙ missed))
        | inr (own, same) ↦ ap is_revoked same
      ])

-- After all sessions of a user are revoked but one, each other token of the user is refused at any
-- time, though its entry in Redis is still there.
pub revoke_all-validate :
    (now later : ℕ) (settings : Settings) (user h : ℕ) (except : Option ℕ) (s : Store)
    (r : UserSession)
    → session_row h s ≡ some r
    → r.user_id ≡ user
    → is_except except r ≡ false
    → (validate later settings h (revoke_all_for_user now user except s).0).1 ≡ none
unfolding revoke_all_for_user is_revocable revoked
revoke_all-validate now later settings user h except s r found own other =
    refused later settings h (revoke_all_for_user now user except s).0 (λ y row.
      let (x, found_x, how) =
        take_first-update_inv (is_revocable user except) (λ r. r.session_token_hash == h)
          (revoked now (some "USER_LOGOUT_ALL")) (λ y _. refl) s.user_sessions row in
      let same_row : x ≡ r = eq_of_some (sym found_x ∙ found) in
      elim how [
        | inl (missed, same) ↦
            let passed : is_revocable user except r ≡ false =
              ap (is_revocable user except) (sym same_row) ∙ missed in
            ap is_revoked (same ∙ same_row) ∙ ground (arith, own, other)
        | inr (hit, same) ↦ ap is_revoked same
      ])
