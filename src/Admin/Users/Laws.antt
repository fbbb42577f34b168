-- ===== src/Admin/Users/Laws.antt =====
-- Concurrent edits, and what disabling an account and setting its password mean for its sessions
-- (apps/api/src/admin/users/admin-users.service.ts with auth/session.service.ts).
use ikg_studio_model_trainin.Common.{
  ℕ, ◌+◌, ◌<◌, ◌≡◌, ◌≢◌, refl, sym, ap, ◌∙◌, inl, inr, true, false, not, ◌&&◌, Option, none, some,
  String, ◌==◌, ==_iff, ==_refl, arith, Bool-cases, eq_of_some, take_first-holds,
}
use ikg_studio_model_trainin.Http.{ok, err}
use ikg_studio_model_trainin.Auth.Store.{
  is_active_status, is_disabled, User, UserSession, SessionData, Store, Settings, user_row,
  session_row, update_user, audit,
}
use ikg_studio_model_trainin.Auth.Session.{is_revoked, data_of, refreshed, validate}
use ikg_studio_model_trainin.Auth.Session.Laws.{validate-Granted}
use ikg_studio_model_trainin.Auth.Session.Created.{grants}
use ikg_studio_model_trainin.Auth.Session.Loaded.{load-read}
use ikg_studio_model_trainin.Auth.Login.Laws.{user_row-update_user}
use ikg_studio_model_trainin.Admin.Users.Rows.{Act, refusal, enqueue_revoke, is_last_active_admin}
use ikg_studio_model_trainin.Admin.Users.Status.{
  found, find_by_id, status_entry, disabled, disable_found, disable, with_password,
  set_password_found, set_password,
}
use ikg_studio_model_trainin.Admin.Users.Editing.{
  UpdateParams, is_role_changed, edited, write_edit, given_email, update_found, update,
}
use ikg_studio_model_trainin.Admin.Users.Creating.{is_email_taken}
use ikg_studio_model_trainin.Admin.Users.Accounts.{role_users}

module _ (now : ℕ) (act : Act) (k : ℕ) (s : Store) where
  update_found-ok :
      (p : UpdateParams) (v : User) (o : Option User)
      → (update_found now act k p s o).1 ≡ ok v
      → (u : User) × (o ≡ some u)
        × (u.row_version ≡ p.row_version)
        × ((update_found now act k p s o).0 ≡ write_edit now act k p u s)
        × (v ≡ edited now act p u)
  unfolding update_found
  update_found-ok p v none done = absurd (cc done)
  update_found-ok p v (some u) done = elim (Bool-cases (u.row_version == p.row_version)) [
    | inr stale ↦ absurd (cc (rw stale at done))
    | inl current ↦ elim (Bool-cases (is_role_changed p u && k == act.actor_id)) [
      | inl own ↦ absurd (cc (rw (current, own) at done))
      | inr other ↦ elim (Bool-cases (is_role_changed p u && is_last_active_admin k s)) [
        | inl last ↦ absurd (cc (rw (current, other, last) at done))
        | inr free ↦ elim (Bool-cases (is_email_taken (given_email p) (λ x. not (x.id == k)) s)) [
          | inl taken ↦ absurd (cc (rw (current, other, free, taken) at done))
          | inr fresh ↦
              let same : ok (edited now act p u) ≡ ok v =
                rw (current, other, free, fresh) at done in
              (
                u,
                refl,
                (==_iff u.row_version p.row_version).0 current,
                rw (current, other, free, fresh) refl,
                cc,
              )
        ]
      ]
    ]
  ]

  edited_row :
      (p : UpdateParams) (u : User)
      → user_row k s ≡ some u
      → user_row k (write_edit now act k p u s) ≡ some (edited now act p u)
  unfolding write_edit audit edited
  edited_row p u row =
      rw (role_users now act _ k p u)
        (user_row-update_user k (edited now act p) s u (λ x. refl) row)

-- An edit that succeeds returns the row that it writes, with the next row_version, and any edit that
-- was made from the same row_version is afterwards refused with USER_CONCURRENT_UPDATE.
pub update-stale :
    (now later : ℕ) (act other : Act) (k : ℕ) (p q : UpdateParams) (s : Store) (v : User)
    → (update now act k p s).1 ≡ ok v
    → q.row_version ≡ p.row_version
    → (user_row k (update now act k p s).0 ≡ some v)
      × (v.row_version ≡ p.row_version + 1)
      × (update later other k q (update now act k p s).0
          ≡ ((update now act k p s).0, err (refusal "USER_CONCURRENT_UPDATE" 409)))
unfolding update edited
update-stale now later act other k p q s v done same =
    let (u, row, version, written, result) = update_found-ok now act k s p v (user_row k s) done in
    let after = (update_found now act k p s (user_row k s)).0 in
    let at_end : user_row k after ≡ some v =
      ap (user_row k) written ∙ edited_row now act k s p u row ∙ ap some (sym result) in
    let next : v.row_version ≡ p.row_version + 1 =
      ap (λ (x : User). x.row_version) result ∙ ap (λ n. n + 1) version in
    let differ : (v.row_version == q.row_version) ≡ false = ground (arith, next, same) in
    (at_end, next, ap (update_found later other k q after) at_end ∙ rw differ refl)

module _ (now : ℕ) (act : Act) (k : ℕ) (reason : Option String) (s : Store) where
  disable_found-ok :
      (v : User) (o : Option User)
      → user_row k s ≡ o
      → (disable_found now act k reason s o).1 ≡ ok v
      → (user_row k s ≡ some v)
        × (is_disabled v.status ≡ false)
        × (user_row k (disable_found now act k reason s o).0 ≡ some (disabled now act v))
  unfolding disable_found find_by_id found enqueue_revoke status_entry audit disabled
  disable_found-ok v none row done = absurd (cc done)
  disable_found-ok v (some u) row done = elim (Bool-cases (is_disabled u.status)) [
    | inl out ↦ absurd (cc (rw out at done))
    | inr usable ↦ elim (Bool-cases (is_last_active_admin k s)) [
      | inl last ↦ absurd (cc (rw (usable, last) at done))
      | inr free ↦
          let answer : found (user_row k s) ≡ ok v = rw (usable, free) at done in
          let same : ok u ≡ ok v = sym (ap found row) ∙ answer in
          let here : u ≡ v = cc in
          (
            row ∙ ap some here,
            rw (sym here) usable,
            rw usable (
                rw free
                  (user_row-update_user k (disabled now act) s v (λ x. refl) (row ∙ ap some here))),
          )
    ]
  ]

-- A disabling that succeeds answers with the row as it was before, whose status is not DISABLED,
-- while the row in the table is that row disabled.
pub disable-old_row :
    (now : ℕ) (act : Act) (k : ℕ) (reason : Option String) (s : Store) (v : User)
    → (disable now act k reason s).1 ≡ ok v
    → (user_row k s ≡ some v)
      × (is_disabled v.status ≡ false)
      × (user_row k (disable now act k reason s).0 ≡ some (disabled now act v))
      × (is_disabled (disabled now act v).status ≡ true)
unfolding disable disabled
disable-old_row now act k reason s v done = elim (Bool-cases (k == act.actor_id)) [
  | inl own ↦ absurd (cc (rw own at done))
  | inr other ↦
      let (row, usable, after) =
        disable_found-ok now act k reason s v (user_row k s) refl (rw other at done) in
      (row, usable, rw other after, refl)
]

-- After an account is disabled no token is granted a session of its user, at any time, whatever
-- Redis holds and though the sessions' rows are not revoked.
pub disable-validate :
    (now later : ℕ) (act : Act) (k h : ℕ) (reason : Option String) (settings : Settings) (s : Store)
    (v : User) (d : SessionData)
    → (disable now act k reason s).1 ≡ ok v
    → (validate later settings h (disable now act k reason s).0).1 ≡ some d
    → d.user_id ≢ k
unfolding disabled refreshed
disable-validate now later act k h reason settings s v d done granted own =
    let (row, usable, after, out) = disable-old_row now act k reason s v done in
    let g = validate-Granted later settings h (disable now act k reason s).0 d granted in
    let whose : g.loaded.user_id ≡ k = sym (ap (λ (x : SessionData). x.user_id) g.result) ∙ own in
    let owner : g.owner ≡ disabled now act v =
      eq_of_some
        (sym g.owned ∙ ap (λ i. user_row i (disable now act k reason s).0) whose ∙ after) in
    cc (sym g.is_in_good_standing ∙ ap (λ (x : User). is_active_status x.status) owner)

-- After an ADMIN sets the password of a user, a token of that user's whose session Redis does not
-- hold is still granted a session: the data are then read from the rows, with the new version.
pub set_password-not_cached :
    (hash : String → String) (now later : ℕ) (act : Act) (k h : ℕ) (password : String)
    (settings : Settings) (s : Store) (r : UserSession) (u : User)
    → s.redis h ≡ none
    → session_row h s ≡ some r
    → r.user_id ≡ k
    → is_revoked r ≡ false
    → later < r.idle_expires_at
    → later < r.absolute_expires_at
    → user_row k s ≡ some u
    → is_active_status u.status ≡ true
    → (d : SessionData) × ((validate later settings h (set_password hash now act k password s).0).1
        ≡ some d)
      × (d.user_id ≡ k)
unfolding set_password set_password_found enqueue_revoke audit with_password data_of refreshed
    update_user
set_password-not_cached hash now later act k h password settings s r u held session own live idle
      over row standing =
    let changed = with_password now act (hash password) u in
    let after = (set_password_found hash now act k password s (some u)).0 in
    let named : u.id ≡ k =
      (==_iff u.id k).0 (take_first-holds (λ (x : User). x.id == k) s.users row) in
    let at_end : user_row k after ≡ some changed =
      user_row-update_user k (with_password now act (hash password)) s u (λ x. refl) row in
    (
      refreshed later settings (data_of h r changed) changed,
      ap (λ o. (validate later settings h (set_password_found hash now act k password s o).0).1) row
          ∙ grants later settings h after (data_of h r changed) changed r
              (load-read h after r changed held session (rw own at_end)) (ground arith)
              (ground arith) (ap (λ i. user_row i after) named ∙ at_end) standing (==_refl now)
              session live,
      named,
    )
