-- ===== src/Admin/Users/Accounts.antt =====
-- What creating and editing accounts, and ending sessions, do to the number of active ADMINs
-- (apps/api/src/admin/users/admin-users.service.ts).
use ikg_studio_model_trainin.Common.{
  take_first, ℕ, ◌≡◌, refl, ap, subst, ◌∙◌, inl, inr, true, false, not, ◌&&◌, ◌||◌, Option, none,
  some, String, [], ◌∷◌, ◌++◌, any, count, count-append, same_text, trim, is_empty_text,
  text_length, ltb, ◌==◌, arith, ==_iff, Bool-cases,
}
use ikg_studio_model_trainin.Http.{Result, ok, err}
use ikg_studio_model_trainin.Auth.Store.{
  UserRole, is_admin, User, UserSession, Store, user_row, update_user, audit,
}
use ikg_studio_model_trainin.Auth.Session.{
  set_cached, revoke_session_by_id, revoke_found, revoke_all_for_user,
}
use ikg_studio_model_trainin.Admin.Users.Rows.{
  Act, enqueue_revoke, is_active_admin, active_admins, is_guarded, is_last_active_admin,
}
use ikg_studio_model_trainin.Admin.Users.Sessions.{delete_found, revoke_all_found}
use ikg_studio_model_trainin.Admin.Users.Creating.{
  CreateParams, is_username, is_email_taken, given_text, new_user, insert_user, chosen_password,
  create,
}
use ikg_studio_model_trainin.Admin.Users.Editing.{
  UpdateParams, or_old, same_role, is_role_changed, edited, record_role, write_edit, given_email,
  update_found,
}
use ikg_studio_model_trainin.Admin.Users.Guarded.{HasAdmin, guard-HasAdmin, keep-HasAdmin}

-- The sessions and the entries are other tables.
module _ (now : ℕ) (act : Act) (s : Store) where
  revoked_users :
      (id owner : ℕ) (reason : Option String)
      → (revoke_session_by_id now id owner reason s).0.users ≡ s.users
  unfolding revoke_session_by_id revoke_found set_cached
  revoked_users id owner reason =
      go (take_first (λ r. r.id == id && r.user_id == owner) s.user_sessions)
    where
      go : (o : Option UserSession) → (revoke_found now id reason s o).0.users ≡ s.users
      go none = refl
      go (some r) = refl

  pub deleted_users :
      (k id : ℕ) (o : Option User) → (delete_found now act k id s o).0.users ≡ s.users
  unfolding delete_found audit
  deleted_users k id none = refl
  deleted_users k id (some u) =
      elim (Bool-cases (revoke_session_by_id now id k (some "ADMIN_REVOKED") s).1) [
        | inl done ↦ rw done (revoked_users id k (some "ADMIN_REVOKED"))
        | inr missing ↦ rw missing (revoked_users id k (some "ADMIN_REVOKED"))
      ]

  pub revoked_all_users :
      (k : ℕ) (o : Option User) → (revoke_all_found now act k s o).0.users ≡ s.users
  unfolding revoke_all_found revoke_all_for_user audit
  revoked_all_users k none = refl
  revoked_all_users k (some u) = refl

  pub role_users :
      (k : ℕ) (p : UpdateParams) (u : User) → (record_role now act k p u s).users ≡ s.users
  unfolding record_role enqueue_revoke audit
  role_users k p u = elim (Bool-cases (is_role_changed p u)) [
    | inl changed ↦ rw changed refl
    | inr same ↦ rw same refl
  ]

role_kept :
    (o : Option UserRole) (r x : UserRole)
    → elim o [ none ↦ false | some q ↦ not (same_role q r) ] ≡ false
    → is_admin r ≡ true
    → is_admin x ≡ true
    → is_admin (or_old o x) ≡ true
role_kept none r x same admin e = e
role_kept (some UserRole.admin) r x same admin e = refl
role_kept (some UserRole.user) UserRole.admin x same admin e = absurd (cc same)
role_kept (some UserRole.user) UserRole.user x same admin e = absurd (cc admin)

module _ (now : ℕ) (act : Act) (k : ℕ) (p : UpdateParams) (s : Store) (h : HasAdmin s.users)
    (u : User) (row : user_row k s ≡ some u) where
  -- A role that is not changed is that of the row, so that an ADMIN stays one.
  same_role-HasAdmin :
      is_role_changed p u ≡ false → HasAdmin (update_user k (edited now act p) s).users
  unfolding edited is_role_changed is_last_active_admin is_guarded active_admins
  same_role-HasAdmin same = elim (Bool-cases (is_admin u.role)) [
    | inr other ↦
        guard-HasAdmin k (edited now act p) s (λ x. refl) h u row
          (ap (is_guarded (active_admins s)) row ∙ rw other refl)
    | inl admin ↦
        keep-HasAdmin k (edited now act p) s (λ x. refl) h
          (λ x e. let still = role_kept p.role u.role x.role same admin in ground (arith, still))
  ]

  edit-HasAdmin :
      (is_role_changed p u && is_last_active_admin k s) ≡ false
      → HasAdmin (write_edit now act k p u s).users
  unfolding write_edit audit
  edit-HasAdmin free = rw (role_users now act _ k p u) (elim (Bool-cases (is_role_changed p u)) [
    | inl changed ↦ guard-HasAdmin k (edited now act p) s (λ x. refl) h u row (rw changed at free)
    | inr same ↦ same_role-HasAdmin same
  ])

module _ (now : ℕ) (act : Act) (s : Store) (h : HasAdmin s.users) where
  pub update_found-HasAdmin :
      (k : ℕ) (p : UpdateParams) (o : Option User)
      → user_row k s ≡ o
      → HasAdmin (update_found now act k p s o).0.users
  unfolding update_found
  update_found-HasAdmin k p none row = h
  update_found-HasAdmin k p (some u) row = elim (Bool-cases (u.row_version == p.row_version)) [
    | inr stale ↦ rw stale h
    | inl current ↦ elim (Bool-cases (is_role_changed p u && k == act.actor_id)) [
      | inl own ↦ rw current (rw own h)
      | inr other ↦ elim (Bool-cases (is_role_changed p u && is_last_active_admin k s)) [
        | inl last ↦ rw current (rw other (rw last h))
        | inr free ↦ elim (Bool-cases (is_email_taken (given_email p) (λ x. not (x.id == k)) s)) [
          | inl taken ↦ rw current (rw other (rw free (rw taken h)))
          | inr fresh ↦
              rw current (rw other (rw free (rw fresh (edit-HasAdmin now act k p s h u row free))))
        ]
      ]
    ]
  ]

  -- A new row under an id that is not used.
  append-HasAdmin :
      (row : User)
      → count (λ (u : User). u.id == row.id) s.users ≡ 0
      → HasAdmin (s.users ++ row ∷ [])
  append-HasAdmin row fresh = record {
    unique = λ j.
        let split = count-append (λ (u : User). u.id == j) s.users (row ∷ []) in
        elim (Bool-cases (row.id == j)) [
          | inl own ↦
              let none_yet : count (λ (u : User). u.id == j) s.users ≡ 0 =
                subst (λ i. count (λ (u : User). u.id == i) s.users ≡ 0) ((==_iff row.id j).0 own)
                  fresh in
              rw (split, own) (omega (arith, none_yet))
          | inr other ↦ let old = h.unique j in rw (split, other) (omega (arith, old))
        ];
    admins =
        let split = count-append is_active_admin s.users (row ∷ []) in
        let some_admin = h.admins in omega (arith, split, some_admin);
  }

  insert-HasAdmin :
      (hash : String → String) (id : ℕ) (params : CreateParams) (password : Result String)
      → count (λ (u : User). u.id == id) s.users ≡ 0
      → HasAdmin (insert_user hash now act id params s password).0.users
  unfolding insert_user audit new_user
  insert-HasAdmin hash id params (err e) fresh = h
  insert-HasAdmin hash id params (ok password) fresh =
      elim (Bool-cases (any (λ (u : User). same_text u.username (trim params.username)) s.users)) [
        | inl taken ↦ rw taken h
        | inr free ↦ elim (Bool-cases (is_email_taken (given_text params.email) (λ u. true) s)) [
          | inl used ↦ rw free (rw used h)
          | inr unused ↦
              rw free
                (rw unused (append-HasAdmin (new_user now act id params (hash password)) fresh))
        ]
      ]

  pub create-HasAdmin :
      (hash : String → String) (id : ℕ) (drawn : String) (params : CreateParams)
      → count (λ (u : User). u.id == id) s.users ≡ 0
      → HasAdmin (create hash now act id drawn params s).0.users
  unfolding create
  create-HasAdmin hash id drawn params fresh =
      elim (Bool-cases (is_username (trim params.username))) [
        | inr odd ↦ rw odd h
        | inl named ↦
            elim (Bool-cases (
              is_empty_text (trim params.display_name)
              || ltb 100 (text_length (trim params.display_name)))) [
                | inl odd ↦ rw named (rw odd h)
                | inr shown ↦ rw named (
                    rw shown (
                      insert-HasAdmin hash id params
                        (chosen_password params.password_mode params.password drawn) fresh))
              ]
      ]
