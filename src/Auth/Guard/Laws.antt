-- ===== src/Auth/Guard/Laws.antt =====
-- Whom the guard admits (apps/api/src/auth/guards/auth.guard.ts).
use ikg_studio_model_trainin.Common.{
  ℕ, ◌≡◌, refl, ap, subst, inl, inr, Bool, true, false, not, ◌&&◌, Option, none, some, String,
  arith, Bool-cases, if◌then◌else◌,
}
use ikg_studio_model_trainin.Auth.Store.{UserRole, SessionData, Store, Settings}
use ikg_studio_model_trainin.Auth.Session.{validate}
use ikg_studio_model_trainin.Auth.Session.Laws.{Granted, validate-Granted}
use ikg_studio_model_trainin.Auth.Permission.{PermissionCode, has_permission, role_permissions}
use ikg_studio_model_trainin.Auth.Guard.{
  Route, Request, CurrentUser, Verdict, is_write, is_allowed_path, role_allowed,
  permissions_allowed, csrf_valid, check_request, check_session, check_token, can_activate,
}

-- Everything that the guard asks of a request that it admits.
pub record Admitted (hash : ℕ → ℕ) (signed : String → ℕ → Bool) (now : ℕ) (settings : Settings)
    (r : Route) (q : Request) (s : Store) (u : CurrentUser) : Type 0 where
  pub token : ℕ
  pub carried : q.token ≡ some token
  pub session : SessionData
  pub granted : Granted now settings (hash token) s session
  pub password : (session.must_change_password && not (is_allowed_path r)) ≡ false
  pub csrf : (is_write r && not (csrf_valid hash signed token q.csrf)) ≡ false
  pub role : role_allowed r session.role ≡ true
  pub permissions : permissions_allowed r session.role ≡ true
  pub identity : u.id ≡ session.user_id
  pub same_role : u.role ≡ session.role

abbrev AdmittedBy :
    (ℕ → ℕ) → (String → ℕ → Bool) → ℕ → Settings → Route → Request → Store → Verdict → Type 0
AdmittedBy hash signed now settings r q s (Verdict.admits u) =
    Admitted hash signed now settings r q s u
AdmittedBy hash signed now settings r q s _ = Unit

module _ (hash : ℕ → ℕ) (signed : String → ℕ → Bool) (now : ℕ) (settings : Settings) (r : Route)
    (q : Request) (s : Store) where
  request-Admitted :
      (token : ℕ) (d : SessionData)
      → q.token ≡ some token
      → Granted now settings (hash token) s d
      → AdmittedBy hash signed now settings r q s (check_request hash signed r q token d)
  unfolding check_request
  request-Admitted token d carried granted =
      elim (Bool-cases (d.must_change_password && not (is_allowed_path r))) [
        | inl stuck ↦ rw stuck tt
        | inr fresh ↦ elim (Bool-cases (is_write r && not (csrf_valid hash signed token q.csrf))) [
          | inl forged ↦ rw fresh (rw forged tt)
          | inr genuine ↦ elim (Bool-cases (role_allowed r d.role)) [
            | inr other ↦ rw fresh (rw genuine (rw other tt))
            | inl fits ↦ elim (Bool-cases (permissions_allowed r d.role)) [
              | inr lacks ↦ rw fresh (rw genuine (rw fits (rw lacks tt)))
              | inl may ↦ rw fresh (
                  rw genuine (
                    rw fits (
                      rw may (record {
                        token = token;
                        carried = carried;
                        session = d;
                        granted = granted;
                        password = fresh;
                        csrf = genuine;
                        role = fits;
                        permissions = may;
                        identity = refl;
                        same_role = refl;
                      }))))
            ]
          ]
        ]
      ]

  session-Admitted :
      (token : ℕ) (v : Store × Option SessionData)
      → q.token ≡ some token
      → validate now settings (hash token) s ≡ v
      → AdmittedBy hash signed now settings r q s (check_session hash signed r q token v).1
  unfolding check_session
  session-Admitted token (after, none) carried e = tt
  session-Admitted token (after, some d) carried e = request-Admitted token d carried (
      validate-Granted now settings (hash token) s d
        (ap (λ (p : Store × Option SessionData). p.1) e))

  token-Admitted :
      (o : Option ℕ)
      → q.token ≡ o
      → AdmittedBy hash signed now settings r q s (check_token hash signed now settings r q o s).1
  unfolding check_token
  token-Admitted none e = tt
  token-Admitted (some token) e =
      session-Admitted token (validate now settings (hash token) s) e refl

  route-Admitted :
      (public : Bool)
      → AdmittedBy hash signed now settings r q s
          (if public
            then (s, Verdict.passes)
            else check_token hash signed now settings r q q.token s).1
  route-Admitted true = tt
  route-Admitted false = token-Admitted q.token refl

  guarded :
      AdmittedBy hash signed now settings r q s (can_activate hash signed now settings r q s).1
  unfolding can_activate
  guarded = route-Admitted r.is_public

-- A request is admitted as a user only with a token that is granted a session, whose user need not
-- change the password first or asks for a route that is allowed until then, with a signed CSRF
-- header where the method writes, and with a role and permissions that the route asks for; the user
-- is the session's.
pub can_activate-Admitted :
    (hash : ℕ → ℕ) (signed : String → ℕ → Bool) (now : ℕ) (settings : Settings) (r : Route)
    (q : Request) (s : Store) (u : CurrentUser)
    → (can_activate hash signed now settings r q s).1 ≡ Verdict.admits u
    → Admitted hash signed now settings r q s u
can_activate-Admitted hash signed now settings r q s u h =
    subst (AdmittedBy hash signed now settings r q s) h (guarded hash signed now settings r q s)

-- An administrator has every permission that a user has.
pub admin_has_permission :
    (p : PermissionCode)
    → has_permission UserRole.user p ≡ true
    → has_permission UserRole.admin p ≡ true
unfolding has_permission role_permissions
admin_has_permission p h = ground arith
