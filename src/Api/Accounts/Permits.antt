-- ===== src/Api/Accounts/Permits.antt =====
-- Whom `require_app` lets pass.
use revtern.Prelude.{
  String, Bool, true, false, ◌&&◌, ◌||◌, Option, none, some, List, [], ◌∷◌, ◌++◌, ◌≡◌, refl, inl,
  inr, ap, ◌∙◌, if◌then◌else◌, str_eq, find, any, Bool-cases, Option-cases,
}
use revtern.Api.Try.{Try, pass, fail}
use revtern.Api.Handler.{ApiError}
use revtern.Api.Accounts.{
  Capability, app_read, export_run, app_write, catalog_write, source_write,
  source_credentials_write, jobs_run, members_manage, capability_text, App, AppRolePermission,
  AppMembership, Accounts, AppAccess, all_permissions, is_live_app, is_manager, permissions_of_role,
  member_permissions, workspace_user_of, membership_of, effective_app_permissions, some_access,
  app_access, check_capability, require_app,
}

abbrev pub passes : {A : Type 0} → Try ApiError A → Bool
passes (pass a) = true
passes (fail e) = false

-- The role of the membership has the permission.
abbrev pub role_grants : Option AppMembership → String → List AppRolePermission → Bool
role_grants none permission rows = false
role_grants (some membership) permission rows =
    any (λ row. str_eq row.role_id membership.role_id && str_eq row.permission permission) rows

-- The owner, a manager of the workspace, or a member whose role has the permission; nobody, if there
-- is no such application or it was deleted.
abbrev pub permits : Accounts → String → Capability → Option App → Bool
permits accounts user_id capability none = false
permits accounts user_id capability (some app) =
    str_eq app.owner_user_id user_id
    || (is_manager (workspace_user_of accounts app user_id)
        || role_grants (membership_of accounts app.id user_id) (capability_text capability)
            accounts.app_role_permissions)

any-append : {A : Type 0} (p : A → Bool) (xs ys : List A) → any p (xs ++ ys) ≡ any p xs || any p ys
unfolding any
any-append p [] ys = refl
any-append p (x ∷ xs) ys = elim (Bool-cases (p x)) [
  | inl here ↦ rw here
  | inr there ↦ rw there (any-append p xs ys)
]

all_have :
    (capability : Capability)
    → any (λ permission. str_eq permission (capability_text capability)) all_permissions ≡ true
unfolding any
all_have app_read = refl
all_have export_run = refl
all_have app_write = refl
all_have catalog_write = refl
all_have source_write = refl
all_have source_credentials_write = refl
all_have jobs_run = refl
all_have members_manage = refl

all_if :
    (capability : Capability) (b : Bool)
    → any
        (λ permission. str_eq permission (capability_text capability))
        (if b then all_permissions else [])
      ≡ b
unfolding any
all_if capability true = all_have capability
all_if capability false = refl

role_lem :
    (role_id permission : String) (rows : List AppRolePermission)
    → any (λ other. str_eq other permission) (permissions_of_role role_id rows)
      ≡ any (λ row. str_eq row.role_id role_id && str_eq row.permission permission) rows
unfolding any permissions_of_role
role_lem role_id permission [] = refl
role_lem role_id permission (row ∷ rows) = elim (Bool-cases (str_eq row.role_id role_id)) [
  | inl same ↦ rw same (rw (role_lem role_id permission rows))
  | inr other ↦ rw other (role_lem role_id permission rows)
]

member_lem :
    (membership : Option AppMembership) (permission : String) (rows : List AppRolePermission)
    → any (λ other. str_eq other permission) (member_permissions membership rows)
      ≡ role_grants membership permission rows
unfolding any
member_lem none permission rows = refl
member_lem (some membership) permission rows = role_lem membership.role_id permission rows

passes-check :
    (capability : Capability) (access : AppAccess) (permissions : List String)
    → access.permissions ≡ permissions
    → passes (check_capability capability (some_access access permissions))
      ≡ any (λ permission. str_eq permission (capability_text capability)) permissions
unfolding any
passes-check capability access [] same = refl
passes-check capability access (x ∷ xs) same =
    rw same
      (elim (Bool-cases
        (any (λ permission. str_eq permission (capability_text capability)) (x ∷ xs))) [
          | inl has ↦ rw has
          | inr lacks ↦ rw lacks
        ])

granted :
    (accounts : Accounts) (user_id : String) (capability : Capability) (app : App)
    → any
        (λ permission. str_eq permission (capability_text capability))
        (effective_app_permissions accounts app user_id)
      ≡ permits accounts user_id capability (some app)
unfolding effective_app_permissions
granted accounts user_id capability app =
    let owned = if str_eq app.owner_user_id user_id then all_permissions else [] in
    let managed =
      if is_manager (workspace_user_of accounts app user_id) then all_permissions else [] in
    let given =
      member_permissions (membership_of accounts app.id user_id) accounts.app_role_permissions in
    any-append _ owned (managed ++ given)
    ∙ rw (all_if capability (str_eq app.owner_user_id user_id)) (
        ap (λ rest. str_eq app.owner_user_id user_id || rest)
          (any-append _ managed given
            ∙ rw (all_if capability (is_manager (workspace_user_of accounts app user_id))) (
                rw (
                  member_lem (membership_of accounts app.id user_id) (capability_text capability)
                    accounts.app_role_permissions))))

-- A user passes the check of a capability exactly if the application is there and not deleted, and
-- the user owns it, is an active owner or administrator of its workspace, or is a member with a role
-- that has the permission.
pub require_app-permits :
    (accounts : Accounts) (user_id app_id : String) (capability : Capability)
    → passes (require_app accounts user_id app_id capability)
      ≡ permits accounts user_id capability (find (is_live_app app_id) accounts.apps)
unfolding require_app app_access
require_app-permits accounts user_id app_id capability =
    elim (Option-cases (find (is_live_app app_id) accounts.apps)) [
      | inl missing ↦ rw missing
      | inr (app, live) ↦ rw live (
          passes-check capability _ (effective_app_permissions accounts app user_id) refl
          ∙ granted accounts user_id capability app)
    ]
