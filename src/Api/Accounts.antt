-- ===== src/Api/Accounts.antt =====
-- crates/api/src/access.rs and the tables behind it (crates/api/migrations/0005_multi_user_foundation.sql):
-- who may do what with an application.
pub mod Permits
pub mod Invitations
use revtern.Prelude.{
  ℕ, String, Bool, true, false, ◌&&◌, ◌||◌, not, Option, none, some, List, [], ◌∷◌, ◌++◌,
  if◌then◌else◌, str_eq, find, any, is_some,
}
use revtern.Runtime.{Instant}
use revtern.Core.{◌+++◌, one_of}
use revtern.Api.Try.{Try, pass, fail}
use revtern.Api.Handler.{ApiError, not_found, forbidden}

pub data Capability : Type 0 where
  app_read export_run app_write catalog_write source_write source_credentials_write jobs_run
        members_manage :
      Capability

-- `Capability::as_str`.
abbrev pub capability_text : Capability → String
capability_text app_read = "app.read"
capability_text export_run = "export.run"
capability_text app_write = "app.write"
capability_text catalog_write = "catalog.write"
capability_text source_write = "source.write"
capability_text source_credentials_write = "source.credentials.write"
capability_text jobs_run = "jobs.run"
capability_text members_manage = "members.manage"

pub record App : Type 0 where
  pub id : String
  pub workspace_id : String
  pub owner_user_id : String
  pub deleted_at : Option Instant

pub record WorkspaceUser : Type 0 where
  pub workspace_id : String
  pub user_id : String
  pub role : String
  pub status : String

pub record AppRole : Type 0 where
  pub id : String
  pub role_key : String

pub record AppRolePermission : Type 0 where
  pub role_id : String
  pub permission : String

pub record AppMembership : Type 0 where
  pub app_id : String
  pub user_id : String
  pub role_id : String

pub record AppInvitation : Type 0 where
  pub id : String
  pub app_id : String
  pub normalized_email : String
  pub role_id : String
  pub token_hash : String
  pub expires_at : Instant
  pub accepted_at : Option Instant
  pub accepted_by_user_id : Option String
  pub revoked_at : Option Instant

pub record Accounts : Type 0 where
  pub apps : List App
  pub workspace_users : List WorkspaceUser
  pub app_roles : List AppRole
  pub app_role_permissions : List AppRolePermission
  pub app_memberships : List AppMembership
  pub app_invitations : List AppInvitation

pub record AppAccess : Type 0 where
  pub app_id : String
  pub workspace_id : String
  pub role : String
  pub permissions : List String

-- What an owner and a workspace's owners and administrators may do.
abbrev pub all_permissions : List String
all_permissions =
    "app.read" ∷ "ledger.read" ∷ "events.sensitive.read" ∷ "export.run" ∷ "app.write"
    ∷ "catalog.write" ∷ "source.write" ∷ "source.credentials.write" ∷ "jobs.run" ∷ "members.manage"
    ∷ []

abbrev pub is_live_app : String → App → Bool
is_live_app app_id app = str_eq app.id app_id && not (is_some app.deleted_at)

abbrev pub is_workspace_user : String → String → WorkspaceUser → Bool
is_workspace_user workspace_id user_id row =
    str_eq row.workspace_id workspace_id && str_eq row.user_id user_id

-- An active owner or administrator of the workspace.
abbrev pub is_manager : Option WorkspaceUser → Bool
is_manager none = false
is_manager (some row) = str_eq row.status "active" && one_of row.role ("owner" ∷ "admin" ∷ [])

abbrev pub is_membership : String → String → AppMembership → Bool
is_membership app_id user_id row = str_eq row.app_id app_id && str_eq row.user_id user_id

unfoldable pub permissions_of_role : String → List AppRolePermission → List String
permissions_of_role role_id [] = []
permissions_of_role role_id (row ∷ rows) =
    let rest = permissions_of_role role_id rows in
    if str_eq row.role_id role_id then row.permission ∷ rest else rest

abbrev pub member_permissions : Option AppMembership → List AppRolePermission → List String
member_permissions none rows = []
member_permissions (some membership) rows = permissions_of_role membership.role_id rows

abbrev pub workspace_user_of : Accounts → App → String → Option WorkspaceUser
workspace_user_of accounts app user_id =
    find (is_workspace_user app.workspace_id user_id) accounts.workspace_users

abbrev pub membership_of : Accounts → String → String → Option AppMembership
membership_of accounts app_id user_id = find (is_membership app_id user_id) accounts.app_memberships

-- The rows of the view `effective_app_permissions` for one live application and user.
unfoldable pub effective_app_permissions : Accounts → App → String → List String
effective_app_permissions accounts app user_id =
    (if str_eq app.owner_user_id user_id then all_permissions else [])
    ++ ((if is_manager (workspace_user_of accounts app user_id) then all_permissions else [])
        ++ member_permissions (membership_of accounts app.id user_id) accounts.app_role_permissions)

abbrev role_key_of : List AppRole → Option AppMembership → String
role_key_of roles none = "viewer"
role_key_of roles (some membership) =
    elim (find (λ role. str_eq role.id membership.role_id) roles) [
      | none ↦ "viewer"
      | some role ↦ role.role_key
    ]

abbrev access_role : Accounts → App → String → String
access_role accounts app user_id =
    if str_eq app.owner_user_id user_id
    then "owner"
    else if is_manager (workspace_user_of accounts app user_id)
    then "workspace_admin"
    else role_key_of accounts.app_roles (membership_of accounts app.id user_id)

-- The inner join with the view leaves no row without a permission.
abbrev pub some_access : AppAccess → List String → Option AppAccess
some_access access [] = none
some_access access (permission ∷ permissions) = some access

abbrev pub access_to : Accounts → String → Option App → Option AppAccess
access_to accounts user_id none = none
access_to accounts user_id (some app) =
    let permissions = effective_app_permissions accounts app user_id in
    some_access
      (record {
        app_id = app.id;
        workspace_id = app.workspace_id;
        role = access_role accounts app user_id;
        permissions = permissions;
      })
      permissions

unfoldable pub app_access : Accounts → String → String → Option AppAccess
unfolding effective_app_permissions
app_access accounts user_id app_id =
    access_to accounts user_id (find (is_live_app app_id) accounts.apps)

abbrev pub check_capability : Capability → Option AppAccess → Try ApiError AppAccess
check_capability capability none = fail (not_found "app not found")
check_capability capability (some access) =
    if any (λ permission. str_eq permission (capability_text capability)) access.permissions
    then pass access
    else fail (forbidden (capability_text capability +++ " permission is required"))

unfoldable pub require_app : Accounts → String → String → Capability → Try ApiError AppAccess
unfolding app_access any
require_app accounts user_id app_id capability =
    check_capability capability (app_access accounts user_id app_id)
