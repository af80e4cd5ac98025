-- ===== src/Api/Sessions/Modes.antt =====
-- crates/api/src/auth.rs: the user of a request under each mode of authentication, and the guard
-- against forged requests.
use revtern.Prelude.{
  ℕ, ◌+◌, String, Bool, true, false, ◌||◌, not, Option, none, some, List, [], ◌∷◌, ◌++◌,
  if◌then◌else◌, str_eq, leb, find, any, is_some, and_then, or_else,
}
use revtern.Prelude.Text.{trim, to_ascii_lowercase}
use revtern.Runtime.{Runtime, Instant}
use revtern.Core.{◌+++◌, one_of, new_id}
use revtern.Api.Handler.{
  unauthorized, forbidden, sqlx, Handler, ◌>>=◌, ◌>>◌, pure, lift, gets, modify, guard_that, ok_or,
}
use revtern.Api.Http.{Headers, header}
use revtern.Api.Verification.{bearer_header, nonempty}
use revtern.Api.Logins.{User, Workspace, Member, Logins, CurrentUser, current_user, user_row_where}
use revtern.Api.Sessions.{csrf_cookie, current_from_session}

-- crates/api/src/config.rs.
pub data AuthMode : Type 0 where
  local reverse_proxy disabled : AuthMode

abbrev is_local : AuthMode → Bool
is_local local = true
is_local reverse_proxy = false
is_local disabled = false

abbrev needs_no_csrf : String → Headers → AuthMode → Bool
needs_no_csrf method headers mode =
    one_of method ("GET" ∷ "HEAD" ∷ "OPTIONS" ∷ [])
    || (not (is_local mode) || is_some (bearer_header headers))

-- The first of two headers that is there, visible or not.
abbrev either_header : Headers → String → String → Option (String × Option String)
either_header headers name other =
    or_else (find (λ entry. str_eq entry.0 name) headers)
      (find (λ entry. str_eq entry.0 other) headers)

unfoldable pub forwarded_email : Headers → Option String
forwarded_email headers =
    and_then (either_header headers "x-forwarded-email" "x-forwarded-user") λ entry.
      and_then entry.1
        λ value. and_then (nonempty (trim value)) λ email. some (to_ascii_lowercase email)

abbrev is_email : String → User → Bool
is_email email user = str_eq user.email email

abbrev add_user : User → Logins → Logins
add_user user db = record db { users = db.users ++ user ∷ [] }

abbrev add_workspace : Workspace → Logins → Logins
add_workspace workspace db = record db { workspaces = db.workspaces ++ workspace ∷ [] }

abbrev add_member : Member → Logins → Logins
add_member member db = record db { members = db.members ++ member ∷ [] }

-- The address of a user is unique in the table.
unfoldable pub insert_user : String → User → Handler Logins (Unit {0})
insert_user violation user = do
  taken ← gets λ db. any (is_email user.email) db.users
  guard_that taken (sqlx violation)
  modify (add_user user)

-- The first row of the join for one user, whatever their states.
abbrev row_or : User → Member → Option Workspace → Option CurrentUser → Option CurrentUser
row_or user member none rest = rest
row_or user member (some workspace) rest = some (current_user user (member, workspace))

unfoldable pub any_membership : User → List Workspace → List Member → Option CurrentUser
any_membership user workspaces [] = none
any_membership user workspaces (member ∷ members) =
    let rest = any_membership user workspaces members in
    if str_eq member.user_id user.id
    then row_or user member (find (λ w. str_eq w.id member.workspace_id) workspaces) rest
    else rest

abbrev older_row :
    Instant × CurrentUser → Option (Instant × CurrentUser) → Option (Instant × CurrentUser)
older_row row none = some row
older_row row (some other) = if leb row.0 other.0 then some row else some other

abbrev with_row :
    User → Option CurrentUser → Option (Instant × CurrentUser) → Option (Instant × CurrentUser)
with_row user none rest = rest
with_row user (some row) rest = older_row (user.created_at, row) rest

-- `order by u.created_at asc limit 1` of the joined rows.
unfoldable pub oldest_row : List User → Logins → Option (Instant × CurrentUser)
oldest_row [] db = none
oldest_row (user ∷ users) db =
    with_row user (any_membership user db.workspaces db.members) (oldest_row users db)

unfoldable pub oldest_workspace : List Workspace → Option Workspace
oldest_workspace [] = none
oldest_workspace (workspace ∷ workspaces) = elim (oldest_workspace workspaces) [
  | none ↦ some workspace
  | some other ↦ if leb workspace.created_at other.created_at then some workspace else some other
]

abbrev new_workspace : Instant → (workspace_id name : String) → Workspace
new_workspace now workspace_id name = record { id = workspace_id; name = name; created_at = now }

abbrev new_owner : (workspace_id user_id : String) → Member
new_owner workspace_id user_id = record {
  workspace_id = workspace_id;
  user_id = user_id;
  role = "owner";
  status = "active";
}

-- `drawn` identifiers were drawn before the call.
module _ (rt : Runtime) (get_cookie : Headers → String → Option String) (violation : String) where
  -- `CsrfGuard::from_request_parts`.
  unfoldable pub csrf_guard : String → Headers → AuthMode → Handler Logins (Unit {0})
  csrf_guard method headers mode = if needs_no_csrf method headers mode then pure tt else (do
    cookie ← lift (ok_or (forbidden "missing csrf cookie") (get_cookie headers csrf_cookie))
    sent ← lift (ok_or (forbidden "missing csrf header") (header headers "x-csrf-token"))
    guard_that (not (str_eq cookie sent)) (forbidden "invalid csrf token"))

  abbrev proxied_user : Instant → (user_id email : String) → User
  proxied_user now user_id email = record {
    id = user_id;
    email = email;
    password_hash = none;
    display_name = some email;
    role = "owner";
    status = "active";
    created_at = now;
  }

  -- The three rows are written in one transaction, of which only the first statement can fail.
  unfoldable pub register_proxied :
      Instant → (workspace_id user_id email : String) → Handler Logins CurrentUser
  register_proxied now workspace_id user_id email = do
    insert_user violation (proxied_user now user_id email)
    modify (add_workspace (new_workspace now workspace_id (email +++ "'s Apps")))
    modify (add_member (new_owner workspace_id user_id))
    pure (
        current_user (proxied_user now user_id email)
          (new_owner workspace_id user_id, new_workspace now workspace_id (email +++ "'s Apps")))

  unfoldable pub current_from_reverse_proxy : Instant → ℕ → Headers → Handler Logins CurrentUser
  current_from_reverse_proxy now drawn headers = do
    email ←
        lift (ok_or (unauthorized "reverse proxy user header missing") (forwarded_email headers))
    existing ← gets (user_row_where (is_email email))
    elim existing [
      | some row ↦ pure row
      | none ↦ register_proxied now (new_id rt drawn "wsp") (new_id rt (drawn + 1) "usr") email
    ]

  abbrev ensured : Instant → ℕ → Option Workspace → Handler Logins String
  ensured now drawn (some workspace) = pure workspace.id
  ensured now drawn none = do
    modify (add_workspace (new_workspace now (new_id rt drawn "wsp") "Revtern"))
    pure (new_id rt drawn "wsp")

  unfoldable pub ensure_workspace : Instant → ℕ → Handler Logins String
  ensure_workspace now drawn = do
    oldest ← gets λ db. oldest_workspace db.workspaces
    ensured now drawn oldest

  abbrev dev_user : Instant → String → User
  dev_user now user_id = record {
    id = user_id;
    email = "dev@revtern.local";
    password_hash = some "disabled";
    display_name = none;
    role = "owner";
    status = "active";
    created_at = now;
  }

  -- Without a transaction: a workspace that was made stays if the user cannot be inserted.
  unfoldable pub register_dev : Instant → ℕ → Handler Logins CurrentUser
  register_dev now drawn = do
    workspace_id ← ensure_workspace now drawn
    let user_id = new_id rt (drawn + 1) "usr"
    insert_user violation (dev_user now user_id)
    modify (add_member (new_owner workspace_id user_id))
    pure (
        current_user (dev_user now user_id)
          (new_owner workspace_id user_id, new_workspace now workspace_id "Revtern"))

  unfoldable pub current_disabled : Instant → ℕ → Handler Logins CurrentUser
  current_disabled now drawn = do
    oldest ← gets λ db. oldest_row db.users db
    elim oldest [ some row ↦ pure row.1 | none ↦ register_dev now drawn ]

  -- `CurrentUser::from_request_parts`.
  unfoldable pub current_user_of : AuthMode → Instant → ℕ → Headers → Handler Logins CurrentUser
  current_user_of local now drawn headers = current_from_session rt get_cookie violation now headers
  current_user_of reverse_proxy now drawn headers = current_from_reverse_proxy now drawn headers
  current_user_of disabled now drawn headers = current_disabled now drawn
