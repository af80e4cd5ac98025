-- ===== src/Api/Accounts/Invitations.antt =====
-- `accept_invitation_in_transaction` of crates/api/src/routes.rs.
pub mod Once
use revtern.Prelude.{
  ℕ, String, Bool, true, false, ◌&&◌, not, Option, none, some, List, [], ◌∷◌, ◌++◌, if◌then◌else◌,
  str_eq, ltb, find, put, update_where, is_some,
}
use revtern.Prelude.Text.{trim, to_ascii_lowercase}
use revtern.Runtime.{Instant}
use revtern.Api.Try.{Try, pass, fail}
use revtern.Api.Handler.{
  ApiError, not_found, forbidden, Handler, ◌>>=◌, ◌>>◌, pure, lift, gets, modify, guard_that, ok_or,
}
use revtern.Api.Accounts.{
  App, WorkspaceUser, AppMembership, AppInvitation, Accounts, is_live_app, is_workspace_user,
  is_membership,
}

abbrev pub has_invitation_id : String → AppInvitation → Bool
has_invitation_id id invitation = str_eq invitation.id id

-- The `where` of the query.
unfoldable pub is_pending : Instant → String → AppInvitation → Bool
is_pending now token_hash invitation =
    str_eq invitation.token_hash token_hash
    && (not (is_some invitation.accepted_at)
        && (not (is_some invitation.revoked_at) && ltb now invitation.expires_at))

-- The join with the application.
abbrev pub is_acceptable : Instant → String → List App → AppInvitation → Bool
is_acceptable now token_hash apps invitation =
    is_pending now token_hash invitation && is_some (find (is_live_app invitation.app_id) apps)

abbrev pub pair_with : AppInvitation → Option App → Option (AppInvitation × App)
pair_with invitation none = none
pair_with invitation (some app) = some (invitation, app)

abbrev pub with_app : List App → Option AppInvitation → Option (AppInvitation × App)
with_app apps none = none
with_app apps (some invitation) = pair_with invitation (find (is_live_app invitation.app_id) apps)

unfoldable pub pending_invitation : Instant → String → Accounts → Option (AppInvitation × App)
pending_invitation now token_hash accounts =
    with_app accounts.apps
      (find (is_acceptable now token_hash accounts.apps) accounts.app_invitations)

-- `insert into workspace_users … on conflict do nothing`.
abbrev with_user : WorkspaceUser → Option WorkspaceUser → List WorkspaceUser → List WorkspaceUser
with_user row none rows = rows ++ row ∷ []
with_user row (some existing) rows = rows

unfoldable pub join_workspace : String → String → Handler Accounts (Unit {0})
join_workspace workspace_id user_id = modify λ accounts. record accounts {
  workspace_users =
      with_user
        (record {
          workspace_id = workspace_id;
          user_id = user_id;
          role = "guest";
          status = "active";
        })
        (find (is_workspace_user workspace_id user_id) accounts.workspace_users)
        accounts.workspace_users;
}

-- `insert into app_memberships … on conflict do update set role_id`.
unfoldable pub grant_role : String → String → String → Handler Accounts (Unit {0})
grant_role app_id user_id role_id = modify λ accounts. record accounts {
  app_memberships =
      put (is_membership app_id user_id)
        (record { app_id = app_id; user_id = user_id; role_id = role_id }) accounts.app_memberships;
}

abbrev pub accepted : Instant → String → AppInvitation → AppInvitation
accepted now user_id invitation = record invitation {
  accepted_at = some now;
  accepted_by_user_id = some user_id;
}

unfoldable pub mark_accepted : Instant → String → String → Handler Accounts (Unit {0})
mark_accepted now id user_id = modify λ accounts. record accounts {
  app_invitations =
      update_where (has_invitation_id id) (accepted now user_id) accounts.app_invitations;
}

unfoldable pub accept_invitation_in_transaction :
    Instant → String → String → String → Handler Accounts String
accept_invitation_in_transaction now token_hash user_id email = do
  found ← gets (pending_invitation now token_hash)
  (invitation, app) ← lift (ok_or (not_found "invitation not found or expired") found)
  guard_that (not (str_eq invitation.normalized_email (to_ascii_lowercase (trim email))))
      (forbidden "this invitation was issued to a different email address")
  join_workspace app.workspace_id user_id
  grant_role invitation.app_id user_id invitation.role_id
  mark_accepted now invitation.id user_id
  pure invitation.app_id
