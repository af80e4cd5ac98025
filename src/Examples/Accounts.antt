-- ===== src/Examples/Accounts.antt =====
-- One application with its owner and a member to be, who holds an invitation.
use revtern.Prelude.{none, [], ◌∷◌, ◌≡◌, refl, find}
use revtern.Prelude.Text.{trim, to_ascii_lowercase, map_chars}
use revtern.Api.Handler.{◌>>=◌}
use revtern.Api.Accounts.{
  App, AppInvitation, AppRolePermission, Accounts, jobs_run, is_live_app, require_app,
}
use revtern.Api.Accounts.Permits.{passes, permits, require_app-permits}
use revtern.Api.Accounts.Invitations.{
  is_pending, pending_invitation, join_workspace, grant_role, mark_accepted,
  accept_invitation_in_transaction,
}
use revtern.Api.Accounts.Invitations.Once.{IsAccepted, accept_invitation-IsAccepted}

abbrev shop : App
shop = record { id = "app"; workspace_id = "ws"; owner_user_id = "olga"; deleted_at = none }

abbrev invitation : AppInvitation
invitation = record {
  id = "inv";
  app_id = "app";
  normalized_email = "ana@example.com";
  role_id = "operator";
  token_hash = "hash";
  expires_at = 100;
  accepted_at = none;
  accepted_by_user_id = none;
  revoked_at = none;
}

abbrev runs_jobs : AppRolePermission
runs_jobs = record { role_id = "operator"; permission = "jobs.run" }

abbrev invited : Accounts
invited = record {
  apps = shop ∷ [];
  workspace_users = [];
  app_roles = [];
  app_role_permissions = runs_jobs ∷ [];
  app_memberships = [];
  app_invitations = invitation ∷ [];
}

require_app-permits_example :
    passes (require_app invited "olga" "app" jobs_run)
    ≡ permits invited "olga" jobs_run (find (is_live_app "app") invited.apps)
require_app-permits_example = require_app-permits invited "olga" "app" jobs_run

accept_invitation-IsAccepted_example :
    IsAccepted 50 "hash" "ana" " Ana@Example.com" invited
      (accept_invitation_in_transaction 50 "hash" "ana" " Ana@Example.com" invited).1
      "app"
unfolding accept_invitation_in_transaction ◌>>=◌ pending_invitation find is_pending trim
    to_ascii_lowercase map_chars join_workspace grant_role mark_accepted
accept_invitation-IsAccepted_example =
    accept_invitation-IsAccepted 50 "hash" "ana" " Ana@Example.com" "inv" "app" invited
      (accept_invitation_in_transaction 50 "hash" "ana" " Ana@Example.com" invited).1
      ((λ same. refl), tt) refl
