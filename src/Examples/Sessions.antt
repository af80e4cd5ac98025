-- ===== src/Examples/Sessions.antt =====
-- One user with a workspace, who logs in on a phone.
use revtern.Prelude.{ℕ, Option, none, some, [], ◌∷◌, ◌≡◌, refl, String, any, find, arith}
use revtern.Prelude.Split.{strip_prefix, as_bytes, char_bytes}
use revtern.Core.{sha256_hex, hex_lower}
use revtern.Prelude.Text.{trim}
use revtern.Api.Try.{pass, fail}
use revtern.Api.Handler.{unauthorized, ◌>>=◌}
use revtern.Api.Http.{Headers, header}
use revtern.Api.Verification.{bearer_header, nonempty}
use revtern.Api.Logins.{
  User, Workspace, Member, Logins, CurrentUser, Session, days, add_session, mark_seen,
  first_membership, user_row_where, is_live_session,
}
use revtern.Api.Sessions.{
  hash_of, bearer_session, session_token, create_bearer_session, clear_bearer_session,
  current_from_session,
}
use revtern.Api.Sessions.Lifetime.{create_bearer_session_serves, current_from_session_idle}
use revtern.Examples.Service.{service_platform}

abbrev no_cookies : Headers → String → Option String
no_cookies headers name = none

abbrev ana : User
ana = record {
  id = "u";
  email = "ana@example.com";
  password_hash = none;
  display_name = none;
  role = "owner";
  status = "active";
  created_at = 1;
}

abbrev workspace : Workspace
workspace = record { id = "w"; name = "Apps"; created_at = 1 }

abbrev owner : Member
owner = record { workspace_id = "w"; user_id = "u"; role = "owner"; status = "active" }

abbrev logins : Logins
logins = record {
  users = ana ∷ [];
  workspaces = workspace ∷ [];
  members = owner ∷ [];
  sessions = [];
}

abbrev current : CurrentUser
current = record {
  user_id = "u";
  email = "ana@example.com";
  role = "owner";
  workspace_id = "w";
  workspace_name = "Apps";
}

abbrev phone : Headers
phone = ("authorization", some "Bearer t") ∷ []

abbrev new_session : Session
new_session = bearer_session service_platform 5 "ses" "t" "u"

abbrev logged_in : Logins
logged_in = add_session new_session logins

create_bearer_session_serves_example :
    (create_bearer_session service_platform no_cookies "duplicate" 5 "ses" "t" "u" logins
      ≡ (pass "t", logged_in))
    × (current_from_session service_platform no_cookies "duplicate" (days 29) phone logged_in
        ≡ (pass current, mark_seen (days 29) (hash_of service_platform "t") logged_in))
    × ((any_time : ℕ) (used : Logins)
        → let cleared =
            (clear_bearer_session service_platform no_cookies "duplicate" phone used).1 in
          current_from_session service_platform no_cookies "duplicate" any_time phone cleared
          ≡ (fail (unauthorized "session expired"), cleared))
unfolding any user_row_where first_membership find bearer_header header strip_prefix nonempty trim
create_bearer_session_serves_example =
    create_bearer_session_serves service_platform no_cookies "duplicate" 5 (days 29) "ses" "t" "u"
      phone current logins refl refl refl refl (omega arith)

current_from_session_idle_example :
    current_from_session service_platform no_cookies "duplicate"
      (days 2)
      phone
      (mark_seen 10 (hash_of service_platform "t") logged_in)
    ≡ (fail (unauthorized "session expired"), mark_seen 10 (hash_of service_platform "t") logged_in)
unfolding current_from_session ◌>>=◌ session_token is_live_session user_row_where first_membership
    find bearer_header header strip_prefix nonempty trim sha256_hex hex_lower as_bytes char_bytes
current_from_session_idle_example =
    current_from_session_idle service_platform no_cookies "duplicate" 10 (days 2) phone phone
      logged_in (mark_seen 10 (hash_of service_platform "t") logged_in) current refl refl
      (omega arith)
