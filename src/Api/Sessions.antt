-- ===== src/Api/Sessions.antt =====
-- crates/api/src/auth.rs: sessions in cookies and in bearer tokens.
pub mod Lifetime
pub mod Modes
use mathlib.Core.Option
use revtern.Prelude.{
  ℕ, ◌+◌, ◌*◌, min, String, Bool, true, false, ◌&&◌, not, Option, none, some, List, [], ◌∷◌, ◌++◌,
  if◌then◌else◌, str_eq, nat_eq, ltb, find, any, is_some, update_where, and_then, or_else,
  unwrap_or,
}
use revtern.Prelude.Split.{as_bytes}
use revtern.Runtime.{Runtime, Instant}
use revtern.Core.{sha256_hex}
use revtern.Api.Handler.{
  ApiError, unauthorized, sqlx, Handler, ◌>>=◌, ◌>>◌, pure, lift, gets, modify, guard_that, ok_or,
}
use revtern.Api.Http.{Headers}
use revtern.Api.Verification.{bearer_header}
use revtern.Api.Logins.{
  User, Workspace, Member, Session, Logins, CurrentUser, hours, days, has_hash, add_session,
  is_user, insert_session, is_live_session, first_membership, current_user, user_row_where,
  user_row, session_user, seen, mark_seen, without, delete_session,
}

-- A `Set-Cookie` with the path `/` and `SameSite=Lax`; `max_age` in seconds.
pub record Cookie : Type 0 where
  pub name : String
  pub value : String
  pub http_only : Bool
  pub secure : Bool
  pub max_age : ℕ

abbrev pub session_cookie : String
session_cookie = "revtern_session"

abbrev pub csrf_cookie : String
csrf_cookie = "revtern_csrf"

module _ (rt : Runtime) where
  abbrev pub hash_of : String → String
  hash_of token = sha256_hex rt (as_bytes token)

  abbrev pub bearer_session : Instant → (session_id token user_id : String) → Session
  bearer_session now session_id token user_id = record {
    id = session_id;
    user_id = user_id;
    session_hash = hash_of token;
    expires_at = now + days 30;
    idle_expires_at = some (now + days 30);
    auth_identity_id = none;
    auth_method = "local_mobile";
    created_at = now;
    last_seen_at = now;
    revoked_at = none;
  }

-- `get_cookie` is `CookieJar::from_headers(headers).get(name)`; a random token and an identifier are
-- arguments where they are drawn, and `now` is the time of the clock and of the database.
module _ (rt : Runtime) (get_cookie : Headers → String → Option String) (violation : String) where
  -- The inserted row and the two cookies that are added to the jar.
  unfoldable pub create_session_with_identity :
      Instant
      → (session_id token csrf user_id : String) → Option String
      → String
      → Bool
      → Handler Logins (List Cookie)
  create_session_with_identity now session_id token csrf user_id auth_identity_id auth_method
        cookie_secure =
      do
        insert_session violation (record {
          id = session_id;
          user_id = user_id;
          session_hash = hash_of rt token;
          expires_at = now + days 30;
          idle_expires_at = some (now + hours 12);
          auth_identity_id = auth_identity_id;
          auth_method = auth_method;
          created_at = now;
          last_seen_at = now;
          revoked_at = none;
        })
        pure (
            record {
              name = session_cookie;
              value = token;
              http_only = true;
              secure = cookie_secure;
              max_age = 2_592_000;
            }
            ∷ record {
              name = csrf_cookie;
              value = csrf;
              http_only = false;
              secure = cookie_secure;
              max_age = 2_592_000;
            }
            ∷ [])

  abbrev pub create_session :
      Instant → (session_id token csrf user_id : String) → Bool → Handler Logins (List Cookie)
  create_session now session_id token csrf user_id cookie_secure =
      create_session_with_identity now session_id token csrf user_id none "local" cookie_secure

  unfoldable pub create_bearer_session :
      Instant → (session_id token user_id : String) → Handler Logins String
  create_bearer_session now session_id token user_id = do
    insert_session violation (bearer_session rt now session_id token user_id)
    pure token

  abbrev clear : Option String → Handler Logins (Unit {0})
  clear none = pure tt
  clear (some token) = modify (delete_session (hash_of rt token))

  -- The answer is the names of the cookies that are removed.
  unfoldable pub clear_session : Headers → Handler Logins (List String)
  clear_session headers = do
    clear (get_cookie headers session_cookie)
    pure (session_cookie ∷ csrf_cookie ∷ [])

  unfoldable pub clear_bearer_session : Headers → Handler Logins (Unit {0})
  clear_bearer_session headers = clear (bearer_header headers)

  unfoldable pub session_token : Headers → Option String
  session_token headers = or_else (bearer_header headers) (get_cookie headers session_cookie)

  unfoldable pub current_from_session : Instant → Headers → Handler Logins CurrentUser
  current_from_session now headers = do
    token ← lift (ok_or (unauthorized "login required") (session_token headers))
    row ← gets (session_user now (hash_of rt token))
    current ← lift (ok_or (unauthorized "session expired") row)
    modify (mark_seen now (hash_of rt token))
    pure current
