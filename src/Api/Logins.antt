-- ===== src/Api/Logins.antt =====
-- The tables behind crates/api/src/auth.rs, which migrations 0001 and 0005 of crates/api/migrations
-- declare, and the statements on them.
use mathlib.Core.Option
use revtern.Prelude.{
  ℕ, ◌+◌, ◌*◌, min, String, Bool, ◌&&◌, not, Option, none, some, List, [], ◌∷◌, ◌++◌, if◌then◌else◌,
  str_eq, nat_eq, ltb, find, any, is_some, update_where, and_then, unwrap_or,
}
use revtern.Runtime.{Instant}
use revtern.Api.Handler.{sqlx, Handler, ◌>>=◌, ◌>>◌, gets, modify, guard_that}

pub record User : Type 0 where
  pub id : String
  pub email : String
  pub password_hash : Option String
  pub display_name : Option String
  pub role : String
  pub status : String
  pub created_at : Instant

pub record Workspace : Type 0 where
  pub id : String
  pub name : String
  pub created_at : Instant

pub record Member : Type 0 where
  pub workspace_id : String
  pub user_id : String
  pub role : String
  pub status : String

pub record Session : Type 0 where
  pub id : String
  pub user_id : String
  pub session_hash : String
  pub expires_at : Instant
  pub idle_expires_at : Option Instant
  pub auth_identity_id : Option String
  pub auth_method : String
  pub created_at : Instant
  pub last_seen_at : Instant
  pub revoked_at : Option Instant

pub record Logins : Type 0 where
  pub users : List User
  pub workspaces : List Workspace
  pub members : List Member
  pub sessions : List Session

pub record CurrentUser : Type 0 where
  pub user_id : String
  pub email : String
  pub role : String
  pub workspace_id : String
  pub workspace_name : String

-- In microseconds, as the times of the tables.
abbrev pub hours : ℕ → ℕ
hours n = n * 3_600_000_000

abbrev pub days : ℕ → ℕ
days n = hours (n * 24)

abbrev pub has_hash : String → Session → Bool
has_hash session_hash session = str_eq session.session_hash session_hash

abbrev pub add_session : Session → Logins → Logins
add_session session db = record db { sessions = db.sessions ++ session ∷ [] }

abbrev pub is_user : String → User → Bool
is_user user_id user = str_eq user.id user_id

-- The hash of a session is unique in its table, and its user a row of `users`; `violation` is what
-- the database answers otherwise.
unfoldable pub insert_session : String → Session → Handler Logins (Unit {0})
insert_session violation session = do
  taken ← gets λ db. any (has_hash session.session_hash) db.sessions
  guard_that taken (sqlx violation)
  known ← gets λ db. any (is_user session.user_id) db.users
  guard_that (not known) (sqlx violation)
  modify (add_session session)

-- `where session_hash = $1` and its conditions on the times.
unfoldable pub is_live_session : Instant → String → Session → Bool
is_live_session now session_hash session =
    has_hash session_hash session
    && (ltb now session.expires_at
        && (ltb now (unwrap_or session.idle_expires_at session.expires_at)
            && not (is_some session.revoked_at)))

abbrev role_rank : String → ℕ
role_rank role = if str_eq role "owner" then 0 else if str_eq role "admin" then 1 else 2

abbrev comes_before : Member × Workspace → Member × Workspace → Bool
comes_before (m, w) (m', w') =
    if nat_eq (role_rank m.role) (role_rank m'.role)
    then ltb w.created_at w'.created_at
    else ltb (role_rank m.role) (role_rank m'.role)

abbrev first_row : Member × Workspace → Option (Member × Workspace) → Member × Workspace
first_row row none = row
first_row row (some best) = if comes_before best row then best else row

abbrev row_or_rest :
    Member → Option Workspace → Option (Member × Workspace) → Option (Member × Workspace)
row_or_rest member none best = best
row_or_rest member (some workspace) best = some (first_row (member, workspace) best)

-- `order by case wu.role …, w.created_at asc limit 1` of the joined rows of one user.
unfoldable pub first_membership :
    String → List Workspace → List Member → Option (Member × Workspace)
first_membership user_id workspaces [] = none
first_membership user_id workspaces (member ∷ members) =
    let best = first_membership user_id workspaces members in
    if str_eq member.user_id user_id && str_eq member.status "active"
    then row_or_rest member (find (λ w. str_eq w.id member.workspace_id) workspaces) best
    else best

-- The columns that the queries select.
abbrev pub current_user : User → Member × Workspace → CurrentUser
current_user user (member, workspace) = record {
  user_id = user.id;
  email = user.email;
  role = member.role;
  workspace_id = workspace.id;
  workspace_name = workspace.name;
}

-- The join with the members and the workspaces, for the active user that a test names.
unfoldable pub user_row_where : (User → Bool) → Logins → Option CurrentUser
user_row_where named db =
    and_then (find (λ u. named u && str_eq u.status "active") db.users)
      λ user. Option.map (current_user user) (first_membership user.id db.workspaces db.members)

abbrev pub user_row : Logins → String → Option CurrentUser
user_row db user_id = user_row_where (is_user user_id) db

abbrev pub session_user : Instant → String → Logins → Option CurrentUser
session_user now session_hash db =
    and_then (find (is_live_session now session_hash) db.sessions) λ s. user_row db s.user_id

-- `last_seen_at = now(), idle_expires_at = least(expires_at, now() + interval '12 hours')`.
abbrev pub seen : Instant → Session → Session
seen now session = record session {
  last_seen_at = now;
  idle_expires_at = some (min session.expires_at (now + hours 12));
}

abbrev pub mark_seen : Instant → String → Logins → Logins
mark_seen now session_hash db = record db {
  sessions = update_where (has_hash session_hash) (seen now) db.sessions;
}

-- `delete from sessions where session_hash = $1`.
unfoldable pub without : String → List Session → List Session
without session_hash [] = []
without session_hash (session ∷ sessions) =
    let rest = without session_hash sessions in
    if has_hash session_hash session then rest else session ∷ rest

abbrev pub delete_session : String → Logins → Logins
delete_session session_hash db = record db { sessions = without session_hash db.sessions }
