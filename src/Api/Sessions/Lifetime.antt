-- ===== src/Api/Sessions/Lifetime.antt =====
-- crates/api/src/auth.rs: how long a session is good for.
use revtern.Prelude.{
  ℕ, ◌+◌, ◌≤◌, ◌<◌, min, String, true, false, Option, none, some, List, [], ◌∷◌, ltb, find, any,
  update_where, ◌≡◌, refl, ap, inl, inr, Bool-cases, or-false, eq_refl, arith,
}
use revtern.Prelude.Rows.{find-append_new}
use revtern.Runtime.{Runtime, Instant}
use revtern.Api.Try.{pass, fail}
use revtern.Api.Handler.{unauthorized, ◌>>=◌, ◌>>◌, modify, pure, after_ok_or, after_gets}
use revtern.Api.Http.{Headers}
use revtern.Api.Verification.{bearer_header}
use revtern.Api.Logins.{
  Session, Logins, CurrentUser, hours, days, has_hash, is_user, add_session, insert_session,
  is_live_session, user_row, user_row_where, seen, mark_seen, without, session_user,
}
use revtern.Api.Sessions.{
  hash_of, bearer_session, create_bearer_session, clear_bearer_session, session_token,
  current_from_session,
}

none_live :
    (now : Instant) (session_hash : String) (sessions : List Session)
    → any (has_hash session_hash) sessions ≡ false
    → find (is_live_session now session_hash) sessions ≡ none
unfolding find any is_live_session
none_live now session_hash [] h = refl
none_live now session_hash (x ∷ xs) h =
    let (other, rest) = or-false (has_hash session_hash x) (any (has_hash session_hash) xs) h in
    rw other (none_live now session_hash xs rest)

none_left :
    (now : Instant) (session_hash : String) (sessions : List Session)
    → find (is_live_session now session_hash) (without session_hash sessions) ≡ none
unfolding find without is_live_session
none_left now session_hash [] = refl
none_left now session_hash (x ∷ xs) = elim (Bool-cases (has_hash session_hash x)) [
  | inl own ↦ rw own (none_left now session_hash xs)
  | inr other ↦ rw other (rw other (none_left now session_hash xs))
]

past_min : (expires now later : ℕ) → now ≤ later → ltb later (min expires now) ≡ false
past_min expires now later h = ground arith

-- Twelve hours after every session of the hash was seen, none is live.
none_idle :
    (now later : Instant) (session_hash : String) (sessions : List Session)
    → now + hours 12 ≤ later
    → find
        (is_live_session later session_hash)
        (update_where (has_hash session_hash) (seen now) sessions)
      ≡ none
unfolding find update_where is_live_session
none_idle now later session_hash [] h = refl
none_idle now later session_hash (x ∷ xs) h = elim (Bool-cases (has_hash session_hash x)) [
  | inl own ↦ elim (Bool-cases (ltb later x.expires_at)) [
    | inl before ↦ rw own (
        rw own (
          rw before (
            rw (past_min x.expires_at (now + hours 12) later h)
              (none_idle now later session_hash xs h))))
    | inr expired ↦ rw own (rw own (rw expired (none_idle now later session_hash xs h)))
  ]
  | inr other ↦ rw other (rw other (none_idle now later session_hash xs h))
]

true-ltb : (m n : ℕ) → m < n → ltb m n ≡ true
true-ltb m n h = ground arith

new_is_live :
    (rt : Runtime) (now later : Instant) (session_id token user_id : String)
    → later < now + days 30
    → is_live_session later (hash_of rt token) (bearer_session rt now session_id token user_id)
      ≡ true
unfolding is_live_session
new_is_live rt now later session_id token user_id h =
    rw (eq_refl (hash_of rt token)) (rw (true-ltb later (now + days 30) h) refl)

after_modify :
    (f : Logins → Logins) (row : CurrentUser) (db after : Logins) {current : CurrentUser}
    → (modify f >> pure row) db ≡ (pass current, after)
    → f db ≡ after
unfolding ◌>>=◌
after_modify f row db after h = ap (λ r. r.1) h

module _ (rt : Runtime) (get_cookie : Headers → String → Option String) (violation : String) where
  -- For a user who exists with an active membership and a token that no session has, a bearer
  -- session is created; until 30 days have passed a request with the token, if it is the first, is
  -- answered as that user's, whatever cookies it has; and after the token was cleared no request
  -- with it is answered at any time.
  pub create_bearer_session_serves :
      (now later : Instant) (session_id token user_id : String) (headers : Headers)
      (current : CurrentUser) (db : Logins)
      → any (has_hash (hash_of rt token)) db.sessions ≡ false
      → any (is_user user_id) db.users ≡ true
      → user_row db user_id ≡ some current
      → bearer_header headers ≡ some token
      → later < now + days 30
      → let after = add_session (bearer_session rt now session_id token user_id) db in
        (create_bearer_session rt get_cookie violation now session_id token user_id db
          ≡ (pass token, after))
        × (current_from_session rt get_cookie violation later headers after
            ≡ (pass current, mark_seen later (hash_of rt token) after))
        × ((any_time : Instant) (used : Logins)
            → let cleared = (clear_bearer_session rt get_cookie violation headers used).1 in
              current_from_session rt get_cookie violation any_time headers cleared
              ≡ (fail (unauthorized "session expired"), cleared))
  unfolding create_bearer_session insert_session ◌>>=◌ current_from_session session_token
      user_row_where clear_bearer_session
  create_bearer_session_serves now later session_id token user_id headers current db untaken known
        row sent early =
      (
        rw untaken (rw known refl),
        rw sent (
            rw
              (find-append_new (is_live_session later (hash_of rt token)) db.sessions
                (bearer_session rt now session_id token user_id)
                (none_live later (hash_of rt token) db.sessions untaken)
                (new_is_live rt now later session_id token user_id early))
              (rw row refl)),
        λ any_time used. rw sent (rw (none_left any_time (hash_of rt token) used.sessions) refl),
      )

  idle_token :
      (now later : Instant) (headers : Headers) (token : String) (db after : Logins)
      → session_token rt get_cookie violation headers ≡ some token
      → mark_seen now (hash_of rt token) db ≡ after
      → now + hours 12 ≤ later
      → current_from_session rt get_cookie violation later headers after
        ≡ (fail (unauthorized "session expired"), after)
  unfolding current_from_session ◌>>=◌
  idle_token now later headers token db after sent marked late =
      rw (← marked) (rw sent (rw (none_idle now later (hash_of rt token) db.sessions late) refl))

  -- Twelve hours after a request with a session's token, in a cookie or as a bearer token, was
  -- answered, no request with that token is answered unless another was in between, even if the
  -- session was created for longer.
  pub current_from_session_idle :
      (now later : Instant) (headers headers' : Headers) (db after : Logins) (current : CurrentUser)
      → session_token rt get_cookie violation headers
        ≡ session_token rt get_cookie violation headers'
      → current_from_session rt get_cookie violation now headers db ≡ (pass current, after)
      → now + hours 12 ≤ later
      → current_from_session rt get_cookie violation later headers' after
        ≡ (fail (unauthorized "session expired"), after)
  unfolding current_from_session
  current_from_session_idle now later headers headers' db after current same answered late =
      after_ok_or (unauthorized "login required") (session_token rt get_cookie violation headers) _
        db answered
        λ token sent rest.
          after_ok_or (unauthorized "session expired") (session_user now (hash_of rt token) db) _ db
            (after_gets (session_user now (hash_of rt token)) _ db rest)
            λ row found end.
              idle_token now later headers' token db after (rw (← same) sent)
                (after_modify (mark_seen now (hash_of rt token)) row db after end) late
