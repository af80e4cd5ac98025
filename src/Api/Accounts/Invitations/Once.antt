-- ===== src/Api/Accounts/Invitations/Once.antt =====
-- What an accepted invitation gave, and that it gives it once.
use revtern.Prelude.{
  String, true, false, not, Option, none, some, List, [], ◌∷◌, ◌≡◌, refl, ap, sym, inl, inr, All,
  str_eq, eq_iff, eq_refl, find, update_where, Bool-cases, and-true, arith,
}
use revtern.Prelude.Text.{trim, to_ascii_lowercase}
use revtern.Prelude.Rows.{find-put, find_sound, All-find}
use revtern.Runtime.{Instant}
use revtern.Api.Try.{pass, fail, refuse_if_inv, pass_inj}
use revtern.Api.Handler.{not_found, ◌>>=◌, ◌>>◌, after_ok_or, after_gets, after_lift, pure}
use revtern.Api.Verification.Apple.Genuine.{same_text}
use revtern.Api.Accounts.{App, AppInvitation, Accounts, is_membership, membership_of}
use revtern.Api.Accounts.Invitations.{
  has_invitation_id, is_pending, is_acceptable, pair_with, with_app, pending_invitation,
  join_workspace, grant_role, accepted, mark_accepted, accept_invitation_in_transaction,
}

-- `token_hash` is unique: the invitations with this one have one id.
abbrev pub HasToken : String → String → AppInvitation → Type 0
HasToken token_hash id invitation =
    str_eq invitation.token_hash token_hash ≡ true → str_eq invitation.id id ≡ true

none_left :
    (now later : Instant) (token_hash user_id id : String) (apps : List App)
    (rows : List AppInvitation)
    → All (HasToken token_hash id) rows
    → find
        (is_acceptable later token_hash apps)
        (update_where (has_invitation_id id) (accepted now user_id) rows)
      ≡ none
unfolding find update_where is_pending
none_left now later token_hash user_id id apps [] unique = refl
none_left now later token_hash user_id id apps (x ∷ rows) unique =
    elim (Bool-cases (str_eq x.id id)) [
      | inl own ↦ elim (Bool-cases (str_eq x.token_hash token_hash)) [
        | inl same ↦ rw own (rw same (none_left now later token_hash user_id id apps rows unique.1))
        | inr apart ↦
            rw own (rw apart (none_left now later token_hash user_id id apps rows unique.1))
      ]
      | inr other ↦ elim (Bool-cases (str_eq x.token_hash token_hash)) [
        | inl same ↦ cc (other, unique.0 same)
        | inr apart ↦
            rw other (rw apart (none_left now later token_hash user_id id apps rows unique.1))
      ]
    ]

-- The invitation was pending for a live application and issued to this address; its role is now the
-- user's; and nobody can accept it again.
pub record IsAccepted (now : Instant) (token_hash user_id email : String) (before after : Accounts)
    (app_id : String) : Type 0 where
  pub invitation : AppInvitation
  pub app : App
  pub is_found : pending_invitation now token_hash before ≡ some (invitation, app)
  pub is_for_app : invitation.app_id ≡ app_id
  pub is_issued_to : invitation.normalized_email ≡ to_ascii_lowercase (trim email)
  pub is_granted :
      membership_of after app_id user_id
      ≡ some (record { app_id = app_id; user_id = user_id; role_id = invitation.role_id })
  pub is_spent :
      (later : Instant) (other_user other_email : String)
      → accept_invitation_in_transaction later token_hash other_user other_email after
        ≡ (fail (not_found "invitation not found or expired"), after)

pair_with_inv :
    (x : AppInvitation) (found : Option App) {invitation : AppInvitation} {app : App}
    → pair_with x found ≡ some (invitation, app)
    → x ≡ invitation
pair_with_inv x none h = cc h
pair_with_inv x (some a) h = cc h

with_app_inv :
    (apps : List App) (found : Option AppInvitation) {invitation : AppInvitation} {app : App}
    → with_app apps found ≡ some (invitation, app)
    → found ≡ some invitation
with_app_inv apps none h = cc h
with_app_inv apps (some x) h = ap some (pair_with_inv x _ h)

pending_token :
    (now : Instant) (token_hash : String) (before : Accounts) {invitation : AppInvitation}
    {app : App}
    → pending_invitation now token_hash before ≡ some (invitation, app)
    → (find (is_acceptable now token_hash before.apps) before.app_invitations ≡ some invitation)
      × (str_eq invitation.token_hash token_hash ≡ true)
unfolding pending_invitation is_pending
pending_token now token_hash before {invitation} h =
    let found = with_app_inv before.apps _ h in
    let acceptable =
      find_sound (is_acceptable now token_hash before.apps) before.app_invitations found in
    (found, (and-true _ _ (and-true _ _ acceptable).0).0)

spent :
    (now later : Instant) (token_hash user_id id other_user other_email : String) (after : Accounts)
    (rows : List AppInvitation)
    → after.app_invitations ≡ update_where (has_invitation_id id) (accepted now user_id) rows
    → All (HasToken token_hash id) rows
    → accept_invitation_in_transaction later token_hash other_user other_email after
      ≡ (fail (not_found "invitation not found or expired"), after)
unfolding accept_invitation_in_transaction ◌>>=◌ pending_invitation
spent now later token_hash user_id id other_user other_email after rows same unique =
    rw same (rw (none_left now later token_hash user_id id after.apps rows unique))

IsAccepted-state :
    (now : Instant) (token_hash user_id email : String) (before after : Accounts)
    (invitation : AppInvitation) (app : App) {app_id : String}
    → All (HasToken token_hash invitation.id) before.app_invitations
    → pending_invitation now token_hash before ≡ some (invitation, app)
    → not (str_eq invitation.normalized_email (to_ascii_lowercase (trim email))) ≡ false
    → (join_workspace app.workspace_id user_id
          >> (grant_role invitation.app_id user_id invitation.role_id
              >> (mark_accepted now invitation.id user_id >> pure invitation.app_id)))
        before
      ≡ (pass app_id, after)
    → IsAccepted now token_hash user_id email before after app_id
unfolding ◌>>=◌ join_workspace grant_role mark_accepted
IsAccepted-state now token_hash user_id email before after invitation app unique pending issued h =
    let same_app = pass_inj (ap (λ p. p.0) h) in
    let state = ap (λ p. p.1) h in
    record {
      invitation = invitation;
      app = app;
      is_found = pending;
      is_for_app = same_app;
      is_issued_to = same_text _ _ issued;
      is_granted = rw (← state) (
          rw (← same_app) (
            find-put (is_membership invitation.app_id user_id)
              (record {
                app_id = invitation.app_id;
                user_id = user_id;
                role_id = invitation.role_id;
              })
              before.app_memberships (rw (eq_refl invitation.app_id) (rw (eq_refl user_id)))));
      is_spent = λ later other_user other_email.
          spent now later token_hash user_id invitation.id other_user other_email after
            before.app_invitations (sym (ap (λ a. a.app_invitations) state)) unique;
    }

-- If one invitation has the hash of a token, then an invitation that is accepted with the token was
-- pending for an application that is there, was issued to the user's address, and gives the user its
-- role; and no one can accept it a second time.
pub accept_invitation-IsAccepted :
    (now : Instant) (token_hash user_id email id app_id : String) (before after : Accounts)
    → All (HasToken token_hash id) before.app_invitations
    → accept_invitation_in_transaction now token_hash user_id email before ≡ (pass app_id, after)
    → IsAccepted now token_hash user_id email before after app_id
unfolding accept_invitation_in_transaction
accept_invitation-IsAccepted now token_hash user_id email id app_id before after unique h =
    after_ok_or _ _ _ before (after_gets _ _ before h) λ (invitation, app) pending h1.
      after_lift _ _ before h1 λ u issued h2.
        let (found, token) = pending_token now token_hash before pending in
        let own : invitation.id ≡ id = grind (
          arith,
          eq_iff,
          All-find (HasToken token_hash id) _ before.app_invitations unique found token,
        ) in
        IsAccepted-state now token_hash user_id email before after invitation app (rw own unique)
          pending (refuse_if_inv _ _ issued) h2
