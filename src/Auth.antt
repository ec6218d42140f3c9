-- ===== src/Auth.antt =====
-- server/auth.c: login, logout and the change of a password. The mutex `auth_lock` makes the check
-- for a session and its creation one step.
pub mod Cases
pub mod Password
pub mod Newcomer
pub mod Sessions
pub mod Presence
pub mod Reach
use online_auction_system.Base.{ℕ, Bool, true, false, Option, none, some, not, if◌then◌else◌}
use online_auction_system.Base.Money.{ℤ}
use online_auction_system.Base.Bytes.{Bytes, strncpy, strncmp_eq}
use online_auction_system.Models.{
  User, Session, AccountStatus, account_active, account_inactive, account_banned, zero_session,
  max_password, ErrorCode, err_ok, err_auth_fail, err_account_banned, err_already_logged,
  err_internal, login_resp, logout_resp, change_pass_resp,
}
use online_auction_system.World.{World, LogLine, no_payload, user_payload}
use online_auction_system.World.FileIo.{
  find_user_by_username, find_session_slot, find_free_slot, write_session, write_user, log_txn,
}
use online_auction_system.Notify.{send_msg, notify_register, notify_unregister}
use online_auction_system.Hash.{sha256_hex}

pub record LoginPayload : Type 0 where
  pub username : Bytes
  pub password : Bytes

-- Step 2: the accounts that may not log in.
abbrev pub is_barred : AccountStatus → Bool
is_barred account_banned = true
is_barred account_inactive = true
is_barred account_active = false

-- Step 4 and 5, under `auth_lock`: the state with the new session, or the error.
unfoldable pub open_session : ℤ → User → World → World × Option ErrorCode
open_session client_fd u w = elim (find_session_slot u.user_id w) [
  | some existing ↦ (w, some err_already_logged)
  | none ↦ elim (find_free_slot w) [
    | none ↦ (w, some err_internal)
    | some slot ↦
        let s : Session = record {
          user_id = u.user_id;
          client_fd = client_fd;
          login_time = w.now;
          is_active = true;
        } in
        ((write_session slot s w).0, none)
  ]
]

-- Steps 6 and 7, with the record that was read at step 1.
unfoldable pub finish_login : ℤ → User → World → World × User × Bool
finish_login client_fd u w =
    let w1 = notify_register u.user_id client_fd w in
    let u' : User = record u { last_login = w.now } in
    let w2 = (write_user u' w1).0 in
    (
      log_txn (LogLine.login u'.user_id u'.username)
          (send_msg client_fd login_resp err_ok (user_payload u') w2),
      u',
      true,
    )

abbrev pub refuse_login : ℤ → ErrorCode → User → World → World × User × Bool
refuse_login client_fd code out_user w =
    (send_msg client_fd login_resp code no_payload w, out_user, false)

-- `if (strncmp(hashed, u.password, 64) != 0)`, negated.
abbrev pub password_matches : (Bytes → Option Bytes) → Bytes → User → Bool
password_matches popen password u = strncmp_eq (sha256_hex popen password).text u.password 64

module _ (popen : Bytes → Option Bytes) where
  -- The state, `*out_user`, and whether the client is now authenticated.
  unfoldable pub handle_login : ℤ → LoginPayload → User → World → World × User × Bool
  handle_login client_fd req out_user w = elim (find_user_by_username req.username w) [
    | none ↦ refuse_login client_fd err_auth_fail out_user w
    | some u ↦
        if is_barred u.status
        then refuse_login client_fd err_account_banned out_user w
        else if not (password_matches popen req.password u)
        then refuse_login client_fd err_auth_fail out_user w
        else let r = open_session client_fd u w in
          elim r.1 [
            | some code ↦ refuse_login client_fd code out_user r.0
            | none ↦ finish_login client_fd u r.0
          ]
  ]

-- `Session empty = {0}; write_session(slot, &empty)` on the slot of a user, if there is one.
unfoldable pub close_session : ℕ → World → World
close_session user_id w = elim (find_session_slot user_id w) [
  | none ↦ w
  | some slot ↦ (write_session slot zero_session w).0
]

unfoldable pub handle_logout : ℤ → User → World → World
handle_logout client_fd u w = log_txn (LogLine.logout u.user_id) (
    send_msg client_fd logout_resp err_ok no_payload
      (notify_unregister u.user_id (close_session u.user_id w)))

pub record ChangePassPayload : Type 0 where
  pub old_password : Bytes
  pub new_password : Bytes

module _ (popen : Bytes → Option Bytes) where
  -- `u` is the connection's copy of the user, and is written back whole.
  unfoldable pub handle_change_password : ℤ → ChangePassPayload → User → World → World × User
  handle_change_password client_fd req u w =
      if not (password_matches popen req.old_password u)
      then (send_msg client_fd change_pass_resp err_auth_fail no_payload w, u)
      else let u' : User = record u {
        password = strncpy u.password (sha256_hex popen req.new_password).text max_password;
      } in
        (
          log_txn (LogLine.change_pass u'.user_id)
              (send_msg client_fd change_pass_resp err_ok no_payload (write_user u' w).0),
          u',
        )
