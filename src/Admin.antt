-- ===== src/Admin.antt =====
-- server/admin.c: the requests of the administrator. The server does not dispatch to
-- `handle_delete_user` and `handle_modify_user`; they are modelled as they stand.
pub mod LastAdmin
pub mod StrayRole
pub mod NewUser
use online_auction_system.Base.{
  ℕ, suc, ◌+◌, ◌-◌, Bool, true, false, Option, none, some, List, [], ◌∷◌, ◌&&◌, not, leb, map, set,
  if◌then◌else◌,
}
use online_auction_system.Base.Money.{ℤ, pos}
use online_auction_system.Base.Bytes.{Bytes, strncpy, zeroed}
use online_auction_system.Models.{
  Role, role_admin, User, AccountStatus, account_active, account_inactive, zero_user, max_username,
  max_name, max_password, err_ok, err_internal, err_not_found, err_permission, add_user_resp,
  list_users_resp, change_role_resp,
}
use online_auction_system.Store.{records}
use online_auction_system.Store.Scan.{collect}
use online_auction_system.World.{World, LogLine, no_payload, user_payload, users_payload}
use online_auction_system.World.FileIo.{
  read_user, write_user, find_user_by_username, next_user_id, log_txn,
}
use online_auction_system.Notify.{send_msg}
use online_auction_system.AuctionEngine.{is_admin}
use online_auction_system.Hash.{Digest, sha256_hex}

-- The password is not sent to a client.
abbrev pub without_password : User → User
without_password u = record u { password = zeroed max_password }

-- The arrays of the request, each one up to its end; the code reads on into the next one where there is
-- no NUL.
pub record AddUserPayload : Type 0 where
  pub username : Bytes
  pub password : Bytes
  pub full_name : Bytes
  pub role : Role

-- `sha256_hex(req->password, u.password)`: the array has 64 bytes, and the byte after it is the first
-- of `full_name`.
abbrev pub store_digest : Digest → User → User
store_digest d u = record u {
  password = strncpy (zeroed max_password) d.text max_password;
  full_name = if d.fills_65 then set u.full_name 0 0 else u.full_name;
}

-- The record that `handle_add_user` fills in, before the password.
abbrev pub new_user : AddUserPayload → World → User
new_user req w = record zero_user {
  user_id = next_user_id w;
  role = req.role;
  status = account_active;
  wallet_balance = pos 0;
  wallet_hold = pos 0;
  created_at = w.now;
  last_login = 0;
  is_deleted = false;
  username = strncpy zero_user.username req.username (max_username - 1);
  full_name = strncpy zero_user.full_name req.full_name (max_name - 1);
}

module _ (popen : Bytes → Option Bytes) where
  unfoldable pub handle_add_user : ℤ → AddUserPayload → World → World
  handle_add_user client_fd req w = elim (find_user_by_username req.username w) [
    | some taken ↦ send_msg client_fd add_user_resp err_internal no_payload w
    | none ↦
        let u = store_digest (sha256_hex popen req.password) (new_user req w) in
        let r = write_user u w in
        if r.1
        then log_txn (LogLine.add_user u.user_id u.username u.role)
            (send_msg client_fd add_user_resp err_ok (user_payload (without_password u)) r.0)
        else send_msg client_fd add_user_resp err_internal no_payload r.0
  ]

unfoldable pub handle_list_users : ℤ → World → World
handle_list_users client_fd w = elim w.users.contents [
  | none ↦ send_msg client_fd list_users_resp err_ok no_payload w
  | some all ↦
      send_msg client_fd list_users_resp err_ok
        (users_payload (map without_password (collect (λ u. not u.is_deleted) 512 all))) w
]

-- `status == ACCOUNT_ACTIVE`
abbrev pub is_active : AccountStatus → Bool
is_active account_active = true
is_active _ = false

abbrev pub is_active_admin : User → Bool
is_active_admin u = not u.is_deleted && is_active u.status && is_admin u.role

-- The loop that counts the active administrators.
unfoldable pub count_admins : List User → ℕ
count_admins [] = 0
count_admins (u ∷ us) = let n = count_admins us in if is_active_admin u then suc n else n

pub record ChangeRolePayload : Type 0 where
  pub target_user_id : ℕ
  pub new_role : Role

unfoldable pub handle_change_role : ℤ → ChangeRolePayload → World → World
handle_change_role client_fd req w = elim (read_user req.target_user_id w) [
  | none ↦ send_msg client_fd change_role_resp err_not_found no_payload w
  | some u ↦
      if is_admin u.role && not (is_admin req.new_role) && leb (count_admins (records w.users)) 1
      then send_msg client_fd change_role_resp err_permission no_payload w
      else let u' : User = record u { role = req.new_role } in
        log_txn (LogLine.change_role u'.user_id u.role u'.role) (
          send_msg client_fd change_role_resp err_ok (user_payload (without_password u'))
            (write_user u' w).0)
]

-- The payload is the id of the user to delete.
unfoldable pub handle_delete_user : ℤ → (target_user_id : ℕ) → World → World
handle_delete_user client_fd target_user_id w = elim (read_user target_user_id w) [
  | none ↦ send_msg client_fd add_user_resp err_not_found no_payload w
  | some u ↦
      if is_admin u.role
      then send_msg client_fd add_user_resp err_permission no_payload w
      else log_txn (LogLine.soft_delete u.user_id) (
          send_msg client_fd add_user_resp err_ok no_payload
            (write_user (record u { is_deleted = true; status = account_inactive }) w).0)
]

pub record ModifyUserPayload : Type 0 where
  pub target_user_id : ℕ
  pub new_full_name : Bytes

unfoldable pub handle_modify_user : ℤ → ModifyUserPayload → World → World
handle_modify_user client_fd req w = elim (read_user req.target_user_id w) [
  | none ↦ send_msg client_fd add_user_resp err_not_found no_payload w
  | some u ↦
      let u' : User = record u {
        full_name = strncpy u.full_name req.new_full_name (max_name - 1);
      } in
      log_txn (LogLine.modify_user u'.user_id) (
        send_msg client_fd add_user_resp err_ok (user_payload (without_password u'))
          (write_user u' w).0)
]
