-- ===== src/Client/Admins.antt =====
-- The requests of an administrator in client/client.c.
use online_auction_system.Base.{map, if◌then◌else◌}
use online_auction_system.Base.Bytes.{zeroed}
use online_auction_system.Models.{
  User, ErrorCode, err_ok, err_permission, max_username, max_password, max_name,
}
use online_auction_system.Server.Dispatch.{Request}
use online_auction_system.Client.{
  Platform, plain, add_user_form, change_role_form, Notice, Terminal, print, to_u32, read_line,
  read_int, exchange, status_of, payload_of,
}
use online_auction_system.Client.Requests.{is_ok, print_list}

-- The `switch` of `admin_change_role`.
abbrev pub role_answer : ErrorCode → Notice
role_answer err_ok = Notice.role_updated
role_answer err_permission = Notice.cannot_demote_last_admin
role_answer _ = Notice.error_line

abbrev pub user_row : User → Notice
user_row u = Notice.user_row u.user_id u.username u.full_name u.role u.status u.wallet_balance

module _ (p : Platform) where
  unfoldable pub admin_add_user : Terminal → Terminal
  admin_add_user t =
      let u = read_line max_username (zeroed max_username) t in
      let pw = read_line max_password (zeroed max_password) u.1 in
      let n = read_line max_name (zeroed max_name) pw.1 in
      let role = read_int p n.1 in
      let e =
        exchange
          (add_user_form
            (record { username = u.0; password = pw.0; full_name = n.0; role = role.0 }))
          role.1 in
      let v = p.as_user (payload_of p e.1) in
      if is_ok (status_of p e.1)
      then print (Notice.user_created v.username v.user_id) e.0
      else print Notice.username_may_exist e.0

  unfoldable pub admin_list_users : Terminal → Terminal
  admin_list_users t =
      let e = exchange (plain Request.list_users) t in
      print_list Notice.no_users (map user_row (p.as_users (payload_of p e.1))) e.0

  unfoldable pub admin_change_role : Terminal → Terminal
  admin_change_role t =
      let uid = read_int p t in
      let role = read_int p uid.1 in
      let e =
        exchange (change_role_form (record { target_user_id = to_u32 uid.0; new_role = role.0 }))
          role.1 in
      print (role_answer (status_of p e.1)) e.0
