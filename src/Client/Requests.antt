-- ===== src/Client/Requests.antt =====
-- The requests of client/client.c that several menus share: login, logout, the change of a password,
-- and the open auctions.
use online_auction_system.Base.{
  Bool, true, false, not, none, some, List, [], ◌∷◌, map, if◌then◌else◌,
}
use online_auction_system.Base.Bytes.{zeroed, strncmp_eq}
use online_auction_system.Models.{
  User, Auction, ErrorCode, err_ok, err_auth_fail, err_already_logged, err_account_banned,
  max_username, max_password,
}
use online_auction_system.Auth.{LoginPayload}
use online_auction_system.Server.Dispatch.{Request}
use online_auction_system.Client.{
  Platform, plain, Notice, Terminal, print, read_line, exchange, status_of,
}

-- `hdr.status == ERR_OK`
abbrev pub is_ok : ErrorCode → Bool
is_ok err_ok = true
is_ok _ = false

-- Rows are printed one after the other, from the first.
unfoldable pub print_rows : List Notice → Terminal → Terminal
print_rows [] t = t
print_rows (n ∷ ns) t = print_rows ns (print n t)

-- `if (!n) { PRINT(...); return; }`, then one row for each record.
unfoldable pub print_list : Notice → List Notice → Terminal → Terminal
unfolding print_rows
print_list nothing [] t = print nothing t
print_list nothing (n ∷ ns) t = print_rows (n ∷ ns) t

-- The `switch` of `do_login`.
abbrev pub login_error : ErrorCode → Notice
login_error err_auth_fail = Notice.invalid_credentials
login_error err_already_logged = Notice.already_logged_in
login_error err_account_banned = Notice.account_inactive
login_error _ = Notice.login_failed

abbrev pub auction_row : Auction → Notice
auction_row a = Notice.auction_row a.auction_id a.item_name a.current_bid a.end_time

-- What the user types to log in, and the terminal after it.
abbrev pub read_login : Terminal → LoginPayload × Terminal
read_login t =
    let u = read_line max_username (zeroed max_username) t in
    let q = read_line max_password (zeroed max_password) u.1 in
    (record { username = u.0; password = q.0 }, q.1)

-- A login that the server has accepted.
abbrev pub enter : User → Terminal → Terminal
enter u t = print (Notice.welcome u.full_name u.role) (record t { me = u; logged_in = true })

module _ (p : Platform) where
  -- The second component is what `do_login` returns.
  unfoldable pub do_login : Terminal → Terminal × Bool
  do_login t =
      let q = read_login t in
      let e = exchange (plain (Request.login q.0)) q.1 in
      elim e.1 [
        | none ↦ (e.0, false)
        | some r ↦
            if is_ok r.status
            then (enter (p.as_user r.payload) e.0, true)
            else (print (login_error r.status) e.0, false)
      ]

  unfoldable pub do_logout : Terminal → Terminal
  do_logout t =
      let t1 = (exchange (plain Request.logout) t).0 in
      print (Notice.goodbye t1.me.full_name) (record t1 { logged_in = false })

  unfoldable pub do_change_password : Terminal → Terminal
  do_change_password t =
      let old = read_line max_password (zeroed max_password) t in
      let nw = read_line max_password (zeroed max_password) old.1 in
      let confirm = read_line max_password (p.stack max_password) nw.1 in
      let e =
        exchange
          (plain (Request.change_pass (record { old_password = old.0; new_password = nw.0 })))
          confirm.1 in
      if not (strncmp_eq nw.0 confirm.0 max_password)
      then print Notice.passwords_differ confirm.1
      else if is_ok (status_of p e.1)
      then print Notice.password_changed e.0
      else print Notice.wrong_password e.0

  -- Nothing is printed when no answer comes.
  unfoldable pub view_auctions : Terminal → Terminal
  view_auctions t =
      let e = exchange (plain Request.view_auctions) t in
      elim e.1 [
        | none ↦ e.0
        | some r ↦
            print_list Notice.no_open_auctions (map auction_row (p.as_auctions r.payload)) e.0
      ]
