-- ===== src/Client/Menus.antt =====
-- The menus and the loop of `main` in client/client.c. A loop runs on fuel, one unit for each turn.
use online_auction_system.Base.{ℕ, zero, suc, Bool, true, false, if◌then◌else◌, ◌&&◌}
use online_auction_system.Base.Money.{ℤ}
use online_auction_system.Models.{
  Role, role_bidder, role_auctioneer, role_moderator, role_admin, role_other,
}
use online_auction_system.Client.{Platform, Notice, Terminal, print, is_choice, read_int}
use online_auction_system.Client.Requests.{do_login, do_logout, do_change_password, view_auctions}
use online_auction_system.Client.Bidder.{
  bidder_place_bid, bidder_balance, bidder_deposit, bidder_my_bids, bidder_feedback,
  bidder_file_dispute,
}
use online_auction_system.Client.Staff.{
  auctioneer_create, auctioneer_close, mod_disputes, mod_resolve, mod_feedback, mod_toggle,
}
use online_auction_system.Client.Admins.{admin_add_user, admin_list_users, admin_change_role}

module _ (p : Platform) where
  unfoldable pub bidder_choice : ℤ → Terminal → Terminal
  bidder_choice c t =
      if is_choice c 1
      then view_auctions p t
      else if is_choice c 2
      then bidder_place_bid p t
      else if is_choice c 3
      then bidder_balance p t
      else if is_choice c 4
      then bidder_deposit p t
      else if is_choice c 5
      then bidder_my_bids p t
      else if is_choice c 6
      then bidder_feedback p t
      else if is_choice c 7
      then bidder_file_dispute p t
      else if is_choice c 8
      then do_change_password p t
      else if is_choice c 9
      then do_logout p t
      else print Notice.invalid_choice t

  unfoldable pub auctioneer_choice : ℤ → Terminal → Terminal
  auctioneer_choice c t =
      if is_choice c 1
      then view_auctions p t
      else if is_choice c 2
      then auctioneer_create p t
      else if is_choice c 3
      then auctioneer_close p t
      else if is_choice c 4
      then do_change_password p t
      else if is_choice c 5
      then do_logout p t
      else print Notice.invalid_choice t

  unfoldable pub moderator_choice : ℤ → Terminal → Terminal
  moderator_choice c t =
      if is_choice c 1
      then mod_disputes p t
      else if is_choice c 2
      then mod_resolve p t
      else if is_choice c 3
      then mod_feedback p t
      else if is_choice c 4
      then mod_toggle p t
      else if is_choice c 5
      then do_change_password p t
      else if is_choice c 6
      then do_logout p t
      else print Notice.invalid_choice t

  unfoldable pub admin_choice : ℤ → Terminal → Terminal
  admin_choice c t =
      if is_choice c 1
      then admin_add_user p t
      else if is_choice c 2
      then admin_list_users p t
      else if is_choice c 3
      then admin_change_role p t
      else if is_choice c 4
      then view_auctions p t
      else if is_choice c 5
      then do_change_password p t
      else if is_choice c 6
      then do_logout p t
      else print Notice.invalid_choice t

  abbrev pub choice : Role → ℤ → Terminal → Terminal
  choice role_bidder = bidder_choice
  choice role_auctioneer = auctioneer_choice
  choice role_moderator = moderator_choice
  choice role_admin = admin_choice
  choice (role_other n) = λ c t. t

  -- The `switch` of `main` has a menu for the role.
  abbrev pub has_menu : Role → Bool
  has_menu (role_other n) = false
  has_menu _ = true

  -- `while (logged_in)`, for the menu of a role. The `return` after `do_logout` leaves the loop with
  -- `logged_in` at 0, as the test does.
  unfoldable pub menu : ℕ → Role → Terminal → Terminal
  menu zero role t = t
  menu (suc fuel) role t =
      let c = read_int p t in
      let rest = menu fuel role (choice role c.0 c.1) in
      if has_menu role && t.logged_in then rest else t

  -- The loop of `main` after `connect`, and whether it has ended.
  unfoldable pub main_loop : ℕ → Terminal → Terminal × Bool
  main_loop zero t = (t, false)
  main_loop (suc fuel) t =
      let c = read_int p t in
      let r = do_login p c.1 in
      let again = main_loop fuel r.0 in
      let rest = main_loop fuel (menu fuel r.0.me.role r.0) in
      if is_choice c.0 1 then (if r.1 then rest else again) else (c.1, true)
