-- ===== src/Client/Allowed.antt =====
-- What the menus of client/client.c send, beside the permissions of server/server.c.
use online_auction_system.Base.{◌&&◌, ℕ, zero, suc, refl, map, All, Option-cases, inl, inr}
use online_auction_system.Base.Money.{ℤ, pos, leb_ℤ}
use online_auction_system.Base.Bytes.{zeroed}
use online_auction_system.Models.{
  Role, role_bidder, role_auctioneer, role_moderator, role_admin, role_other, max_username,
  max_password, max_name, max_desc, max_feedback, max_item_name,
}
use online_auction_system.Server.Dispatch.{Request}
use online_auction_system.Client.{
  Platform, plain, add_user_form, change_role_form, status_of, Notice, Terminal, print, read_int,
  read_double, exchange,
}
use online_auction_system.Client.Requests.{
  do_logout, do_change_password, view_auctions, auction_row, is_ok,
}
use online_auction_system.Client.Bidder.{
  bidder_place_bid, bidder_balance, bidder_deposit, bidder_my_bids, bidder_feedback,
  bidder_file_dispute,
}
use online_auction_system.Client.Staff.{
  auctioneer_create, auctioneer_close, mod_disputes, mod_resolve, mod_feedback, mod_toggle,
}
use online_auction_system.Client.Admins.{admin_add_user, admin_list_users, admin_change_role}
use online_auction_system.Client.Menus.{
  has_menu, bidder_choice, auctioneer_choice, moderator_choice, admin_choice, choice, menu,
}
use online_auction_system.Client.Steps.{
  IsAllowed, Steps, Steps-refl, Steps-trans, print-Steps, choose-Steps, print_list-Steps,
  read_line-Steps, exchange-Steps, read_int-Steps, read_double-Steps,
}

module _ (p : Platform) (t : Terminal) where
  -- The requests that every role may make.
  do_logout-Steps : (r : Role) → Steps r t (do_logout p t)
  unfolding do_logout
  do_logout-Steps r =
      let a = exchange-Steps {r = r} (plain Request.logout) {t = t} refl (Steps-refl r t) in
      record { reads = a.reads; same_user = a.same_user; allowed = a.allowed }

  do_change_password-Steps : (r : Role) → Steps r t (do_change_password p t)
  unfolding do_change_password
  do_change_password-Steps r =
      let typed = read_line-Steps {r = r} max_password (p.stack max_password) {t = t} (
        read_line-Steps max_password (zeroed max_password)
          (read_line-Steps max_password (zeroed max_password) (Steps-refl r t))) in
      let sent = exchange-Steps (plain _) refl typed in
      choose-Steps _ (print-Steps Notice.passwords_differ typed) (
        choose-Steps _ (print-Steps Notice.password_changed sent)
          (print-Steps Notice.wrong_password sent))

  view_auctions-Steps : (r : Role) → Steps r t (view_auctions p t)
  unfolding view_auctions
  view_auctions-Steps r =
      let e = exchange (plain Request.view_auctions) t in
      let a = exchange-Steps {r = r} (plain Request.view_auctions) {t = t} refl (Steps-refl r t) in
      elim (Option-cases e.1) [
        | inl nothing ↦ rw (nothing, view_auctions) a
        | inr (x, answer) ↦
            rw (answer, view_auctions)
              (print_list-Steps Notice.no_open_auctions (map auction_row (p.as_auctions x.payload))
                a)
      ]

  bidder_place_bid-Steps : Steps role_bidder t (bidder_place_bid p t)
  unfolding bidder_place_bid
  bidder_place_bid-Steps = print-Steps _ (
      exchange-Steps (plain _) refl
        (read_double-Steps p (read_int-Steps p (Steps-refl role_bidder t))))

  bidder_balance-Steps : Steps role_bidder t (bidder_balance p t)
  unfolding bidder_balance
  bidder_balance-Steps = print-Steps _ (exchange-Steps (plain _) refl (Steps-refl role_bidder t))

  bidder_deposit-Steps : Steps role_bidder t (bidder_deposit p t)
  unfolding bidder_deposit
  bidder_deposit-Steps =
      let amount = (read_double p t).0 in
      let req = plain (Request.deposit (record { amount = amount })) in
      let typed = read_double-Steps p (Steps-refl role_bidder t) in
      let sent = exchange-Steps req refl typed in
      choose-Steps (leb_ℤ amount (pos 0)) (print-Steps Notice.invalid_amount typed) (
        choose-Steps (is_ok (status_of p (exchange req (read_double p t).1).1))
          (print-Steps (Notice.new_balance _) sent) sent)

  bidder_my_bids-Steps : Steps role_bidder t (bidder_my_bids p t)
  unfolding bidder_my_bids
  bidder_my_bids-Steps =
      print_list-Steps _ _ (exchange-Steps (plain _) refl (Steps-refl role_bidder t))

  bidder_feedback-Steps : Steps role_bidder t (bidder_feedback p t)
  unfolding bidder_feedback
  bidder_feedback-Steps = print-Steps _ (
      exchange-Steps (plain _) refl (
        read_line-Steps max_feedback (zeroed max_feedback)
          (read_int-Steps p (Steps-refl role_bidder t))))

  bidder_file_dispute-Steps : Steps role_bidder t (bidder_file_dispute p t)
  unfolding bidder_file_dispute
  bidder_file_dispute-Steps = print-Steps _ (
      exchange-Steps (plain _) refl
        (read_line-Steps max_desc (zeroed max_desc) (read_int-Steps p (Steps-refl role_bidder t))))

  auctioneer_create-Steps : Steps role_auctioneer t (auctioneer_create p t)
  unfolding auctioneer_create
  auctioneer_create-Steps =
      let typed =
        read_line-Steps max_desc (zeroed max_desc)
          (read_line-Steps max_item_name (zeroed max_item_name) (Steps-refl role_auctioneer t)) in
      let sent =
        exchange-Steps (plain _) refl
          (read_int-Steps p (read_double-Steps p (read_double-Steps p typed))) in
      choose-Steps _ (print-Steps _ sent) (print-Steps Notice.failed sent)

  auctioneer_close-Steps : Steps role_auctioneer t (auctioneer_close p t)
  unfolding auctioneer_close
  auctioneer_close-Steps =
      print-Steps _
        (exchange-Steps (plain _) refl (read_int-Steps p (Steps-refl role_auctioneer t)))

  mod_disputes-Steps : Steps role_moderator t (mod_disputes p t)
  unfolding mod_disputes
  mod_disputes-Steps =
      print_list-Steps _ _ (exchange-Steps (plain _) refl (Steps-refl role_moderator t))

  mod_resolve-Steps : Steps role_moderator t (mod_resolve p t)
  unfolding mod_resolve
  mod_resolve-Steps = print-Steps _ (
      exchange-Steps (plain _) refl (
        read_line-Steps max_desc (zeroed max_desc)
          (read_int-Steps p (read_int-Steps p (Steps-refl role_moderator t)))))

  mod_feedback-Steps : Steps role_moderator t (mod_feedback p t)
  unfolding mod_feedback
  mod_feedback-Steps =
      print_list-Steps _ _ (exchange-Steps (plain _) refl (Steps-refl role_moderator t))

  mod_toggle-Steps : Steps role_moderator t (mod_toggle p t)
  unfolding mod_toggle
  mod_toggle-Steps = print-Steps _ (
      exchange-Steps (plain _) refl
        (read_int-Steps p (read_int-Steps p (Steps-refl role_moderator t))))

  admin_add_user-Steps : Steps role_admin t (admin_add_user p t)
  unfolding admin_add_user
  admin_add_user-Steps =
      let typed = read_line-Steps max_name (zeroed max_name) (
        read_line-Steps max_password (zeroed max_password)
          (read_line-Steps max_username (zeroed max_username) (Steps-refl role_admin t))) in
      let sent = exchange-Steps (add_user_form _) (λ v. refl) (read_int-Steps p typed) in
      choose-Steps _ (print-Steps _ sent) (print-Steps Notice.username_may_exist sent)

  admin_list_users-Steps : Steps role_admin t (admin_list_users p t)
  unfolding admin_list_users
  admin_list_users-Steps =
      print_list-Steps _ _ (exchange-Steps (plain _) refl (Steps-refl role_admin t))

  admin_change_role-Steps : Steps role_admin t (admin_change_role p t)
  unfolding admin_change_role
  admin_change_role-Steps = print-Steps _ (
      exchange-Steps (change_role_form _) (λ v. refl)
        (read_int-Steps p (read_int-Steps p (Steps-refl role_admin t))))

  invalid-Steps : (r : Role) → Steps r t (print Notice.invalid_choice t)
  invalid-Steps r = print-Steps Notice.invalid_choice (Steps-refl r t)

module _ (p : Platform) where
  pub choice-Steps : (r : Role) (c : ℤ) (t : Terminal) → Steps r t (choice p r c t)
  unfolding bidder_choice auctioneer_choice moderator_choice admin_choice
  choice-Steps role_bidder c t = choose-Steps _ (view_auctions-Steps p t role_bidder) (
      choose-Steps _ (bidder_place_bid-Steps p t) (
        choose-Steps _ (bidder_balance-Steps p t) (
          choose-Steps _ (bidder_deposit-Steps p t) (
            choose-Steps _ (bidder_my_bids-Steps p t) (
              choose-Steps _ (bidder_feedback-Steps p t) (
                choose-Steps _ (bidder_file_dispute-Steps p t) (
                  choose-Steps _ (do_change_password-Steps p t role_bidder) (
                    choose-Steps _ (do_logout-Steps p t role_bidder)
                      (invalid-Steps p t role_bidder)))))))))
  choice-Steps role_auctioneer c t = choose-Steps _ (view_auctions-Steps p t role_auctioneer) (
      choose-Steps _ (auctioneer_create-Steps p t) (
        choose-Steps _ (auctioneer_close-Steps p t) (
          choose-Steps _ (do_change_password-Steps p t role_auctioneer) (
            choose-Steps _ (do_logout-Steps p t role_auctioneer)
              (invalid-Steps p t role_auctioneer)))))
  choice-Steps role_moderator c t = choose-Steps _ (mod_disputes-Steps p t) (
      choose-Steps _ (mod_resolve-Steps p t) (
        choose-Steps _ (mod_feedback-Steps p t) (
          choose-Steps _ (mod_toggle-Steps p t) (
            choose-Steps _ (do_change_password-Steps p t role_moderator) (
              choose-Steps _ (do_logout-Steps p t role_moderator)
                (invalid-Steps p t role_moderator))))))
  choice-Steps role_admin c t = choose-Steps _ (admin_add_user-Steps p t) (
      choose-Steps _ (admin_list_users-Steps p t) (
        choose-Steps _ (admin_change_role-Steps p t) (
          choose-Steps _ (view_auctions-Steps p t role_admin) (
            choose-Steps _ (do_change_password-Steps p t role_admin)
              (choose-Steps _ (do_logout-Steps p t role_admin) (invalid-Steps p t role_admin))))))
  choice-Steps (role_other n) c t = Steps-refl (role_other n) t

  pub menu-Steps : (fuel : ℕ) (r : Role) (t : Terminal) → Steps r t (menu p fuel r t)
  unfolding menu
  menu-Steps zero r t = Steps-refl r t
  menu-Steps (suc fuel) r t =
      let c = read_int p t in
      let typed = read_int-Steps p (Steps-refl r t) in
      let done = choice-Steps r c.0 c.1 in
      choose-Steps (has_menu p r && t.logged_in)
        (Steps-trans typed (Steps-trans done (menu-Steps fuel r (choice p r c.0 c.1))))
        (Steps-refl r t)

  -- However long a user stays in the menu of a role, and whatever the user types, every request that
  -- is sent is one that the server lets through to a user of this role.
  pub menu-IsAllowed :
      (fuel : ℕ) (r : Role) (t : Terminal)
      → All (IsAllowed r) t.sent
      → All (IsAllowed r) (menu p fuel r t).sent
  menu-IsAllowed fuel r t h = (menu-Steps fuel r t).allowed h
