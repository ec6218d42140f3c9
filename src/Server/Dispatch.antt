-- ===== src/Server/Dispatch.antt =====
-- `handle_client` of server/server.c: the messages of one client, their routing by role, and the
-- clean-up when the connection ends. A request carries the decoded payload of its type.
use online_auction_system.Base.{
  ℕ, Bool, true, false, not, Option, List, [], ◌∷◌, ◌&&◌, leb, ◌==◌, if◌then◌else◌,
}
use online_auction_system.Base.Money.{ℤ, pos, leb_ℤ}
use online_auction_system.Base.Bytes.{Bytes}
use online_auction_system.Models.{
  User, Role, role_bidder, role_auctioneer, role_moderator, role_admin, role_value, zero_user,
  err_auth_fail, err_permission, err_internal, error_msg,
}
use online_auction_system.World.{World, no_payload}
use online_auction_system.Notify.{send_msg, notify_unregister}
use online_auction_system.Wallet.{DepositPayload, handle_deposit, handle_view_balance}
use online_auction_system.BidHandler.{
  PlaceBidPayload, handle_place_bid, handle_view_auctions, handle_view_my_bids, FeedbackPayload,
  handle_submit_feedback,
}
use online_auction_system.AuctionEngine.{
  CreateAuctionPayload, handle_create_auction, handle_close_auction, is_admin,
}
use online_auction_system.Dispute.{
  FileDisputePayload, handle_file_dispute, handle_view_disputes, ResolveDisputePayload,
  handle_resolve_dispute, handle_view_feedback, ToggleAccountPayload, handle_toggle_account,
}
use online_auction_system.Admin.{
  AddUserPayload, handle_add_user, handle_list_users, ChangeRolePayload, handle_change_role,
}
use online_auction_system.Auth.{
  LoginPayload, handle_login, handle_logout, ChangePassPayload, handle_change_password,
  close_session,
}

pub data Request : Type 0 where
  file_dispute : FileDisputePayload → Request
  login : LoginPayload → Request
  logout view_auctions view_balance view_my_bids : Request
  change_pass : ChangePassPayload → Request
  place_bid : PlaceBidPayload → Request
  deposit : DepositPayload → Request
  submit_feedback : FeedbackPayload → Request
  create_auction : CreateAuctionPayload → Request
  close_auction : (auction_id : ℕ) → Request
  view_disputes view_feedback list_users : Request
  resolve_dispute : ResolveDisputePayload → Request
  toggle_account : ToggleAccountPayload → Request
  add_user : AddUserPayload → Request
  change_role : ChangeRolePayload → Request
  -- any other message type
  other : Request

-- The local variables of `handle_client` that outlive a message.
pub record Connection : Type 0 where
  pub client_fd : ℤ
  pub current_user : User
  pub authenticated : Bool
  pub running : Bool

abbrev pub is_login : Request → Bool
is_login (Request.login _) = true
is_login _ = false

abbrev pub is_bidder : Role → Bool
is_bidder role_bidder = true
is_bidder _ = false

-- `role == ROLE_AUCTIONEER || role == ROLE_ADMIN`
abbrev pub may_sell : Role → Bool
may_sell role_auctioneer = true
may_sell role_admin = true
may_sell _ = false

-- `role >= ROLE_MODERATOR`
abbrev pub may_moderate : Role → Bool
may_moderate r = leb (role_value role_moderator) (role_value r)

-- The roles that the `switch` lets through to the handler of a request.
abbrev pub permits : Request → Role → Bool
permits (Request.file_dispute _) r = is_bidder r
permits (Request.place_bid _) r = is_bidder r
permits (Request.create_auction _) r = may_sell r
permits (Request.close_auction _) r = may_sell r
permits Request.view_disputes r = may_moderate r
permits (Request.resolve_dispute _) r = may_moderate r
permits Request.view_feedback r = may_moderate r
permits (Request.toggle_account _) r = may_moderate r
permits (Request.add_user _) r = is_admin r
permits Request.list_users r = is_admin r
permits (Request.change_role _) r = is_admin r
permits _ r = true

module _ (popen : Bytes → Option Bytes) where
  -- The handler that the `switch` calls for a request that it lets through.
  unfoldable pub serve : Request → Connection → World → World × Connection
  serve (Request.file_dispute req) c w = (handle_file_dispute c.client_fd req c.current_user w, c)
  serve (Request.login req) c w =
      let r = handle_login popen c.client_fd req c.current_user w in
      (r.0, record c { current_user = r.1; authenticated = r.2 })
  serve Request.logout c w =
      (handle_logout c.client_fd c.current_user w, record c { running = false })
  serve (Request.change_pass req) c w =
      let r = handle_change_password popen c.client_fd req c.current_user w in
      (r.0, record c { current_user = r.1 })
  serve Request.view_auctions c w = (handle_view_auctions c.client_fd w, c)
  serve (Request.place_bid req) c w = (handle_place_bid c.client_fd req c.current_user w, c)
  serve Request.view_balance c w = (handle_view_balance c.client_fd c.current_user w, c)
  serve (Request.deposit req) c w =
      let r = handle_deposit c.client_fd req c.current_user w in
      (r.0, record c { current_user = r.1 })
  serve Request.view_my_bids c w = (handle_view_my_bids c.client_fd c.current_user w, c)
  serve (Request.submit_feedback req) c w =
      (handle_submit_feedback c.client_fd req c.current_user w, c)
  serve (Request.create_auction req) c w =
      (handle_create_auction c.client_fd req c.current_user w, c)
  serve (Request.close_auction id) c w = (handle_close_auction c.client_fd id c.current_user w, c)
  serve Request.view_disputes c w = (handle_view_disputes c.client_fd w, c)
  serve (Request.resolve_dispute req) c w =
      (handle_resolve_dispute c.client_fd req c.current_user w, c)
  serve Request.view_feedback c w = (handle_view_feedback c.client_fd w, c)
  serve (Request.toggle_account req) c w =
      (handle_toggle_account c.client_fd req c.current_user w, c)
  serve (Request.add_user req) c w = (handle_add_user popen c.client_fd req w, c)
  serve Request.list_users c w = (handle_list_users c.client_fd w, c)
  serve (Request.change_role req) c w = (handle_change_role c.client_fd req w, c)
  serve Request.other c w = (send_msg c.client_fd error_msg err_internal no_payload w, c)

  -- The body of the loop after `recv_msg`.
  unfoldable pub handle_message : Request → Connection → World → World × Connection
  handle_message req c w =
      if not c.authenticated && not (is_login req)
      then (send_msg c.client_fd error_msg err_auth_fail no_payload w, c)
      else if permits req c.current_user.role
      then serve req c w
      else (send_msg c.client_fd error_msg err_permission no_payload w, c)

  -- The loop, over the messages that `recv_msg` will give before it fails.
  unfoldable pub converse : List Request → Connection → World → World × Connection
  converse [] c w = (w, c)
  converse (req ∷ reqs) c w =
      let r = handle_message req c w in
      let rest = converse reqs r.1 r.0 in if c.running then rest else (w, c)

  -- What follows the loop.
  unfoldable pub clean_up : Connection → World → World
  clean_up c w =
      if c.authenticated && not (c.current_user.user_id == 0)
      then notify_unregister c.current_user.user_id (close_session c.current_user.user_id w)
      else w

  unfoldable pub handle_client : ℤ → List Request → World → World
  handle_client client_fd reqs w =
      let c : Connection = record {
        client_fd = client_fd;
        current_user = zero_user;
        authenticated = false;
        running = true;
      } in
      let r = converse reqs c w in if leb_ℤ client_fd (pos 0) then w else clean_up r.1 r.0
