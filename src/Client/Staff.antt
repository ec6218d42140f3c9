-- ===== src/Client/Staff.antt =====
-- The requests of an auctioneer and of a moderator in client/client.c.
use online_auction_system.Base.{map, if◌then◌else◌}
use online_auction_system.Base.Money.{ℤ}
use online_auction_system.Base.Bytes.{zeroed}
use online_auction_system.Models.{
  Dispute, Feedback, dispute_resolved, dispute_rejected, AccountStatus, account_active,
  account_inactive, account_banned, ErrorCode, err_ok, err_permission, err_auction_closed,
  max_item_name, max_desc,
}
use online_auction_system.Server.Dispatch.{Request}
use online_auction_system.Client.{
  Platform, plain, Notice, Terminal, print, to_u32, is_choice, read_line, read_double, read_int,
  exchange, status_of, payload_of,
}
use online_auction_system.Client.Requests.{is_ok, print_list}

-- The `switch` of `auctioneer_close`.
abbrev pub close_answer : ErrorCode → Notice
close_answer err_ok = Notice.auction_settled
close_answer err_permission = Notice.not_your_auction
close_answer err_auction_closed = Notice.already_closed
close_answer _ = Notice.error_line

-- The `switch` of `mod_toggle`.
abbrev pub toggle_answer : ErrorCode → Notice
toggle_answer err_ok = Notice.status_updated
toggle_answer err_permission = Notice.cannot_modify_higher_rank
toggle_answer _ = Notice.error_line

-- `(c==1)?ACCOUNT_ACTIVE:(c==2)?ACCOUNT_INACTIVE:ACCOUNT_BANNED`
abbrev pub status_choice : ℤ → AccountStatus
status_choice c =
    if is_choice c 1
    then account_active
    else (if is_choice c 2 then account_inactive else account_banned)

abbrev pub dispute_row : Dispute → Notice
dispute_row d = Notice.dispute_row d.dispute_id d.auction_id d.raised_by_user_id d.reason

abbrev pub feedback_row : Feedback → Notice
feedback_row f = Notice.feedback_row f.feedback_id f.about_auction_id f.from_user_id f.message

module _ (p : Platform) where
  unfoldable pub auctioneer_create : Terminal → Terminal
  auctioneer_create t =
      let item = read_line max_item_name (zeroed max_item_name) t in
      let desc = read_line max_desc (zeroed max_desc) item.1 in
      let start = read_double p desc.1 in
      let reserve = read_double p start.1 in
      let dur = read_int p reserve.1 in
      let e =
        exchange
          (plain (
            Request.create_auction (record {
              item_name = item.0;
              description = desc.0;
              start_price = start.0;
              reserve_price = reserve.0;
              duration_seconds = to_u32 dur.0;
            })))
          dur.1 in
      if is_ok (status_of p e.1)
      then print (Notice.auction_created (p.as_auction (payload_of p e.1)).auction_id) e.0
      else print Notice.failed e.0

  unfoldable pub auctioneer_close : Terminal → Terminal
  auctioneer_close t =
      let aid = read_int p t in
      let e = exchange (plain (Request.close_auction (to_u32 aid.0))) aid.1 in
      print (close_answer (status_of p e.1)) e.0

  unfoldable pub mod_disputes : Terminal → Terminal
  mod_disputes t =
      let e = exchange (plain Request.view_disputes) t in
      print_list Notice.no_open_disputes (map dispute_row (p.as_disputes (payload_of p e.1))) e.0

  unfoldable pub mod_resolve : Terminal → Terminal
  mod_resolve t =
      let did = read_int p t in
      let c = read_int p did.1 in
      let res = read_line max_desc (zeroed max_desc) c.1 in
      let e =
        exchange
          (plain (
            Request.resolve_dispute (record {
              dispute_id = to_u32 did.0;
              new_status = if is_choice c.0 1 then dispute_resolved else dispute_rejected;
              resolution = res.0;
            })))
          res.1 in
      print (if is_ok (status_of p e.1) then Notice.dispute_resolved_line else Notice.failed) e.0

  unfoldable pub mod_feedback : Terminal → Terminal
  mod_feedback t =
      let e = exchange (plain Request.view_feedback) t in
      print_list Notice.no_unreviewed_feedback
        (map feedback_row (p.as_feedbacks (payload_of p e.1))) e.0

  unfoldable pub mod_toggle : Terminal → Terminal
  mod_toggle t =
      let uid = read_int p t in
      let c = read_int p uid.1 in
      let e =
        exchange
          (plain (
            Request.toggle_account
              (record { target_user_id = to_u32 uid.0; new_status = status_choice c.0 })))
          c.1 in
      print (toggle_answer (status_of p e.1)) e.0
