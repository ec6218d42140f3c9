-- ===== src/Client/Bidder.antt =====
-- The requests of a bidder in client/client.c.
use online_auction_system.Base.{map, if◌then◌else◌}
use online_auction_system.Base.Money.{pos, leb_ℤ, ◌-ℤ◌}
use online_auction_system.Base.Bytes.{zeroed}
use online_auction_system.Models.{
  Bid, ErrorCode, err_ok, err_bid_too_low, err_insufficient, err_auction_closed, err_not_found,
  max_feedback, max_desc,
}
use online_auction_system.Server.Dispatch.{Request}
use online_auction_system.Client.{
  Platform, plain, Notice, Terminal, print, to_u32, read_line, read_double, read_int, exchange,
  status_of, payload_of,
}
use online_auction_system.Client.Requests.{is_ok, print_list}

-- The `switch` of `bidder_place_bid`.
abbrev pub bid_answer : ErrorCode → Notice
bid_answer err_ok = Notice.bid_placed
bid_answer err_bid_too_low = Notice.bid_too_low
bid_answer err_insufficient = Notice.insufficient_balance
bid_answer err_auction_closed = Notice.auction_not_open
bid_answer code = Notice.error_code code

-- The `switch` of `bidder_file_dispute`.
abbrev pub dispute_answer : ErrorCode → Notice
dispute_answer err_ok = Notice.dispute_filed
dispute_answer err_not_found = Notice.auction_not_found
dispute_answer err_auction_closed = Notice.auction_not_closed
dispute_answer _ = Notice.error_line

abbrev pub bid_row : Bid → Notice
bid_row b = Notice.bid_row b.bid_id b.auction_id b.amount b.placed_at b.is_winning

module _ (p : Platform) where
  unfoldable pub bidder_place_bid : Terminal → Terminal
  bidder_place_bid t =
      let aid = read_int p t in
      let amount = read_double p aid.1 in
      let e =
        exchange
          (plain (Request.place_bid (record { auction_id = to_u32 aid.0; amount = amount.0 })))
          amount.1 in
      print (bid_answer (status_of p e.1)) e.0

  unfoldable pub bidder_balance : Terminal → Terminal
  bidder_balance t =
      let e = exchange (plain Request.view_balance) t in
      let u = p.as_user (payload_of p e.1) in
      print (Notice.balance_line u.wallet_balance u.wallet_hold (u.wallet_balance -ℤ u.wallet_hold))
        e.0

  unfoldable pub bidder_deposit : Terminal → Terminal
  bidder_deposit t =
      let amount = read_double p t in
      let e = exchange (plain (Request.deposit (record { amount = amount.0 }))) amount.1 in
      if leb_ℤ amount.0 (pos 0)
      then print Notice.invalid_amount amount.1
      else if is_ok (status_of p e.1)
      then print (Notice.new_balance (p.as_user (payload_of p e.1)).wallet_balance) e.0
      else e.0

  unfoldable pub bidder_my_bids : Terminal → Terminal
  bidder_my_bids t =
      let e = exchange (plain Request.view_my_bids) t in
      print_list Notice.no_bids (map bid_row (p.as_bids (payload_of p e.1))) e.0

  unfoldable pub bidder_feedback : Terminal → Terminal
  bidder_feedback t =
      let aid = read_int p t in
      let msg = read_line max_feedback (zeroed max_feedback) aid.1 in
      let e =
        exchange
          (plain (Request.submit_feedback (record { auction_id = to_u32 aid.0; message = msg.0 })))
          msg.1 in
      print (if is_ok (status_of p e.1) then Notice.feedback_submitted else Notice.failed) e.0

  unfoldable pub bidder_file_dispute : Terminal → Terminal
  bidder_file_dispute t =
      let aid = read_int p t in
      let reason = read_line max_desc (zeroed max_desc) aid.1 in
      let e =
        exchange
          (plain (Request.file_dispute (record { auction_id = to_u32 aid.0; reason = reason.0 })))
          reason.1 in
      print (dispute_answer (status_of p e.1)) e.0
