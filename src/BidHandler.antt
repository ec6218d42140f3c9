-- ===== src/BidHandler.antt =====
-- server/bid_handler.c: placing a bid, the views on auctions and bids, and feedback.
-- `handle_place_bid` runs in one piece: its checks before `sem_wait` (`place_bid_peek`) and the part
-- under the auction's semaphore (`place_bid_locked`) see the same state.
pub mod Cases
use online_auction_system.Base.{
  ℕ, ◌+◌, ◌-◌, ◌^◌, ◌%◌, Bool, true, false, Option, none, some, List, ◌&&◌, not, ◌==◌, length,
  if◌then◌else◌,
}
use online_auction_system.Base.Money.{ℤ, ◌-ℤ◌, ltb_ℤ, leb_ℤ}
use online_auction_system.Base.Bytes.{Bytes, strncpy, zeroed}
use online_auction_system.Models.{
  Amount, User, Auction, AuctionStatus, auction_open, Bid, Feedback, max_feedback, u32, err_ok,
  err_not_found, err_auction_closed, err_internal, err_insufficient, err_bid_too_low, ErrorCode,
  place_bid_resp, view_auctions_resp, view_my_bids_resp, submit_feedback_resp,
}
use online_auction_system.Store.{records}
use online_auction_system.Store.Scan.{collect}
use online_auction_system.World.{
  World, LogLine, Payload, no_payload, bid_payload, auctions_payload, bids_payload,
}
use online_auction_system.World.FileIo.{
  read_auction, write_auction, read_user, append_bid, next_bid_id, append_feedback, log_txn,
}
use online_auction_system.Notify.{send_msg, notify_outbid}
use online_auction_system.Wallet.{place_hold, release_hold}

abbrev pub max_auctions : ℕ
max_auctions = 1024

-- The index of the semaphore that serialises the bids on an auction.
unfoldable pub auction_sem : ℕ → ℕ
auction_sem auction_id = (auction_id + 2 ^ 32 - 1) % 2 ^ 32 % max_auctions

-- `status == AUCTION_OPEN`
abbrev pub is_open : AuctionStatus → Bool
is_open auction_open = true
is_open _ = false

-- A request to bid whose amount is a number; Doubles has the request as it is sent.
pub record PlaceBidPayload : Type 0 where
  pub auction_id : ℕ
  pub amount : Amount

-- Step 4: the holds, with the result of neither call looked at.
unfoldable pub move_holds : PlaceBidPayload → User → Auction → World → World
move_holds req bidder a w =
    let released =
      if a.highest_bidder_id == 0
      then w
      else (release_hold a.highest_bidder_id a.current_bid w).0 in
    (place_hold bidder.user_id req.amount released).0

-- Step 5: the auction with the bid.
abbrev pub with_bid : PlaceBidPayload → User → Auction → Auction
with_bid req bidder a = record a {
  current_bid = req.amount;
  highest_bidder_id = bidder.user_id;
  bid_count = a.bid_count + 1;
}

-- Steps 4 to 7, for the auction as it was read under the semaphore.
unfoldable pub accept_bid : ℤ → PlaceBidPayload → User → Auction → World → World
accept_bid client_fd req bidder a w =
    let w1 = move_holds req bidder a w in
    let w2 = (write_auction (with_bid req bidder a) w1).0 in
    let b : Bid = record {
      bid_id = next_bid_id w2;
      auction_id = req.auction_id;
      bidder_id = bidder.user_id;
      amount = req.amount;
      placed_at = w2.now;
      is_winning = true;
    } in
    let w3 = (append_bid b w2).0 in
    let w4 = send_msg client_fd place_bid_resp err_ok (bid_payload b) w3 in
    let w5 = log_txn (LogLine.bid req.auction_id bidder.user_id req.amount) w4 in
    if not (a.highest_bidder_id == 0) && not (a.highest_bidder_id == bidder.user_id)
    then notify_outbid a.highest_bidder_id req.auction_id req.amount w5
    else w5

abbrev pub refuse_bid : ℤ → ErrorCode → World → World
refuse_bid client_fd code = send_msg client_fd place_bid_resp code no_payload

-- What runs after `sem_wait`.
unfoldable pub place_bid_locked : ℤ → PlaceBidPayload → User → World → World
place_bid_locked client_fd req bidder w = elim (read_auction req.auction_id w) [
  | none ↦ refuse_bid client_fd err_not_found w
  | some a ↦
      if not (is_open a.status)
      then refuse_bid client_fd err_auction_closed w
      else if leb_ℤ req.amount a.current_bid
      then refuse_bid client_fd err_bid_too_low w
      else accept_bid client_fd req bidder a w
]

-- The checks before `sem_wait`: the error to answer with, if any.
unfoldable pub place_bid_peek : PlaceBidPayload → User → World → Option ErrorCode
place_bid_peek req bidder w = elim (read_auction req.auction_id w) [
  | none ↦ some err_not_found
  | some a ↦
      if not (is_open a.status)
      then some err_auction_closed
      else elim (read_user bidder.user_id w) [
        | none ↦ some err_internal
        | some fresh_bidder ↦
            if ltb_ℤ (fresh_bidder.wallet_balance -ℤ fresh_bidder.wallet_hold) req.amount
            then some err_insufficient
            else none
      ]
]

unfoldable pub handle_place_bid : ℤ → PlaceBidPayload → User → World → World
handle_place_bid client_fd req bidder w = elim (place_bid_peek req bidder w) [
  | some code ↦ refuse_bid client_fd code w
  | none ↦ place_bid_locked client_fd req bidder w
]

abbrev pub is_listed : Auction → Bool
is_listed a = not a.is_deleted && is_open a.status

unfoldable pub handle_view_auctions : ℤ → World → World
handle_view_auctions client_fd w = elim w.auctions.contents [
  | none ↦ send_msg client_fd view_auctions_resp err_internal no_payload w
  | some all ↦
      send_msg client_fd view_auctions_resp err_ok (auctions_payload (collect is_listed 256 all)) w
]

unfoldable pub handle_view_my_bids : ℤ → User → World → World
handle_view_my_bids client_fd u w = elim w.bids.contents [
  | none ↦ send_msg client_fd view_my_bids_resp err_internal no_payload w
  | some all ↦
      send_msg client_fd view_my_bids_resp err_ok
        (bids_payload (collect (λ b. b.bidder_id == u.user_id) 256 all)) w
]

pub record FeedbackPayload : Type 0 where
  pub auction_id : ℕ
  pub message : Bytes

-- The id stays 0 while feedback.dat does not exist.
unfoldable pub handle_submit_feedback : ℤ → FeedbackPayload → User → World → World
handle_submit_feedback client_fd req u w =
    let f : Feedback = record {
      feedback_id = elim w.feedback.contents [ none ↦ 0 | some all ↦ u32 (u32 (length all) + 1) ];
      from_user_id = u.user_id;
      about_auction_id = req.auction_id;
      message = strncpy (zeroed max_feedback) req.message (max_feedback - 1);
      submitted_at = w.now;
      reviewed = false;
    } in
    let r = append_feedback f w in
    if r.1
    then send_msg client_fd submit_feedback_resp err_ok no_payload r.0
    else send_msg client_fd submit_feedback_resp err_internal no_payload r.0
