-- ===== src/AuctionEngine.antt =====
-- server/auction_engine.c: creating auctions, closing them by hand or by the timer, and settlement.
use online_auction_system.Base.{
  ℕ, ◌+◌, ◌-◌, Bool, true, false, Option, none, some, List, [], ◌∷◌, ◌&&◌, ◌||◌, not, ltb, leb,
  ◌==◌, map, if◌then◌else◌,
}
use online_auction_system.Base.Money.{ℤ, pos, leb_ℤ, eqb_ℤ}
use online_auction_system.Base.Bytes.{Bytes, strncpy}
use online_auction_system.Models.{
  Amount, Role, role_admin, User, Auction, auction_open, auction_closed, Bid, zero_auction,
  max_item_name, max_desc, err_ok, err_internal, err_not_found, err_permission, err_auction_closed,
  create_auction_resp, close_auction_resp,
}
use online_auction_system.Store.Scan.{collect, rewrite_file}
use online_auction_system.World.{World, LogLine, no_payload, auction_payload}
use online_auction_system.World.FileIo.{read_auction, write_auction, next_auction_id, log_txn}
use online_auction_system.Notify.{send_msg, notify_auction_won, notify_auction_closed}
use online_auction_system.Wallet.{release_hold, settle_payment, credit_wallet}
use online_auction_system.BidHandler.{is_open}

-- A request whose prices are numbers; Doubles has the request as it is sent.
pub record CreateAuctionPayload : Type 0 where
  pub item_name : Bytes
  pub description : Bytes
  pub start_price : Amount
  pub reserve_price : Amount
  pub duration_seconds : ℕ

-- The record that `handle_create_auction` fills in.
abbrev pub new_auction : CreateAuctionPayload → User → World → Auction
new_auction req seller w = record zero_auction {
  auction_id = next_auction_id w;
  seller_id = seller.user_id;
  start_price = req.start_price;
  reserve_price = req.reserve_price;
  current_bid = req.start_price;
  highest_bidder_id = 0;
  status = auction_open;
  start_time = w.now;
  end_time = w.now + req.duration_seconds;
  bid_count = 0;
  is_deleted = false;
  item_name = strncpy zero_auction.item_name req.item_name (max_item_name - 1);
  description = strncpy zero_auction.description req.description (max_desc - 1);
}

unfoldable pub handle_create_auction : ℤ → CreateAuctionPayload → User → World → World
handle_create_auction client_fd req seller w =
    if leb_ℤ req.start_price (pos 0) || ltb req.duration_seconds 10
    then send_msg client_fd create_auction_resp err_internal no_payload w
    else let a = new_auction req seller w in
      let r = write_auction a w in
      if r.1
      then log_txn (LogLine.create_auction a.auction_id seller.user_id a.end_time a.item_name)
          (send_msg client_fd create_auction_resp err_ok (auction_payload a) r.0)
      else send_msg client_fd create_auction_resp err_internal no_payload r.0

abbrev pub reserve_met : Auction → Bool
reserve_met a = eqb_ℤ a.reserve_price (pos 0) || leb_ℤ a.reserve_price a.current_bid

-- The bids of the winner on the auction, which the settlement marks.
abbrev pub is_bid_of : ℕ → ℕ → Bid → Bool
is_bid_of auction_id bidder_id b = b.auction_id == auction_id && b.bidder_id == bidder_id

abbrev pub mark_winning : Bid → Bid
mark_winning b = record b { is_winning = true }

-- The branch of `close_auction_internal` with a winner.
unfoldable pub settle_auction : Auction → World → World
settle_auction a w =
    let w1 =
      log_txn (LogLine.wal_settle a.auction_id a.highest_bidder_id a.seller_id a.current_bid) w in
    let w2 = (settle_payment a.highest_bidder_id a.current_bid w1).0 in
    let w3 = (credit_wallet a.seller_id a.current_bid w2).0 in
    let w4 = record w3 {
      bids = rewrite_file (is_bid_of a.auction_id a.highest_bidder_id) mark_winning w3.bids;
    } in
    notify_auction_closed a.seller_id a.auction_id
      (notify_auction_won a.highest_bidder_id a.auction_id a.current_bid w4)

-- The branch without one.
unfoldable pub release_auction : Auction → World → World
release_auction a w =
    notify_auction_closed a.seller_id a.auction_id
      (if a.highest_bidder_id == 0 then w else (release_hold a.highest_bidder_id a.current_bid w).0)

-- `*a` after `a->status = AUCTION_CLOSED`.
abbrev pub closed : Auction → Auction
closed a = record a { status = auction_closed }

unfoldable pub close_auction_internal : Auction → World → World
close_auction_internal a w =
    let w1 = (write_auction (closed a) w).0 in
    if not (a.highest_bidder_id == 0) && reserve_met a
    then settle_auction (closed a) w1
    else release_auction (closed a) w1

abbrev pub is_admin : Role → Bool
is_admin role_admin = true
is_admin _ = false

unfoldable pub handle_close_auction : ℤ → (auction_id : ℕ) → User → World → World
handle_close_auction client_fd auction_id requester w = elim (read_auction auction_id w) [
  | none ↦ send_msg client_fd close_auction_resp err_not_found no_payload w
  | some a ↦
      if not (a.seller_id == requester.user_id) && not (is_admin requester.role)
      then send_msg client_fd close_auction_resp err_permission no_payload w
      else if not (is_open a.status)
      then send_msg client_fd close_auction_resp err_auction_closed no_payload w
      else log_txn (LogLine.close_auction a.auction_id requester.user_id) (
          send_msg client_fd close_auction_resp err_ok (auction_payload (closed a))
            (close_auction_internal a w))
]

abbrev pub is_expired : ℕ → Auction → Bool
is_expired now a = is_open a.status && leb a.end_time now

-- One round of the loop over `expired`.
unfoldable pub timer_close : ℕ → World → World
timer_close auction_id w = elim (read_auction auction_id w) [
  | none ↦ w
  | some ea ↦
      if is_open ea.status
      then log_txn (LogLine.timer_close auction_id) (close_auction_internal ea w)
      else w
]

unfoldable pub timer_close_all : List ℕ → World → World
timer_close_all [] w = w
timer_close_all (id ∷ ids) w = timer_close_all ids (timer_close id w)

-- The ids that one round of the timer collects.
abbrev pub expired_ids : ℕ → List Auction → List ℕ
expired_ids now all = map (λ a. a.auction_id) (collect (is_expired now) 64 all)

-- What a round does with the contents of auctions.dat, if the file could be opened.
unfoldable pub timer_round : Option (List Auction) → World → World
timer_round none w = w
timer_round (some all) w = timer_close_all (expired_ids w.now all) w

-- One round of `timer_thread`, after its `sleep(1)`.
unfoldable pub timer_tick : World → World
unfolding timer_round
timer_tick w = timer_round w.auctions.contents w
