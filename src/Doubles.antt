-- ===== src/Doubles.antt =====
-- The requests that bring an amount of money as it is sent, a `double`: a bid (server/bid_handler.c), a
-- deposit (server/wallet.c) and a new auction (server/auction_engine.c). `atof` of the client reads
-- `nan` and `inf` too. The files of the model hold numbers; where the code would write down an amount
-- that is none, the outcome is `none`.
pub mod Numbers
pub mod Books
use online_auction_system.Base.{
  ℕ, Bool, true, false, Option, none, some, ◌&&◌, ◌||◌, not, ltb, if◌then◌else◌,
}
use online_auction_system.Base.Money.{ℤ, pos, ◌-ℤ◌, leb_ℤ, ltb_ℤ}
use online_auction_system.Base.Bytes.{Bytes}
use online_auction_system.Models.{
  Amount, User, Auction, ErrorCode, err_not_found, err_auction_closed, err_internal,
  err_insufficient, err_bid_too_low, deposit_resp, create_auction_resp,
}
use online_auction_system.World.{World, no_payload}
use online_auction_system.World.FileIo.{read_auction, read_user}
use online_auction_system.Notify.{send_msg}
use online_auction_system.Wallet.{handle_deposit}
use online_auction_system.BidHandler.{is_open, accept_bid, refuse_bid}
use online_auction_system.AuctionEngine.{CreateAuctionPayload, handle_create_auction}

pub data Double : Type 0 where
  number : Amount → Double
  nan plus_infinity minus_infinity : Double

abbrev pub is_number : Double → Bool
is_number (number _) = true
is_number _ = false

-- `d <= a` of C, which is false for NaN.
abbrev pub at_most : Double → Amount → Bool
at_most (number x) a = leb_ℤ x a
at_most nan a = false
at_most plus_infinity a = false
at_most minus_infinity a = true

-- `d > a`
abbrev pub above : Double → Amount → Bool
above (number x) a = ltb_ℤ a x
above nan a = false
above plus_infinity a = true
above minus_infinity a = false

pub record PlaceBidMessage : Type 0 where
  pub auction_id : ℕ
  pub amount : Double

-- The checks before `sem_wait`.
unfoldable pub peek_message : PlaceBidMessage → User → World → Option ErrorCode
peek_message m bidder w = elim (read_auction m.auction_id w) [
  | none ↦ some err_not_found
  | some a ↦
      if not (is_open a.status)
      then some err_auction_closed
      else elim (read_user bidder.user_id w) [
        | none ↦ some err_internal
        | some fresh_bidder ↦
            if above m.amount (fresh_bidder.wallet_balance -ℤ fresh_bidder.wallet_hold)
            then some err_insufficient
            else none
      ]
]

-- Steps 4 to 7 for a bid that has passed all checks, which leave the model where the amount is no
-- number.
abbrev pub written : ℤ → PlaceBidMessage → User → Auction → World → Option World
written client_fd m bidder a w = elim m.amount [
  | number x ↦
      some (accept_bid client_fd (record { auction_id = m.auction_id; amount = x }) bidder a w)
  | _ ↦ none
]

-- What runs under the semaphore.
unfoldable pub locked_message : ℤ → PlaceBidMessage → User → World → Option World
locked_message client_fd m bidder w = elim (read_auction m.auction_id w) [
  | none ↦ some (refuse_bid client_fd err_not_found w)
  | some a ↦
      if not (is_open a.status)
      then some (refuse_bid client_fd err_auction_closed w)
      else if at_most m.amount a.current_bid
      then some (refuse_bid client_fd err_bid_too_low w)
      else written client_fd m bidder a w
]

unfoldable pub place_bid_message : ℤ → PlaceBidMessage → User → World → Option World
place_bid_message client_fd m bidder w = elim (peek_message m bidder w) [
  | some code ↦ some (refuse_bid client_fd code w)
  | none ↦ locked_message client_fd m bidder w
]

-- A deposit that passes the first guard reaches at least a line of txn.log with its amount.
unfoldable pub deposit_message : ℤ → Double → User → World → Option (World × User)
deposit_message client_fd (number x) u w =
    some (handle_deposit client_fd (record { amount = x }) u w)
deposit_message client_fd d u w =
    if at_most d (pos 0)
    then some (send_msg client_fd deposit_resp err_internal no_payload w, u)
    else none

pub record CreateAuctionMessage : Type 0 where
  pub item_name : Bytes
  pub description : Bytes
  pub start_price : Double
  pub reserve_price : Double
  pub duration_seconds : ℕ

-- An auction that passes the guard is written down with both prices.
abbrev pub sold_message : ℤ → CreateAuctionMessage → Double → Double → User → World → Option World
sold_message client_fd m (number start) (number reserve) seller w = some (
    handle_create_auction client_fd
      (record {
        item_name = m.item_name;
        description = m.description;
        start_price = start;
        reserve_price = reserve;
        duration_seconds = m.duration_seconds;
      })
      seller w)
sold_message client_fd m _ _ seller w = none

unfoldable pub create_auction_message : ℤ → CreateAuctionMessage → User → World → Option World
create_auction_message client_fd m seller w =
    if at_most m.start_price (pos 0) || ltb m.duration_seconds 10
    then some (send_msg client_fd create_auction_resp err_internal no_payload w)
    else sold_message client_fd m m.start_price m.reserve_price seller w
