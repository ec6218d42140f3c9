-- ===== src/Tests/Money.antt =====
-- The theorems on money, at a small auction house.
use online_auction_system.Base.{◌≡◌, ◌⊎◌, true, false, refl, arith, [], ◌∷◌}
use online_auction_system.Base.Money.{◌-ℤ◌, pos}
use online_auction_system.Store.{records, read_at, replaced}
use online_auction_system.Wallet.{place_hold, release_hold, settle_payment, credit_wallet}
use online_auction_system.Wallet.Account.{Refines, freeze, thaw, pay, earn}
use online_auction_system.Wallet.Account.Refine.{wallet_functions-Refines}
use online_auction_system.BidHandler.{PlaceBidPayload, place_bid_locked, with_bid}
use online_auction_system.AuctionEngine.{close_auction_internal, handle_close_auction, timer_tick}
use online_auction_system.Ledger.{BooksMatch, total_balance}
use online_auction_system.Doubles.{
  PlaceBidMessage, CreateAuctionMessage, number, nan, plus_infinity, place_bid_message,
  deposit_message, create_auction_message,
}
use online_auction_system.Doubles.Books.{
  Outcome, Paid, place_bid_message-BooksMatch, deposit_message-BooksMatch,
  create_auction_message-BooksMatch,
}
use online_auction_system.Ledger.Close.{close_auction_internal-BooksMatch}
use online_auction_system.Ledger.Timer.{
  KeepsMoney, handle_close_auction-KeepsMoney, timer_tick-KeepsMoney,
}
use online_auction_system.Ledger.Unbacked.{place_bid_locked_unbacked}
use online_auction_system.Ledger.Expiry.{IsShut, timer_tick-IsShut}
use online_auction_system.Tests.House.{
  house, seller, ann, bob, vase, house-BooksMatch, house-UsersReady, house-WalletsSound, new_house,
  new_house-AuctionsReady,
}

-- A bid of 50 by the second bidder.
abbrev bid_50 : PlaceBidMessage
bid_50 = record { auction_id = 1; amount = number (pos 50) }

place_bid_message-BooksMatch_example :
    Outcome BooksMatch (number (pos 50) ≡ nan) (place_bid_message (pos 9) bid_50 bob house)
place_bid_message-BooksMatch_example =
    place_bid_message-BooksMatch (pos 9) bid_50 bob house (omega arith) house-BooksMatch

close_auction_internal-BooksMatch_example :
    let w' = close_auction_internal vase house in
    BooksMatch w' × (total_balance (records w'.users) ≡ total_balance (records house.users))
unfolding read_at
close_auction_internal-BooksMatch_example =
    close_auction_internal-BooksMatch 0 house-BooksMatch refl refl

handle_close_auction-KeepsMoney_example :
    KeepsMoney house (handle_close_auction (pos 7) 1 seller house)
handle_close_auction-KeepsMoney_example =
    handle_close_auction-KeepsMoney (pos 7) 1 seller house-BooksMatch

timer_tick-KeepsMoney_example : KeepsMoney house (timer_tick house)
timer_tick-KeepsMoney_example = timer_tick-KeepsMoney house-BooksMatch

abbrev sell_chair : CreateAuctionMessage
sell_chair = record {
  item_name = 99 ∷ [];
  description = [];
  start_price = number (pos 5);
  reserve_price = number (pos 8);
  duration_seconds = 60;
}

create_auction_message-BooksMatch_example :
    Outcome
      (λ w'. BooksMatch w' × (w'.users ≡ house.users))
      (true ≡ false)
      (create_auction_message (pos 7) sell_chair seller house)
create_auction_message-BooksMatch_example =
    create_auction_message-BooksMatch (pos 7) sell_chair seller house-BooksMatch (omega arith)
      (omega arith) (omega arith)

deposit_message-BooksMatch_example :
    Outcome
      (λ r. BooksMatch r.0 × Paid (number (pos 15)) ann house r.0)
      ((number (pos 15) ≡ nan) ⊎ (number (pos 15) ≡ plus_infinity))
      (deposit_message (pos 8) (number (pos 15)) ann house)
deposit_message-BooksMatch_example =
    deposit_message-BooksMatch (pos 8) (number (pos 15)) ann house-BooksMatch

wallet_functions-Refines_example :
    Refines (freeze (pos 20)) 2 house (place_hold 2 (pos 20) house)
    × Refines (thaw (pos 20)) 2 house (release_hold 2 (pos 20) house)
    × Refines (pay (pos 20)) 2 house (settle_payment 2 (pos 20) house)
    × Refines (earn (pos 20)) 2 house (credit_wallet 2 (pos 20) house)
wallet_functions-Refines_example =
    wallet_functions-Refines house-UsersReady house-WalletsSound 2 (pos 20) (omega arith)

timer_tick-IsShut_example : IsShut 0 (timer_tick house).auctions
timer_tick-IsShut_example =
    timer_tick-IsShut {all = vase ∷ []} house-BooksMatch refl (omega arith) 0 vase refl refl

-- A bid of 90 by the second bidder, who has 80.
abbrev bid_90 : PlaceBidPayload
bid_90 = record { auction_id = 1; amount = pos 90 }

place_bid_locked_unbacked_example :
    let w' = place_bid_locked (pos 9) bid_90 bob new_house in
    (w'.users ≡ new_house.users)
    × (w'.auctions
        ≡ replaced new_house.auctions 0 (
            with_bid bid_90 bob
              (record vase { current_bid = pos 10; highest_bidder_id = 0; bid_count = 0 })))
unfolding read_at ◌-ℤ◌
place_bid_locked_unbacked_example =
    place_bid_locked_unbacked (pos 9) bid_90 bob new_house-AuctionsReady refl refl refl
      (omega arith) refl (omega arith)
