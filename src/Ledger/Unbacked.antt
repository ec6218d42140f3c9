-- ===== src/Ledger/Unbacked.antt =====
-- The part of `handle_place_bid` after `sem_wait` (server/bid_handler.c), when the bidder's money was
-- frozen elsewhere after the check before it.
use online_auction_system.Base.{ℕ, ◌≡◌, refl, some, true, false, arith, ◌∙◌, ap}
use online_auction_system.Base.Money.{ℤ, ◌-ℤ◌, ◌<ℤ◌, ltb_ℤ, leb_ℤ}
use online_auction_system.Models.{User, Auction, zero_auction}
use online_auction_system.Store.{slot_of, replaced}
use online_auction_system.Store.Laws.{write_back}
use online_auction_system.World.{World}
use online_auction_system.World.FileIo.{read_user, read_auction, write_auction}
use online_auction_system.Wallet.{place_hold}
use online_auction_system.BidHandler.{
  is_open, PlaceBidPayload, move_holds, with_bid, place_bid_locked,
}
use online_auction_system.Ledger.{auction_key, AuctionsReady}
use online_auction_system.Ledger.Bid.{accept_bid-files}

place_hold_short :
    (k : ℕ) (a : ℤ) (w : World) {u : User}
    → read_user k w ≡ some u
    → u.wallet_balance -ℤ u.wallet_hold <ℤ a
    → (place_hold k a w).0 ≡ w
unfolding place_hold
place_hold_short k a w {u} known short =
    let s : ltb_ℤ (u.wallet_balance -ℤ u.wallet_hold) a ≡ true = ground arith in
    rw (known, place_hold, s) refl

move_holds_short :
    (req : PlaceBidPayload) (bidder : User) (a : Auction) (w : World) {u : User}
    → a.highest_bidder_id ≡ 0
    → read_user bidder.user_id w ≡ some u
    → u.wallet_balance -ℤ u.wallet_hold <ℤ req.amount
    → move_holds req bidder a w ≡ w
unfolding move_holds
move_holds_short req bidder a w first known short =
    rw (first, move_holds) (place_hold_short bidder.user_id req.amount w known short)

-- If, under the semaphore, the auction is open, has no bid yet and costs less than the bid, the bid
-- is accepted even when the bidder's free money does not cover it: the auction gets the bid and the
-- bidder, and no wallet changes.
pub place_bid_locked_unbacked :
    (fd : ℤ) (req : PlaceBidPayload) (bidder : User) {w : World} {a : Auction} {u : User}
    → AuctionsReady w
    → read_auction req.auction_id w ≡ some a
    → is_open a.status ≡ true
    → a.highest_bidder_id ≡ 0
    → a.current_bid <ℤ req.amount
    → read_user bidder.user_id w ≡ some u
    → u.wallet_balance -ℤ u.wallet_hold <ℤ req.amount
    → let w' = place_bid_locked fd req bidder w in
      (w'.users ≡ w.users)
      × (w'.auctions ≡ replaced w.auctions (slot_of req.auction_id) (with_bid req bidder a))
unfolding place_bid_locked
place_bid_locked_unbacked fd req bidder {w} {a} ready found opened first beats known short =
    let high : leb_ℤ req.amount a.current_bid ≡ false = ground arith in
    let still = move_holds_short req bidder a w first known short in
    let files = accept_bid-files fd req bidder a w in
    let wrote =
      write_back auction_key zero_auction w.auctions (slot_of req.auction_id)
        (with_bid req bidder a) {old = a} ready.keyed found refl ready.writable in
    rw (found, opened, high, place_bid_locked)
      (
        files.0 ∙ ap (λ v. v.users) still,
        files.1
            ∙ ap (λ v. (write_auction (with_bid req bidder a) v).0.auctions) still
            ∙ ap (λ r. r.0) wrote,
      )
