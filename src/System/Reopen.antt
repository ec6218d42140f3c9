-- ===== src/System/Reopen.antt =====
-- A bid that is being placed (server/bid_handler.c) while the timer closes the auction
-- (server/auction_engine.c): the closing does not take the auction's semaphore.
use online_auction_system.Base.{◌≡◌, ◌∙◌, refl, ap, some, true, ==_self, if◌then◌else◌}
use online_auction_system.Base.Money.{ℤ}
use online_auction_system.Models.{User, Auction}
use online_auction_system.Store.{slot_of, read_at}
use online_auction_system.Store.Laws.{read_at-replaced, replaced-IsKeyed}
use online_auction_system.World.{World}
use online_auction_system.World.FileIo.{read_auction}
use online_auction_system.BidHandler.{is_open, PlaceBidPayload, with_bid, accept_bid}
use online_auction_system.BidHandler.Cases.{PassesLocked}
use online_auction_system.AuctionEngine.{closed, close_auction_internal}
use online_auction_system.Ledger.{AuctionsReady, auction_key}
use online_auction_system.Ledger.Expiry.{close_auction_internal-auctions}
use online_auction_system.System.Bids.{accept_bid-auctions}

-- Between the read of an open auction under the semaphore and the rest of `handle_place_bid`, another
-- thread closes the auction: at first the file has the auction as closed, and then the bid writes it
-- back as open, with the new price and bidder, although it has been settled.
pub accept_bid_reopens :
    (fd : ℤ) (req : PlaceBidPayload) (bidder : User) {w : World} {a : Auction}
    → AuctionsReady w
    → PassesLocked req w a
    → let w1 = close_auction_internal a w in
      (read_auction req.auction_id w1 ≡ some (closed a))
      × (read_auction req.auction_id (accept_bid fd req bidder a w1) ≡ some (with_bid req bidder a))
      × (is_open (with_bid req bidder a).status ≡ true)
accept_bid_reopens fd req bidder {w} {a} ready p =
    let s = slot_of req.auction_id in
    let w1 = close_auction_internal a w in
    let shut = close_auction_internal-auctions s ready p.found in
    let found : read_auction req.auction_id w1 ≡ some (closed a) =
      ap (λ f. read_at f s) shut
      ∙ read_at-replaced w.auctions s s (closed a) p.found
      ∙ ap (λ b. if b then some (closed a) else read_at w.auctions s) (==_self s) in
    let ready1 : AuctionsReady w1 = record {
      keyed =
          rw shut (replaced-IsKeyed auction_key w.auctions s (closed a) ready.keyed p.found refl);
      writable = rw shut ready.writable;
    } in
    let wrote = accept_bid-auctions req bidder a w1 fd {old = closed a} ready1 found refl in
    (
      found,
      ap (λ f. read_at f s) wrote
          ∙ read_at-replaced w1.auctions s s (with_bid req bidder a) found
          ∙ ap (λ b. if b then some (with_bid req bidder a) else read_at w1.auctions s) (==_self s),
      p.opened,
    )
