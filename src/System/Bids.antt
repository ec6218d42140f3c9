-- ===== src/System/Bids.antt =====
-- The order of the files when a bid is placed (server/bid_handler.c) or an auction created
-- (server/auction_engine.c).
use online_auction_system.Base.{
  ◌+◌, ◌^◌, ◌≤◌, ◌<◌, ◌≡◌, refl, ap, ◌∙◌, some, not, arith, Bool-cases, inl, inr, ◌==◌, length,
  ◌&&◌, ◌||◌, ltb,
}
use online_auction_system.Base.Money.{ℤ, pos, leb_ℤ}
use online_auction_system.Models.{User, Auction, zero_auction}
use online_auction_system.Store.{records, slot_of, replaced}
use online_auction_system.Store.Laws.{write_back, write_at-next_id}
use online_auction_system.World.{World}
use online_auction_system.World.FileIo.{read_auction}
use online_auction_system.Wallet.{release_hold}
use online_auction_system.Wallet.Frame.{place_hold-SameElsewhere, release_hold-SameElsewhere}
use online_auction_system.Notify.Frame.{notify_outbid-OnlySends}
use online_auction_system.BidHandler.{
  PlaceBidPayload, move_holds, with_bid, accept_bid, handle_place_bid,
}
use online_auction_system.BidHandler.Cases.{handle_place_bid-cases}
use online_auction_system.AuctionEngine.{CreateAuctionPayload, new_auction, handle_create_auction}
use online_auction_system.Ledger.{auction_key, AuctionsReady}
use online_auction_system.Ledger.Bid.{accept_bid-BooksMatch, accept_bid-files}
use online_auction_system.Ledger.Entry.{handle_create_auction-BooksMatch}
use online_auction_system.System.History.{
  Evolves-replaced, Evolves-append, Follows-refl, bid-Follows,
}
use online_auction_system.System.Keeps.{InOrder, Keeps, Keeps-books, Keeps-files}
use online_auction_system.System.Trade.{UsersStay, place_hold-UsersStay, release_hold-UsersStay}

-- From `w` to `w'` only users.dat and txn.log may differ among the files of money.
module _ (req : PlaceBidPayload) (bidder : User) (a : Auction) (w : World) where
  move_holds-elsewhere :
      ((move_holds req bidder a w).auctions ≡ w.auctions)
      × ((move_holds req bidder a w).disputes ≡ w.disputes)
      × UsersStay w (move_holds req bidder a w)
  unfolding move_holds
  move_holds-elsewhere = elim (Bool-cases (a.highest_bidder_id == 0)) [
    | inl first ↦
        let held = place_hold-SameElsewhere bidder.user_id req.amount w in
        rw (first, move_holds)
          (
            ap (λ v. v.auctions) held,
            ap (λ v. v.disputes) held,
            place_hold-UsersStay bidder.user_id req.amount w,
          )
    | inr later ↦
        let w1 = (release_hold a.highest_bidder_id a.current_bid w).0 in
        let freed = release_hold-SameElsewhere a.highest_bidder_id a.current_bid w in
        let held = place_hold-SameElsewhere bidder.user_id req.amount w1 in
        let stay = release_hold-UsersStay a.highest_bidder_id a.current_bid w in
        let stay1 = place_hold-UsersStay bidder.user_id req.amount w1 in
        rw (later, move_holds)
          (
            ap (λ v. v.auctions) held ∙ ap (λ v. v.auctions) freed,
            ap (λ v. v.disputes) held ∙ ap (λ v. v.disputes) freed,
            omega (arith, stay, stay1),
          )
  ]

  accept_bid-disputes :
      (fd : ℤ) → (accept_bid fd req bidder a w).disputes ≡ (move_holds req bidder a w).disputes
  unfolding accept_bid
  accept_bid-disputes fd =
      elim (Bool-cases
        (not (a.highest_bidder_id == 0) && not (a.highest_bidder_id == bidder.user_id))) [
          | inl outbid ↦
              let sends = notify_outbid-OnlySends a.highest_bidder_id req.auction_id req.amount _ in
              rw outbid (ap (λ v. v.disputes) sends)
          | inr quiet ↦ rw quiet refl
        ]

  pub accept_bid-auctions :
      (fd : ℤ) {old : Auction}
      → AuctionsReady w
      → read_auction req.auction_id w ≡ some old
      → a.auction_id ≡ old.auction_id
      → (accept_bid fd req bidder a w).auctions
        ≡ replaced w.auctions (slot_of req.auction_id) (with_bid req bidder a)
  accept_bid-auctions fd {old} ready found id =
      let files = accept_bid-files fd req bidder a w in
      let same = move_holds-elsewhere.0 in
      let wrote =
        write_back auction_key zero_auction w.auctions (slot_of req.auction_id)
          (with_bid req bidder a) {old = old} ready.keyed found id ready.writable in
      files.1 ∙ rw same (ap (λ r. r.0) wrote)

pub handle_place_bid-Keeps :
    (fd : ℤ) (req : PlaceBidPayload) (bidder : User) {w : World}
    → bidder.user_id < 2 ^ 32
    → InOrder w
    → Keeps w (handle_place_bid fd req bidder w)
handle_place_bid-Keeps fd req bidder {w} small o =
    handle_place_bid-cases (Keeps w) fd req bidder w (λ code. Keeps-files o refl refl refl)
      λ a u p.
        let l = p.locked in
        let moved = move_holds-elsewhere req bidder a w in
        let users = (accept_bid-files fd req bidder a w).0 in
        let written = accept_bid-auctions req bidder a w fd o.books.auctions_ready l.found refl in
        Keeps-books o
          (accept_bid-BooksMatch o.books fd req bidder l.found l.opened p.known small l.beats
            p.enough)
          (rw users moved.2) (accept_bid-disputes req bidder a w fd ∙ moved.1)
          (rw written (
            Evolves-replaced Follows-refl w.auctions (slot_of req.auction_id)
              (with_bid req bidder a) l.found
              (bid-Follows a req.amount bidder.user_id (a.bid_count + 1) l.opened l.beats)))

pub handle_create_auction-Keeps :
    (fd : ℤ) (req : CreateAuctionPayload) (seller : User) {w : World}
    → InOrder w
    → length (records w.auctions) + 1 < 2 ^ 32
    → 1 ≤ seller.user_id
    → seller.user_id ≤ length (records w.users)
    → Keeps w (handle_create_auction fd req seller w)
unfolding handle_create_auction
handle_create_auction-Keeps fd req seller {w} o small low high =
    let (m, users) = handle_create_auction-BooksMatch fd req seller o.books small low high in
    let a = new_auction req seller w in
    let wrote =
      write_at-next_id auction_key zero_auction w.auctions a small refl
        o.books.auctions_ready.writable in
    elim (Bool-cases (leb_ℤ req.start_price (pos 0) || ltb req.duration_seconds 10)) [
      | inl bad ↦ rw (bad, handle_create_auction) (Keeps-files o refl refl refl)
      | inr good ↦
          Keeps-books o m (rw users (omega arith)) (rw (good, handle_create_auction, wrote) refl)
            (rw (good, handle_create_auction, wrote) (Evolves-append Follows-refl w.auctions a))
    ]
