-- ===== src/System/Closing.antt =====
-- The order of the files when an auction is closed, by hand or by the timer (server/auction_engine.c).
use online_auction_system.Base.{
  ℕ, ◌≡◌, refl, ap, ◌∙◌, Option, some, none, true, not, arith, Bool-cases, Option-cases, inl, inr,
  ◌==◌, List, [], ◌∷◌, ◌&&◌,
}
use online_auction_system.Base.Money.{ℤ}
use online_auction_system.Models.{User, auction_closed, Auction}
use online_auction_system.Store.{slot_of, read_at}
use online_auction_system.World.{World, LogLine}
use online_auction_system.World.FileIo.{read_auction, log_txn}
use online_auction_system.Wallet.{release_hold, settle_payment}
use online_auction_system.Wallet.Frame.{
  release_hold-SameElsewhere, settle_payment-SameElsewhere, credit_wallet-SameElsewhere,
}
use online_auction_system.Notify.Frame.{
  notify_auction_won-OnlySends, notify_auction_closed-OnlySends,
}
use online_auction_system.BidHandler.{is_open}
use online_auction_system.AuctionEngine.{
  closed, reserve_met, settle_auction, release_auction, close_auction_internal, is_admin,
  handle_close_auction, timer_close, timer_close_all, timer_round, timer_tick, expired_ids,
}
use online_auction_system.Ledger.Close.{close_auction_internal-BooksMatch, settle_auction-files}
use online_auction_system.Ledger.Expiry.{close_auction_internal-auctions}
use online_auction_system.System.History.{Evolves-replaced, Follows-refl, status-Follows}
use online_auction_system.System.Keeps.{
  InOrder, Keeps, Keeps-trans, Keeps-books, Keeps-files, Keeps-then,
}
use online_auction_system.System.Trade.{
  UsersStay, release_hold-UsersStay, settle_payment-UsersStay, credit_wallet-UsersStay,
}

-- disputes.dat stays as it is, and no user goes away.
abbrev Mild : World → World → Type 0
Mild w w' = (w'.disputes ≡ w.disputes) × UsersStay w w'

settle_auction-Mild : (a : Auction) (w : World) → Mild w (settle_auction a w)
unfolding settle_auction
settle_auction-Mild a w =
    let w1 =
      log_txn (LogLine.wal_settle a.auction_id a.highest_bidder_id a.seller_id a.current_bid) w in
    let w2 = (settle_payment a.highest_bidder_id a.current_bid w1).0 in
    let stay = settle_payment-UsersStay a.highest_bidder_id a.current_bid w1 in
    let stay1 = credit_wallet-UsersStay a.seller_id a.current_bid w2 in
    (
      ap (λ v. v.disputes) (notify_auction_closed-OnlySends a.seller_id a.auction_id _)
          ∙ ap (λ v. v.disputes)
              (notify_auction_won-OnlySends a.highest_bidder_id a.auction_id a.current_bid _)
          ∙ ap (λ v. v.disputes) (credit_wallet-SameElsewhere a.seller_id a.current_bid _)
          ∙ ap (λ v. v.disputes) (settle_payment-SameElsewhere a.highest_bidder_id a.current_bid _),
      rw ((settle_auction-files a w).0) (omega (arith, stay, stay1)),
    )

release_auction-Mild : (a : Auction) (w : World) → Mild w (release_auction a w)
unfolding release_auction
release_auction-Mild a w = elim (Bool-cases (a.highest_bidder_id == 0)) [
  | inl nobody ↦ rw nobody (
    ap (λ v. v.disputes) (notify_auction_closed-OnlySends a.seller_id a.auction_id w),
    rw (ap (λ v. v.users) (notify_auction_closed-OnlySends a.seller_id a.auction_id w))
        (omega arith),
  )
  | inr somebody ↦
      let w1 = (release_hold a.highest_bidder_id a.current_bid w).0 in
      let freed = release_hold-SameElsewhere a.highest_bidder_id a.current_bid w in
      let stay = release_hold-UsersStay a.highest_bidder_id a.current_bid w in
      let sent = notify_auction_closed-OnlySends a.seller_id a.auction_id w1 in
      rw somebody
        (ap (λ v. v.disputes) sent ∙ ap (λ v. v.disputes) freed, rw (ap (λ v. v.users) sent) stay)
]

close_auction_internal-Mild : (a : Auction) (w : World) → Mild w (close_auction_internal a w)
unfolding close_auction_internal
close_auction_internal-Mild a w =
    elim (Bool-cases (not (a.highest_bidder_id == 0) && reserve_met a)) [
      | inl won ↦ rw won (settle_auction-Mild (closed a) _)
      | inr lost ↦ rw lost (release_auction-Mild (closed a) _)
    ]

close_auction_internal-Keeps :
    {w : World} {a : Auction} (s : ℕ)
    → InOrder w
    → read_at w.auctions s ≡ some a
    → is_open a.status ≡ true
    → Keeps w (close_auction_internal a w)
close_auction_internal-Keeps {w} {a} s o found opened =
    let (disputes, stay) = close_auction_internal-Mild a w in
    let auctions = close_auction_internal-auctions s o.books.auctions_ready found in
    Keeps-books o (close_auction_internal-BooksMatch s o.books found opened).0 stay disputes (
      rw auctions (
        Evolves-replaced Follows-refl w.auctions s (closed a) found
          (status-Follows a auction_closed (inl opened))))

pub handle_close_auction-Keeps :
    (fd : ℤ) (id : ℕ) (u : User) {w : World} → InOrder w → Keeps w (handle_close_auction fd id u w)
unfolding handle_close_auction
handle_close_auction-Keeps fd id u {w} o = elim (Option-cases (read_auction id w)) [
  | inl absent ↦ rw (absent, handle_close_auction) (Keeps-files o refl refl refl)
  | inr (a, found) ↦ elim (Bool-cases (not (a.seller_id == u.user_id) && not (is_admin u.role))) [
    | inl denied ↦ rw (found, denied, handle_close_auction) (Keeps-files o refl refl refl)
    | inr allowed ↦ elim (Bool-cases (is_open a.status)) [
      | inr shut ↦ rw (found, allowed, shut, handle_close_auction) (Keeps-files o refl refl refl)
      | inl opened ↦
          let k = close_auction_internal-Keeps (slot_of id) o found opened in
          rw (found, allowed, opened, handle_close_auction) (Keeps-then k refl refl refl)
    ]
  ]
]

timer_close-Keeps : (id : ℕ) {w : World} → InOrder w → Keeps w (timer_close id w)
unfolding timer_close
timer_close-Keeps id {w} o = elim (Option-cases (read_auction id w)) [
  | inl absent ↦ rw (absent, timer_close) (Keeps-files o refl refl refl)
  | inr (a, found) ↦ elim (Bool-cases (is_open a.status)) [
    | inr shut ↦ rw (found, shut, timer_close) (Keeps-files o refl refl refl)
    | inl opened ↦
        let k = close_auction_internal-Keeps (slot_of id) o found opened in
        rw (found, opened, timer_close) (Keeps-then k refl refl refl)
  ]
]

timer_close_all-Keeps : (ids : List ℕ) {w : World} → InOrder w → Keeps w (timer_close_all ids w)
unfolding timer_close_all
timer_close_all-Keeps [] o = Keeps-files o refl refl refl
timer_close_all-Keeps (id ∷ ids) o =
    let k = timer_close-Keeps id o in Keeps-trans k (timer_close_all-Keeps ids k.in_order)

timer_round-Keeps :
    (contents : Option (List Auction)) {w : World} → InOrder w → Keeps w (timer_round contents w)
unfolding timer_round
timer_round-Keeps none o = Keeps-files o refl refl refl
timer_round-Keeps (some all) {w} o = timer_close_all-Keeps (expired_ids w.now all) o

pub timer_tick-Keeps : {w : World} → InOrder w → Keeps w (timer_tick w)
unfolding timer_tick
timer_tick-Keeps {w} o = timer_round-Keeps w.auctions.contents o
