-- ===== src/Ledger/Close.antt =====
-- Closing an auction (server/auction_engine.c) keeps the books and the sum of all balances: the
-- winner's hold becomes the seller's money, or the hold is released.
use online_auction_system.Base.{
  ℕ, suc, ◌^◌, ◌≡◌, refl, some, true, not, arith, ◌==◌, ◌<◌, ◌≢◌, ◌&&◌, Bool-cases, inl, inr,
  if◌then◌else◌, length, All-get, ap, ◌∙◌, ==_iff, ==_of_ne,
}
use online_auction_system.Base.Money.{pos, neg, ◌+ℤ◌, money_laws, +ℤ-zero}
use online_auction_system.Models.{Amount, Auction, zero_auction}
use online_auction_system.Store.{records, read_at, slot_of, replaced}
use online_auction_system.Store.Laws.{read_at-some, read_at-get, write_back}
use online_auction_system.World.{World, LogLine}
use online_auction_system.World.FileIo.{log_txn}
use online_auction_system.Notify.Frame.{
  notify_auction_won-OnlySends, notify_auction_closed-OnlySends,
}
use online_auction_system.Wallet.{settle_payment, credit_wallet}
use online_auction_system.BidHandler.{is_open}
use online_auction_system.AuctionEngine.{
  closed, reserve_met, settle_auction, release_auction, close_auction_internal,
}
use online_auction_system.Ledger.{auction_key, claim_on, IsSaneAuction, BooksMatch, total_balance}
use online_auction_system.Ledger.Shift.{
  Shift, only, nothing, Shift-refl, Shift-trans, Shift-files, Shift-from, release_hold-Shift,
  settle_payment-Shift, credit_wallet-Shift,
}
use online_auction_system.Ledger.Update.{BooksMatch-update_first}
use online_auction_system.Ledger.Bid.{highest_bidder_covered}

-- An auction without a bid claims nothing, open or closed.
no_claims :
    (a : Auction) (i : ℕ)
    → a.highest_bidder_id ≡ 0
    → nothing i +ℤ claim_on (suc i) a ≡ claim_on (suc i) (closed a)
unfolding ◌+ℤ◌
no_claims a i z = ground arith

release_claims :
    (a : Auction) (i : ℕ)
    → is_open a.status ≡ true
    → a.highest_bidder_id ≢ 0
    → a.highest_bidder_id < 2 ^ 32
    → only a.highest_bidder_id (neg a.current_bid) i +ℤ claim_on (suc i) a
      ≡ claim_on (suc i) (closed a)
unfolding ◌+ℤ◌ neg
release_claims a i o nz small = ground arith

settle_claims :
    (a : Auction) (i : ℕ)
    → is_open a.status ≡ true
    → a.highest_bidder_id ≢ 0
    → a.highest_bidder_id < 2 ^ 32
    → only a.highest_bidder_id (neg a.current_bid) i
        +ℤ only a.seller_id (pos 0) i
        +ℤ claim_on (suc i) a
      ≡ claim_on (suc i) (closed a)
unfolding ◌+ℤ◌ neg
settle_claims a i o nz small = ground arith

neg_sum : (a : Amount) → neg a +ℤ a ≡ pos 0
neg_sum a = omega money_laws

-- `settle_auction` leaves users.dat and auctions.dat as its two wallet calls do.
pub settle_auction-files :
    (a : Auction) (w : World)
    → let w1 =
        log_txn (LogLine.wal_settle a.auction_id a.highest_bidder_id a.seller_id a.current_bid) w in
      let w2 = (settle_payment a.highest_bidder_id a.current_bid w1).0 in
      let w3 = (credit_wallet a.seller_id a.current_bid w2).0 in
      ((settle_auction a w).users ≡ w3.users) × ((settle_auction a w).auctions ≡ w3.auctions)
unfolding settle_auction
settle_auction-files a w =
    let shut = notify_auction_closed-OnlySends a.seller_id a.auction_id _ in
    let won = notify_auction_won-OnlySends a.highest_bidder_id a.auction_id a.current_bid _ in
    (
      ap (λ v. v.users) shut ∙ ap (λ v. v.users) won,
      ap (λ v. v.auctions) shut ∙ ap (λ v. v.auctions) won,
    )

module _ {w : World} (m : BooksMatch w) (s : ℕ) {a : Auction}
    (found : read_at w.auctions s ≡ some a) (opened : is_open a.status ≡ true) where
  -- The state after `write_auction`, before the wallets move.
  abbrev marked : World
  marked = record w { auctions = replaced w.auctions s (closed a) }

  marked-Shift : Shift marked marked (pos 0) nothing nothing
  marked-Shift =
      Shift-refl {w = marked}
        (record { keyed = m.users_ready.keyed; writable = m.users_ready.writable }) m.sound

  closed_sane : IsSaneAuction (length (records w.users)) (closed a)
  closed_sane =
      All-get (IsSaneAuction (length (records w.users))) (records w.auctions) s m.sane
        (read_at-get w.auctions s found)

  settle_auction-Shift :
      a.highest_bidder_id ≢ 0
      → Shift marked
          (settle_auction (closed a) marked)
          (neg a.current_bid +ℤ a.current_bid)
          (λ i. only a.highest_bidder_id (neg a.current_bid) i +ℤ only a.seller_id a.current_bid i)
          (λ i. only a.highest_bidder_id (neg a.current_bid) i +ℤ only a.seller_id (pos 0) i)
  settle_auction-Shift nz =
      let (p, ep, low, cover, fits) = highest_bidder_covered s m found opened nz in
      let sane = closed_sane in
      let logged =
        log_txn (LogLine.wal_settle a.auction_id a.highest_bidder_id a.seller_id a.current_bid)
          marked in
      let sh1 =
        settle_payment-Shift {w = logged}
          (record { keyed = m.users_ready.keyed; writable = m.users_ready.writable }) m.sound
          a.highest_bidder_id ep a.current_bid low cover in
      let w2 = (settle_payment a.highest_bidder_id a.current_bid logged).0 in
      let fits = m.users_ready.keyed.1 in
      let (q, eq) = read_at-some w2.users (slot_of a.seller_id) (rw sh1.size (omega arith)) in
      let sh2 = credit_wallet-Shift sh1.ready sh1.sound a.seller_id eq a.current_bid low in
      let files = settle_auction-files (closed a) marked in
      Shift-files files.0 files.1 (Shift-from {v = logged} refl refl (Shift-trans sh1 sh2))

  release_auction-Shift :
      a.highest_bidder_id ≢ 0
      → Shift marked
          (release_auction (closed a) marked)
          (pos 0)
          (only a.highest_bidder_id (pos 0))
          (only a.highest_bidder_id (neg a.current_bid))
  unfolding release_auction
  release_auction-Shift nz =
      let (p, ep, low, cover, fits) = highest_bidder_covered s m found opened nz in
      let sh =
        release_hold-Shift {w = marked}
          (record { keyed = m.users_ready.keyed; writable = m.users_ready.writable }) m.sound
          a.highest_bidder_id ep a.current_bid low cover in
      let sends = notify_auction_closed-OnlySends a.seller_id a.auction_id _ in
      rw (==_of_ne a.highest_bidder_id 0 nz)
        (Shift-files (ap (λ v. v.users) sends) (ap (λ v. v.auctions) sends) sh)

  unsold-Shift :
      (a.highest_bidder_id == 0) ≡ true
      → Shift marked (release_auction (closed a) marked) (pos 0) nothing nothing
  unfolding release_auction
  unsold-Shift z =
      let sends = notify_auction_closed-OnlySends a.seller_id a.auction_id marked in
      rw z (Shift-files (ap (λ v. v.users) sends) (ap (λ v. v.auctions) sends) marked-Shift)

  -- Closing keeps the books and the sum of the balances, on each of its branches.
  close_marked :
      let w' =
        (if not (a.highest_bidder_id == 0) && reserve_met a
          then settle_auction (closed a) marked
          else release_auction (closed a) marked) in
      BooksMatch w' × (total_balance (records w'.users) ≡ total_balance (records w.users))
  close_marked = elim (Bool-cases (a.highest_bidder_id == 0)) [
    | inl unsold ↦
        let z = (==_iff a.highest_bidder_id 0).0 unsold in
        let v = unsold-Shift unsold in
        rw unsold (
          BooksMatch-update_first s a (closed a) m found refl closed_sane (λ i. no_claims a i z) v,
          v.total ∙ +ℤ-zero _,
        )
    | inr sold ↦
        let nz : a.highest_bidder_id ≢ 0 = λ z. ground arith in
        let (p, ep, low, cover, fits) = highest_bidder_covered s m found opened nz in
        elim (Bool-cases (reserve_met a)) [
          | inl met ↦
              let v = settle_auction-Shift nz in
              rw (sold, met)
                (
                  BooksMatch-update_first s a (closed a) m found refl closed_sane
                      (λ i. settle_claims a i opened nz fits) v,
                  v.total ∙ rw (neg_sum a.current_bid) (+ℤ-zero _),
                )
          | inr below ↦
              let v = release_auction-Shift nz in
              rw (sold, below)
                (
                  BooksMatch-update_first s a (closed a) m found refl closed_sane
                      (λ i. release_claims a i opened nz fits) v,
                  v.total ∙ +ℤ-zero _,
                )
        ]
  ]

-- Closing an open auction that was read from its file keeps the books, and no money is created or
-- lost.
pub close_auction_internal-BooksMatch :
    {w : World} {a : Auction} (s : ℕ)
    → BooksMatch w
    → read_at w.auctions s ≡ some a
    → is_open a.status ≡ true
    → let w' = close_auction_internal a w in
      BooksMatch w' × (total_balance (records w'.users) ≡ total_balance (records w.users))
unfolding close_auction_internal
close_auction_internal-BooksMatch {w} {a} s m found opened =
    let wrote =
      write_back auction_key zero_auction w.auctions s (closed a) {old = a} m.auctions_ready.keyed
        found refl m.auctions_ready.writable in
    rw wrote (close_marked m s found opened)
