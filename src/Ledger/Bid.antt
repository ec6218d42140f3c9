-- ===== src/Ledger/Bid.antt =====
-- Placing a bid (server/bid_handler.c) keeps the books: the hold of the outbid user is released and
-- that of the new highest bidder taken, as the auction changes hands.
use online_auction_system.Base.{
  ℕ, suc, ◌^◌, ◌≡◌, refl, some, true, not, arith, ◌==◌, ◌≤◌, ◌<◌, ◌≢◌, Bool-cases, inl, inr, length,
  All-get, ◌&&◌, ap, ◌∙◌, ==_iff,
}
use online_auction_system.Base.Money.{ℤ, pos, neg, ◌+ℤ◌, ◌-ℤ◌, ◌≤ℤ◌, ◌<ℤ◌, money_laws}
use online_auction_system.Models.{Amount, User, Auction, zero_auction}
use online_auction_system.Store.{records, read_at, slot_of, replaced}
use online_auction_system.Store.Laws.{read_at-some, read_at-id, read_at-get, write_back}
use online_auction_system.World.{World}
use online_auction_system.World.FileIo.{read_user, read_auction, write_auction}
use online_auction_system.Notify.Frame.{notify_outbid-OnlySends}
use online_auction_system.Wallet.Frame.{place_hold-SameElsewhere, release_hold-SameElsewhere}
use online_auction_system.Wallet.{place_hold, release_hold}
use online_auction_system.Wallet.Effect.{UsersReady, user_key}
use online_auction_system.BidHandler.{
  is_open, PlaceBidPayload, move_holds, with_bid, accept_bid, handle_place_bid,
}
use online_auction_system.BidHandler.Cases.{handle_place_bid-cases}
use online_auction_system.Ledger.{auction_key, claim_on, IsSaneAuction, BooksMatch}
use online_auction_system.Ledger.Sums.{claim_on-le-held}
use online_auction_system.Ledger.Shift.{only, Shift-trans, place_hold-Shift, release_hold-Shift}
use online_auction_system.Ledger.Update.{BooksMatch-update, BooksMatch-files}

-- What the holds move by when user `b` bids `m` on an open auction without a bid.
first_bid_claims :
    (req : PlaceBidPayload) (bidder : User) (a : Auction) (i : ℕ)
    → is_open a.status ≡ true
    → a.highest_bidder_id ≡ 0
    → bidder.user_id ≢ 0
    → bidder.user_id < 2 ^ 32
    → only bidder.user_id req.amount i +ℤ claim_on (suc i) a
      ≡ claim_on (suc i) (with_bid req bidder a)
unfolding ◌+ℤ◌
first_bid_claims req bidder a i o z nz small = ground arith

-- The same where the bid beats another.
next_bid_claims :
    (req : PlaceBidPayload) (bidder : User) (a : Auction) (i : ℕ)
    → is_open a.status ≡ true
    → a.highest_bidder_id ≢ 0
    → a.highest_bidder_id < 2 ^ 32
    → bidder.user_id ≢ 0
    → bidder.user_id < 2 ^ 32
    → only a.highest_bidder_id (neg a.current_bid) i
        +ℤ only bidder.user_id req.amount i
        +ℤ claim_on (suc i) a
      ≡ claim_on (suc i) (with_bid req bidder a)
unfolding ◌+ℤ◌ neg
next_bid_claims req bidder a i o z zs nz small = ground arith

-- An `uint32_t` id whose record can be read is the number of an existing user.
pub known_id :
    {w : World} (k : ℕ) {u : User}
    → UsersReady w
    → k < 2 ^ 32
    → read_user k w ≡ some u
    → (k ≢ 0) × (k ≤ length (records w.users))
known_id {w} k ready small found =
    let p = read_at-id user_key w.users (slot_of k) ready.keyed found in
    (λ e. omega arith, omega arith)

-- The open auction's price is part of its highest bidder's hold.
pub highest_bidder_covered :
    {w : World} {a : Auction} (s : ℕ)
    → BooksMatch w
    → read_at w.auctions s ≡ some a
    → is_open a.status ≡ true
    → a.highest_bidder_id ≢ 0
    → (p : User) × (read_user a.highest_bidder_id w ≡ some p)
      × (pos 0 ≤ℤ a.current_bid)
      × (a.current_bid ≤ℤ p.wallet_hold)
      × (a.highest_bidder_id < 2 ^ 32)
highest_bidder_covered {w} {a} s m found opened nz =
    let n = length (records w.users) in
    let get = read_at-get w.auctions s found in
    let sane = All-get (IsSaneAuction n) (records w.auctions) s m.sane get in
    let fits = m.users_ready.keyed.1 in
    let (p, e) = read_at-some w.users (slot_of a.highest_bidder_id) (omega arith) in
    let part =
      claim_on-le-held (suc (slot_of a.highest_bidder_id)) n (records w.auctions) s m.sane get in
    let hold = m.holds (slot_of a.highest_bidder_id) p e in
    (p, e, sane.0, rw hold (ground (arith, part)), omega arith)

-- Releasing part of a hold leaves at least as much available.
still_enough :
    (x c bal hold bal' hold' : Amount) (i k : ℕ)
    → pos 0 ≤ℤ c
    → bal' ≡ bal +ℤ only k (pos 0) i
    → hold' ≡ hold +ℤ only k (neg c) i
    → x ≤ℤ bal -ℤ hold
    → x ≤ℤ bal' -ℤ hold'
still_enough x c bal hold bal' hold' i k p eb eh enough =
    rw (eb, eh)
      (elim (Bool-cases (i == slot_of k)) [
        | inl same ↦ rw same (omega money_laws)
        | inr other ↦ rw other (omega money_laws)
      ])

module _ {w : World} (m : BooksMatch w) (req : PlaceBidPayload) (bidder : User) (s : ℕ)
    {a : Auction} {u : User} (found : read_at w.auctions s ≡ some a)
    (opened : is_open a.status ≡ true) (known : read_user bidder.user_id w ≡ some u)
    (small : bidder.user_id < 2 ^ 32) (beats : a.current_bid <ℤ req.amount)
    (enough : req.amount ≤ℤ u.wallet_balance -ℤ u.wallet_hold) where
  bid_sane : IsSaneAuction (length (records w.users)) (with_bid req bidder a)
  bid_sane =
      let old =
        All-get (IsSaneAuction (length (records w.users))) (records w.auctions) s m.sane
          (read_at-get w.auctions s found) in
      let id = known_id bidder.user_id m.users_ready small known in
      (omega arith, id.1, old.2, old.3)

  first_bid-BooksMatch :
      a.highest_bidder_id ≡ 0
      → let w' = (place_hold bidder.user_id req.amount w).0 in
        BooksMatch (record w' { auctions = replaced w'.auctions s (with_bid req bidder a) })
  first_bid-BooksMatch z =
      let id = known_id bidder.user_id m.users_ready small known in
      let sane = bid_sane in
      BooksMatch-update s a (with_bid req bidder a) m
        (place_hold-Shift m.users_ready m.sound bidder.user_id known req.amount (omega arith)
          enough)
        found refl sane (λ i. first_bid_claims req bidder a i opened z id.0 small)

  next_bid-BooksMatch :
      a.highest_bidder_id ≢ 0
      → let w1 = (release_hold a.highest_bidder_id a.current_bid w).0 in
        let w' = (place_hold bidder.user_id req.amount w1).0 in
        BooksMatch (record w' { auctions = replaced w'.auctions s (with_bid req bidder a) })
  next_bid-BooksMatch nz =
      let id = known_id bidder.user_id m.users_ready small known in
      let (p, ep, low, cover, fits) = highest_bidder_covered s m found opened nz in
      let sh1 =
        release_hold-Shift m.users_ready m.sound a.highest_bidder_id ep a.current_bid low cover in
      let there = read_at-id user_key w.users (slot_of bidder.user_id) m.users_ready.keyed known in
      let w1 = (release_hold a.highest_bidder_id a.current_bid w).0 in
      let (b, eb) = read_at-some w1.users (slot_of bidder.user_id) (rw sh1.size there.1) in
      let (b0, e0, bal, hold) = sh1.back (slot_of bidder.user_id) b eb in
      let same : b0 ≡ u = cc in
      let enough' =
        still_enough req.amount a.current_bid u.wallet_balance u.wallet_hold b.wallet_balance
          b.wallet_hold (slot_of bidder.user_id) a.highest_bidder_id low (rw same at bal)
          (rw same at hold) enough in
      let sane = bid_sane in
      BooksMatch-update s a (with_bid req bidder a) m
        (Shift-trans sh1
          (place_hold-Shift sh1.ready sh1.sound bidder.user_id eb req.amount (omega arith) enough'))
        found refl sane (λ i. next_bid_claims req bidder a i opened nz fits id.0 small)

-- `accept_bid` leaves users.dat as `move_holds` does, and writes one auction.
pub accept_bid-files :
    (fd : ℤ) (req : PlaceBidPayload) (bidder : User) (a : Auction) (w : World)
    → let w1 = move_holds req bidder a w in
      ((accept_bid fd req bidder a w).users ≡ w1.users)
      × ((accept_bid fd req bidder a w).auctions
          ≡ (write_auction (with_bid req bidder a) w1).0.auctions)
unfolding accept_bid
accept_bid-files fd req bidder a w =
    elim (Bool-cases
      (not (a.highest_bidder_id == 0) && not (a.highest_bidder_id == bidder.user_id))) [
        | inl outbid ↦
            let sends = notify_outbid-OnlySends a.highest_bidder_id req.auction_id req.amount _ in
            rw outbid (ap (λ v. v.users) sends, ap (λ v. v.auctions) sends)
        | inr quiet ↦ rw quiet (refl, refl)
      ]

module _ {w : World} (m : BooksMatch w) (fd : ℤ) (req : PlaceBidPayload) (bidder : User)
    {a : Auction} {u : User} (found : read_auction req.auction_id w ≡ some a)
    (opened : is_open a.status ≡ true) (known : read_user bidder.user_id w ≡ some u)
    (small : bidder.user_id < 2 ^ 32) (beats : a.current_bid <ℤ req.amount)
    (enough : req.amount ≤ℤ u.wallet_balance -ℤ u.wallet_hold) where
  move_holds-BooksMatch :
      let w' = move_holds req bidder a w in
      (w'.auctions ≡ w.auctions)
      × BooksMatch (record w' {
        auctions = replaced w'.auctions (slot_of req.auction_id) (with_bid req bidder a);
      })
  unfolding move_holds
  move_holds-BooksMatch = elim (Bool-cases (a.highest_bidder_id == 0)) [
    | inl first ↦
        rw (first, move_holds)
          (
            ap (λ v. v.auctions) (place_hold-SameElsewhere bidder.user_id req.amount w),
            first_bid-BooksMatch m req bidder (slot_of req.auction_id) found opened known small
                beats enough ((==_iff a.highest_bidder_id 0).0 first),
          )
    | inr later ↦
        rw (later, move_holds)
          (
            ap (λ v. v.auctions) (place_hold-SameElsewhere bidder.user_id req.amount _)
                ∙ ap (λ v. v.auctions)
                    (release_hold-SameElsewhere a.highest_bidder_id a.current_bid w),
            next_bid-BooksMatch m req bidder (slot_of req.auction_id) found opened known small beats
                enough (λ z. ground arith),
          )
  ]

  pub accept_bid-BooksMatch : BooksMatch (accept_bid fd req bidder a w)
  accept_bid-BooksMatch =
      let files = accept_bid-files fd req bidder a w in
      let (kept, m') = move_holds-BooksMatch in
      let w1 = move_holds req bidder a w in
      let wrote =
        write_back auction_key zero_auction w1.auctions (slot_of req.auction_id)
          (with_bid req bidder a) {old = a} (rw kept m.auctions_ready.keyed) (rw kept found) refl
          (rw kept m.auctions_ready.writable) in
      BooksMatch-files files.0 (files.1 ∙ ap (λ r. r.0) wrote) m'

-- Whatever is asked, a request to bid keeps the books: every user's hold is still the sum of the
-- user's highest bids on open auctions, and every wallet is sound.
pub handle_place_bid-BooksMatch :
    (fd : ℤ) (req : PlaceBidPayload) (bidder : User) {w : World}
    → bidder.user_id < 2 ^ 32
    → BooksMatch w
    → BooksMatch (handle_place_bid fd req bidder w)
handle_place_bid-BooksMatch fd req bidder {w} small m =
    handle_place_bid-cases BooksMatch fd req bidder w (λ code. BooksMatch-files refl refl m)
      λ a u p.
        accept_bid-BooksMatch m fd req bidder p.locked.found p.locked.opened p.known small
          p.locked.beats p.enough
