-- ===== src/Ledger/Entry.antt =====
-- Money and auctions that enter the system: a deposit (server/wallet.c) adds its amount to one
-- balance, and a new auction (server/auction_engine.c) claims nothing.
use online_auction_system.Base.{
  ℕ, suc, ◌+◌, ◌^◌, ◌<◌, ◌≤◌, ◌≡◌, refl, none, some, true, false, arith, ◌∙◌, ap, sym, Option-cases,
  Bool-cases, inl, inr, ◌||◌, ltb, ◌⊎◌, length, All-append, [], ◌∷◌,
}
use online_auction_system.Base.Money.{ℤ, pos, ◌+ℤ◌, ◌≤ℤ◌, leb_ℤ, money_laws, +ℤ-zero}
use online_auction_system.Models.{Amount, User, Auction, zero_auction}
use online_auction_system.Store.{records, slot_of, replaced}
use online_auction_system.Store.Laws.{write_at-next_id, append-IsKeyed}
use online_auction_system.World.{World}
use online_auction_system.World.FileIo.{read_user, write_auction, next_auction_id}
use online_auction_system.Wallet.{DepositPayload, handle_deposit, credit_wallet, apply_wallet_delta}
use online_auction_system.Store.Laws.{All-read_at}
use online_auction_system.Wallet.Sound.{IsSoundUser}
use online_auction_system.Wallet.Frame.{credit_wallet-SameElsewhere}
use online_auction_system.Wallet.Effect.{credit_wallet_lem, moved}
use online_auction_system.AuctionEngine.{CreateAuctionPayload, new_auction, handle_create_auction}
use online_auction_system.Ledger.{auction_key, claim_on, IsSaneAuction, BooksMatch, total_balance}
use online_auction_system.Ledger.Sums.{held-append}
use online_auction_system.Ledger.Shift.{Shift, only, credit_wallet-Shift}
use online_auction_system.Ledger.Update.{BooksMatch-files}

-- A change of balances that leaves the holds alone keeps the books.
pub BooksMatch-balances :
    {w w' : World} {t : Amount} {b : ℕ → Amount} (k : ℕ)
    → BooksMatch w
    → Shift w w' t b (only k (pos 0))
    → BooksMatch w'
BooksMatch-balances {w} k m v = record {
  users_ready = v.ready;
  auctions_ready = record {
    keyed = rw v.same_auctions m.auctions_ready.keyed;
    writable = rw v.same_auctions m.auctions_ready.writable;
  };
  sound = v.sound;
  sane = rw (v.size, v.same_auctions) m.sane;
  holds = λ i u' e.
      let (u, e0, _, h) = v.back i u' e in
      h ∙ ground (arith, m.holds i u e0, v.same_auctions, +ℤ-zero u.wallet_hold);
}

credit_wallet-absent :
    (k : ℕ) (a : Amount) (w : World)
    → read_user k w ≡ none
    → (credit_wallet k a w).0.users ≡ w.users
unfolding credit_wallet apply_wallet_delta
credit_wallet-absent k a w absent = rw (absent, credit_wallet, apply_wallet_delta) refl

-- An accepted deposit keeps the books, and adds its amount to the sum of all balances.
accepted_deposit :
    (k : ℕ) (a : Amount) {w : World}
    → BooksMatch w
    → pos 0 ≤ℤ a
    → (credit_wallet k a w).1 ≡ true
    → BooksMatch (credit_wallet k a w).0
      × (total_balance (records (credit_wallet k a w).0.users)
          ≡ total_balance (records w.users) +ℤ a)
      × (v : User) × (read_user k w ≡ some v)
      × ((credit_wallet k a w).0.users ≡ replaced w.users (slot_of k) (moved v a (pos 0)))
unfolding credit_wallet apply_wallet_delta
accepted_deposit k a {w} m p ok = elim (Option-cases (read_user k w)) [
  | inl absent ↦ absurd (ground arith)
  | inr (u, found) ↦
      let v = credit_wallet-Shift m.users_ready m.sound k found a p in
      let s = All-read_at IsSoundUser w.users (slot_of k) m.sound found in
      let e = credit_wallet_lem m.users_ready k found a s (omega money_laws) in
      (BooksMatch-balances k m v, v.total, u, found, ap (λ r. r.0.users) e)
]

refused_deposit :
    (k : ℕ) (a : Amount) {w : World}
    → BooksMatch w
    → pos 0 ≤ℤ a
    → (credit_wallet k a w).1 ≡ false
    → (credit_wallet k a w).0.users ≡ w.users
refused_deposit k a {w} m p failed = elim (Option-cases (read_user k w)) [
  | inl absent ↦ credit_wallet-absent k a w absent
  | inr (u, found) ↦
      let s = All-read_at IsSoundUser w.users (slot_of k) m.sound found in
      let e = credit_wallet_lem m.users_ready k found a s (omega money_laws) in
      absurd (ground (arith, e))
]

unclaimed : (a : Auction) (i : ℕ) → a.highest_bidder_id ≡ 0 → claim_on (suc i) a ≡ pos 0
unclaimed a i z = ground arith

-- The books with one more auction, which nobody has bid on.
BooksMatch-new :
    {w : World} (a : Auction)
    → BooksMatch w
    → length (records w.auctions) + 1 < 2 ^ 32
    → a.auction_id ≡ next_auction_id w
    → a.highest_bidder_id ≡ 0
    → IsSaneAuction (length (records w.users)) a
    → BooksMatch (write_auction a w).0
BooksMatch-new {w} a m small id z sane =
    let wrote =
      write_at-next_id auction_key zero_auction w.auctions a small id m.auctions_ready.writable in
    rw wrote (record {
      users_ready = record { keyed = m.users_ready.keyed; writable = m.users_ready.writable };
      auctions_ready = record {
        keyed =
            append-IsKeyed auction_key zero_auction w.auctions a m.auctions_ready.keyed small id;
        writable = m.auctions_ready.writable;
      };
      sound = m.sound;
      sane =
          All-append (IsSaneAuction (length (records w.users))) (records w.auctions) (a ∷ []) m.sane
            (sane, tt);
      holds = λ i u e.
          m.holds i u e
          ∙ sym (held-append (suc i) (records w.auctions) a ∙ rw (unclaimed a i z) (+ℤ-zero _));
    })

-- A request to create an auction keeps the books and leaves every wallet alone, if the seller is one
-- of the users and ids have not run out.
pub handle_create_auction-BooksMatch :
    (fd : ℤ) (req : CreateAuctionPayload) (seller : User) {w : World}
    → BooksMatch w
    → length (records w.auctions) + 1 < 2 ^ 32
    → 1 ≤ seller.user_id
    → seller.user_id ≤ length (records w.users)
    → let w' = handle_create_auction fd req seller w in BooksMatch w' × (w'.users ≡ w.users)
unfolding handle_create_auction
handle_create_auction-BooksMatch fd req seller {w} m small low high =
    elim (Bool-cases (leb_ℤ req.start_price (pos 0) || ltb req.duration_seconds 10)) [
      | inl bad ↦ rw (bad, handle_create_auction) (BooksMatch-files refl refl m, refl)
      | inr good ↦
          let a = new_auction req seller w in
          let m' = BooksMatch-new a m small refl refl (ground arith, omega arith, low, high) in
          elim (Bool-cases (write_auction a w).1) [
            | inl ok ↦ rw (good, ok, handle_create_auction) (BooksMatch-files refl refl m', refl)
            | inr failed ↦
                rw (good, failed, handle_create_auction) (BooksMatch-files refl refl m', refl)
          ]
    ]

-- What a request to deposit does to the money: it is refused and nothing changes, or its positive
-- amount is added to the balance of the user who asks, and to no other.
pub Deposited : DepositPayload → User → World → World → Type 0
Deposited req u w w' =
    (w'.users ≡ w.users)
    ⊎ ((pos 1 ≤ℤ req.amount)
        × (total_balance (records w'.users) ≡ total_balance (records w.users) +ℤ req.amount)
        × (v : User) × (read_user u.user_id w ≡ some v)
        × (w'.users ≡ replaced w.users (slot_of u.user_id) (moved v req.amount (pos 0))))

-- A request to deposit a number keeps the books; and users.dat stays as it is, or the amount asked for
-- is positive, the sum of all balances grows by it, and users.dat differs by it in the balance of the
-- user who asks.
pub handle_deposit-BooksMatch :
    (fd : ℤ) (req : DepositPayload) (u : User) {w : World}
    → BooksMatch w
    → let w' = (handle_deposit fd req u w).0 in BooksMatch w' × Deposited req u w w'
unfolding handle_deposit Deposited
handle_deposit-BooksMatch fd req u {w} m = elim (Bool-cases (leb_ℤ req.amount (pos 0))) [
  | inl bad ↦ rw (bad, handle_deposit) (BooksMatch-files refl refl m, inl refl)
  | inr good ↦ elim (Bool-cases (credit_wallet u.user_id req.amount w).1) [
    | inl ok ↦
        let (m', total, v, there, wrote) =
          accepted_deposit u.user_id req.amount m (ground arith) ok in
        rw (good, ok, handle_deposit)
          (elim (Option-cases (read_user u.user_id (credit_wallet u.user_id req.amount w).0)) [
            | inl gone ↦
                rw (gone, handle_deposit)
                  (BooksMatch-files refl refl m', inr (ground arith, total, v, there, wrote))
            | inr (v', e) ↦
                rw (e, handle_deposit)
                  (BooksMatch-files refl refl m', inr (ground arith, total, v, there, wrote))
          ])
    | inr failed ↦
        let k = refused_deposit u.user_id req.amount m (ground arith) failed in
        rw (good, failed, handle_deposit)
          (
            BooksMatch-files k
                (ap (λ v. v.auctions) (credit_wallet-SameElsewhere u.user_id req.amount w)) m,
            inl k,
          )
  ]
]
