-- ===== src/Doubles/Books.antt =====
-- What the requests that bring a `double` do to the books.
use online_auction_system.Base.{
  ℕ, ◌+◌, ◌^◌, ◌<◌, ◌≤◌, ◌≡◌, ◌⊎◌, refl, true, false, Option, none, some, arith, ltb, ◌||◌, ◌&&◌,
  length, Bool-cases, Option-cases, inl, inr,
}
use online_auction_system.Base.Money.{ℤ, pos, ◌-ℤ◌}
use online_auction_system.Models.{Amount, User, Auction, ErrorCode}
use online_auction_system.Store.{records}
use online_auction_system.World.{World}
use online_auction_system.World.FileIo.{read_auction, read_user}
use online_auction_system.BidHandler.{is_open, refuse_bid}
use online_auction_system.Ledger.{BooksMatch}
use online_auction_system.Ledger.Update.{BooksMatch-files}
use online_auction_system.Ledger.Bid.{accept_bid-BooksMatch}
use online_auction_system.Ledger.Entry.{
  Deposited, handle_deposit-BooksMatch, handle_create_auction-BooksMatch,
}
use online_auction_system.Doubles.{
  Double, number, nan, plus_infinity, minus_infinity, is_number, at_most, PlaceBidMessage, above,
  written, peek_message, locked_message, place_bid_message, deposit_message, CreateAuctionMessage,
  sold_message, create_auction_message,
}

nothing : {A : Type 0} {x : A} → some x ≡ none → ⊥
nothing e = cc

-- What holds of an outcome: `P` of a new state, and `B` where the model ends.
abbrev pub Outcome : {A : Type 0} → (A → Type 0) → Type 0 → Option A → Type 0
Outcome P B none = B
Outcome P B (some x) = P x

module _ (P : Option World → Type 0) (fd : ℤ) (m : PlaceBidMessage) (bidder : User) (w : World)
    (refused : (code : ErrorCode) → P (some (refuse_bid fd code w))) where
  -- The guards that a bid under the semaphore has passed.
  locked_message-cases :
      ((a : Auction)
        → read_auction m.auction_id w ≡ some a
        → is_open a.status ≡ true
        → at_most m.amount a.current_bid ≡ false
        → P (written fd m bidder a w))
      → P (locked_message fd m bidder w)
  unfolding locked_message
  locked_message-cases accepted = elim (Option-cases (read_auction m.auction_id w)) [
    | inl absent ↦ rw (absent, locked_message) (refused _)
    | inr (a, found) ↦ elim (Bool-cases (is_open a.status)) [
      | inr shut ↦ rw (found, shut, locked_message) (refused _)
      | inl opened ↦ elim (Bool-cases (at_most m.amount a.current_bid)) [
        | inl low ↦ rw (found, opened, low, locked_message) (refused _)
        | inr high ↦ rw (found, opened, high, locked_message) (accepted a found opened high)
      ]
    ]
  ]

-- A bid that passes the checks before the semaphore is not above what the bidder has.
peek_message-none :
    (m : PlaceBidMessage) (bidder : User) (w : World)
    → peek_message m bidder w ≡ none
    → (u : User) × (read_user bidder.user_id w ≡ some u)
      × (above m.amount (u.wallet_balance -ℤ u.wallet_hold) ≡ false)
unfolding peek_message
peek_message-none m bidder w h = elim (Option-cases (read_auction m.auction_id w)) [
  | inl absent ↦ absurd (nothing (rw (peek_message, absent) at h))
  | inr (a, there) ↦ elim (Bool-cases (is_open a.status)) [
    | inr shut ↦ absurd (nothing (rw (peek_message, there, shut) at h))
    | inl opened ↦ elim (Option-cases (read_user bidder.user_id w)) [
      | inl stranger ↦ absurd (nothing (rw (peek_message, there, opened, stranger) at h))
      | inr (u, known) ↦ elim (Bool-cases (above m.amount (u.wallet_balance -ℤ u.wallet_hold))) [
        | inl poor ↦ absurd (nothing (rw (peek_message, there, opened, known, poor) at h))
        | inr enough ↦ (u, known, enough)
      ]
    ]
  ]
]

-- What is written down for a bid that has passed all guards.
written-BooksMatch :
    (fd : ℤ) (auction_id : ℕ) (d : Double) (bidder : User) {w : World} {a : Auction} {u : User}
    → bidder.user_id < 2 ^ 32
    → BooksMatch w
    → read_user bidder.user_id w ≡ some u
    → above d (u.wallet_balance -ℤ u.wallet_hold) ≡ false
    → read_auction auction_id w ≡ some a
    → is_open a.status ≡ true
    → at_most d a.current_bid ≡ false
    → Outcome BooksMatch
        (d ≡ nan)
        (written fd (record { auction_id = auction_id; amount = d }) bidder a w)
written-BooksMatch fd id (number x) bidder small books known enough found opened high =
    accept_bid-BooksMatch books fd (record { auction_id = id; amount = x }) bidder found opened
      known small (ground arith) (ground arith)
written-BooksMatch fd id nan bidder small books known enough found opened high = refl
written-BooksMatch fd id plus_infinity bidder small books known enough found opened high = absurd cc
written-BooksMatch fd id minus_infinity bidder small books known enough found opened high =
    absurd cc

-- Whatever amount is sent, NaN and the infinities included, a request to bid of a bidder whose id is
-- below 2^32 keeps the books where they match; only NaN can be taken without being a number.
pub place_bid_message-BooksMatch :
    (fd : ℤ) (m : PlaceBidMessage) (bidder : User) (w : World)
    → bidder.user_id < 2 ^ 32
    → BooksMatch w
    → Outcome BooksMatch (m.amount ≡ nan) (place_bid_message fd m bidder w)
unfolding place_bid_message
place_bid_message-BooksMatch fd m bidder w small books =
    elim (Option-cases (peek_message m bidder w)) [
      | inr (code, e) ↦ rw (e, place_bid_message) (BooksMatch-files refl refl books)
      | inl clear ↦
          let (u, known, enough) = peek_message-none m bidder w clear in
          rw (clear, place_bid_message)
            (locked_message-cases (Outcome BooksMatch (m.amount ≡ nan)) fd m bidder w
              (λ code. BooksMatch-files refl refl books)
              λ a found opened high.
                written-BooksMatch fd m.auction_id m.amount bidder small books known enough found
                  opened high)
    ]

-- What an accepted deposit of a number does.
pub Paid : Double → User → World → World → Type 0
Paid d u w w' =
    (w'.users ≡ w.users)
    ⊎ ((x : Amount) × (d ≡ number x) × Deposited (record { amount = x }) u w w')

-- Whatever amount is sent, a request to deposit keeps the books where they match, and users.dat as it
-- is, or the amount is a positive number, the sum of all balances grows by it, and users.dat differs by
-- it in the balance of the user who asks; only NaN and plus infinity can be taken without being a
-- number.
pub deposit_message-BooksMatch :
    (fd : ℤ) (d : Double) (u : User) {w : World}
    → BooksMatch w
    → Outcome
        (λ r. BooksMatch r.0 × Paid d u w r.0)
        ((d ≡ nan) ⊎ (d ≡ plus_infinity))
        (deposit_message fd d u w)
unfolding deposit_message Paid
deposit_message-BooksMatch fd (number x) u books =
    let h = handle_deposit-BooksMatch fd (record { amount = x }) u books in
    (h.0, inr (x, refl, h.1))
deposit_message-BooksMatch fd nan u books = inl refl
deposit_message-BooksMatch fd plus_infinity u books = inr refl
deposit_message-BooksMatch fd minus_infinity u books = (BooksMatch-files refl refl books, inl refl)

module _ (fd : ℤ) (m : CreateAuctionMessage) (seller : User) {w : World} (books : BooksMatch w)
    (small : length (records w.auctions) + 1 < 2 ^ 32) (low : 1 ≤ seller.user_id)
    (high : seller.user_id ≤ length (records w.users)) where
  sold_message-BooksMatch :
      (start reserve : Double)
      → Outcome
          (λ w'. BooksMatch w' × (w'.users ≡ w.users))
          (is_number start && is_number reserve ≡ false)
          (sold_message fd m start reserve seller w)
  sold_message-BooksMatch (number x) (number y) =
      handle_create_auction-BooksMatch fd _ seller books small low high
  sold_message-BooksMatch (number x) nan = refl
  sold_message-BooksMatch (number x) plus_infinity = refl
  sold_message-BooksMatch (number x) minus_infinity = refl
  sold_message-BooksMatch nan _ = refl
  sold_message-BooksMatch plus_infinity _ = refl
  sold_message-BooksMatch minus_infinity _ = refl

-- Whatever prices are sent, a request to create an auction keeps the books where they match and leaves
-- every wallet alone, if the seller is one of the users and ids have not run out; only with a price
-- that is no number can an auction be taken that leaves the model.
pub create_auction_message-BooksMatch :
    (fd : ℤ) (m : CreateAuctionMessage) (seller : User) {w : World}
    → BooksMatch w
    → length (records w.auctions) + 1 < 2 ^ 32
    → 1 ≤ seller.user_id
    → seller.user_id ≤ length (records w.users)
    → Outcome
        (λ w'. BooksMatch w' × (w'.users ≡ w.users))
        (is_number m.start_price && is_number m.reserve_price ≡ false)
        (create_auction_message fd m seller w)
unfolding create_auction_message
create_auction_message-BooksMatch fd m seller books small low high =
    elim (Bool-cases (at_most m.start_price (pos 0) || ltb m.duration_seconds 10)) [
      | inl bad ↦ rw (bad, create_auction_message) (BooksMatch-files refl refl books, refl)
      | inr good ↦
          rw (good, create_auction_message)
            (sold_message-BooksMatch fd m seller books small low high m.start_price m.reserve_price)
    ]
