-- ===== src/BidHandler/Cases.antt =====
-- How a request to bid (server/bid_handler.c) ends: it is refused with an error code, or the bid is
-- accepted under all its guards.
use online_auction_system.Base.{◌≡◌, some, none, true, arith, Option-cases, Bool-cases, inl, inr}
use online_auction_system.Base.Money.{ℤ, ◌-ℤ◌, ◌≤ℤ◌, ◌<ℤ◌, leb_ℤ}
use online_auction_system.Models.{User, Auction, ErrorCode}
use online_auction_system.World.{World}
use online_auction_system.World.FileIo.{read_user, read_auction}
use online_auction_system.BidHandler.{
  is_open, PlaceBidPayload, refuse_bid, accept_bid, place_bid_locked, place_bid_peek,
  handle_place_bid,
}

-- The guards that a bid has passed under the semaphore.
pub record PassesLocked (req : PlaceBidPayload) (w : World) (a : Auction) : Type 0 where
  pub found : read_auction req.auction_id w ≡ some a
  pub opened : is_open a.status ≡ true
  pub beats : a.current_bid <ℤ req.amount

-- The guards that an accepted bid has passed.
pub record Passes (req : PlaceBidPayload) (bidder : User) (w : World) (a : Auction) (u : User)
    : Type 0 where
  pub locked : PassesLocked req w a
  pub known : read_user bidder.user_id w ≡ some u
  pub enough : req.amount ≤ℤ u.wallet_balance -ℤ u.wallet_hold

-- The checks before the semaphore pass only if the bidder can pay.
place_bid_peek-none :
    (req : PlaceBidPayload) (bidder : User) (w : World)
    → place_bid_peek req bidder w ≡ none
    → (u : User) × (read_user bidder.user_id w ≡ some u)
      × (req.amount ≤ℤ u.wallet_balance -ℤ u.wallet_hold)
unfolding place_bid_peek
place_bid_peek-none req bidder w h = elim (Option-cases (read_user bidder.user_id w)) [
  | inl stranger ↦ absurd (ground arith)
  | inr (u, known) ↦ (u, known, ground arith)
]

module _ {ℓ} (P : World → Type ℓ) (fd : ℤ) (req : PlaceBidPayload) (bidder : User) (w : World)
    (refused : (code : ErrorCode) → P (refuse_bid fd code w)) where
  pub place_bid_locked-cases :
      ((a : Auction) → PassesLocked req w a → P (accept_bid fd req bidder a w))
      → P (place_bid_locked fd req bidder w)
  unfolding place_bid_locked
  place_bid_locked-cases accepted = elim (Option-cases (read_auction req.auction_id w)) [
    | inl absent ↦ rw (absent, place_bid_locked) (refused _)
    | inr (a, found) ↦ elim (Bool-cases (is_open a.status)) [
      | inr shut ↦ rw (found, shut, place_bid_locked) (refused _)
      | inl opened ↦ elim (Bool-cases (leb_ℤ req.amount a.current_bid)) [
        | inl low ↦ rw (found, opened, low, place_bid_locked) (refused _)
        | inr high ↦
            rw (found, opened, high, place_bid_locked)
              (accepted a (record { found = found; opened = opened; beats = ground arith }))
      ]
    ]
  ]

  peek_refused :
      (code : ErrorCode)
      → place_bid_peek req bidder w ≡ some code
      → P (handle_place_bid fd req bidder w)
  unfolding handle_place_bid
  peek_refused code e = rw (e, handle_place_bid) (refused code)

  pub handle_place_bid-cases :
      ((a : Auction) (u : User) → Passes req bidder w a u → P (accept_bid fd req bidder a w))
      → P (handle_place_bid fd req bidder w)
  unfolding handle_place_bid
  handle_place_bid-cases accepted = elim (Option-cases (place_bid_peek req bidder w)) [
    | inr (code, e) ↦ peek_refused code e
    | inl clear ↦
        let (u, known, enough) = place_bid_peek-none req bidder w clear in
        rw (clear, handle_place_bid)
          (place_bid_locked-cases
            λ a p. accepted a u (record { locked = p; known = known; enough = enough }))
  ]
