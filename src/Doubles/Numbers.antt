-- ===== src/Doubles/Numbers.antt =====
-- A message to bid whose amount is a number does what the request of server/bid_handler.c does.
use online_auction_system.Base.{◌≡◌, refl, some, Option-cases, Bool-cases, inl, inr}
use online_auction_system.Base.Money.{ℤ, leb_ℤ}
use online_auction_system.Models.{User}
use online_auction_system.World.{World}
use online_auction_system.World.FileIo.{read_auction}
use online_auction_system.BidHandler.{
  is_open, PlaceBidPayload, place_bid_locked, place_bid_peek, handle_place_bid,
}
use online_auction_system.Doubles.{
  PlaceBidMessage, number, peek_message, locked_message, place_bid_message,
}

abbrev pub message_of : PlaceBidPayload → PlaceBidMessage
message_of req = record { auction_id = req.auction_id; amount = number req.amount }

pub locked_message-number :
    (fd : ℤ) (req : PlaceBidPayload) (bidder : User) (w : World)
    → locked_message fd (message_of req) bidder w ≡ some (place_bid_locked fd req bidder w)
unfolding locked_message place_bid_locked
locked_message-number fd req bidder w = elim (Option-cases (read_auction req.auction_id w)) [
  | inl absent ↦ rw (absent, locked_message, place_bid_locked) refl
  | inr (a, found) ↦ elim (Bool-cases (is_open a.status)) [
    | inr shut ↦ rw (found, shut, locked_message, place_bid_locked) refl
    | inl opened ↦ elim (Bool-cases (leb_ℤ req.amount a.current_bid)) [
      | inl low ↦ rw (found, opened, low, locked_message, place_bid_locked) refl
      | inr high ↦ rw (found, opened, high, locked_message, place_bid_locked) refl
    ]
  ]
]

peek_message-number :
    (req : PlaceBidPayload) (bidder : User) (w : World)
    → peek_message (message_of req) bidder w ≡ place_bid_peek req bidder w
unfolding peek_message place_bid_peek
peek_message-number req bidder w = refl

pub place_bid_message-number :
    (fd : ℤ) (req : PlaceBidPayload) (bidder : User) (w : World)
    → place_bid_message fd (message_of req) bidder w ≡ some (handle_place_bid fd req bidder w)
unfolding place_bid_message handle_place_bid
place_bid_message-number fd req bidder w =
    let same = peek_message-number req bidder w in
    elim (Option-cases (place_bid_peek req bidder w)) [
      | inl clear ↦
          rw (same, clear, place_bid_message, handle_place_bid)
            (locked_message-number fd req bidder w)
      | inr (code, e) ↦ rw (same, e, place_bid_message, handle_place_bid) refl
    ]
