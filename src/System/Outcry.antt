-- ===== src/System/Outcry.antt =====
-- The bids on an auction, as they pass its semaphore one after the other (server/bid_handler.c),
-- beside an auction at which the highest bid wins. The amounts are sent as a `double`; those of the
-- offers here are numbers.
use online_auction_system.Base.{
  ℕ, ◌≡◌, ◌∙◌, refl, sym, subst, ap, Bool, true, false, Option, none, some, List, [], ◌∷◌, arith,
  ◌==◌, ◌&&◌, if◌then◌else◌, Bool-cases, Option-cases, inl, inr,
}
use online_auction_system.Base.Money.{ℤ, leb_ℤ, ltb_ℤ}
use online_auction_system.Models.{Amount, User, Auction, ErrorCode, err_bid_too_low}
use online_auction_system.Store.{read_at, slot_of}
use online_auction_system.Store.Laws.{read_at-replaced, replaced-IsKeyed}
use online_auction_system.World.{World}
use online_auction_system.World.FileIo.{read_auction}
use online_auction_system.BidHandler.{
  is_open, PlaceBidPayload, with_bid, refuse_bid, accept_bid, place_bid_locked,
}
use online_auction_system.Doubles.{locked_message}
use online_auction_system.Doubles.Numbers.{message_of, locked_message-number}
use online_auction_system.BidHandler.Cases.{place_bid_locked-cases}
use online_auction_system.Ledger.{AuctionsReady, auction_key}
use online_auction_system.System.Bids.{accept_bid-auctions}

-- A bid that has passed the checks before `sem_wait`.
pub record Offer : Type 0 where
  pub client_fd : ℤ
  pub req : PlaceBidPayload
  pub bidder : User

abbrev pub place : Offer → World → World
place o = place_bid_locked o.client_fd o.req o.bidder

-- From `w` to `end` the offers pass the semaphore in this order; in between, anything may happen that
-- leaves auctions.dat as it is.
pub data Bidding (end : World) : List Offer → World → Type 0 where
  over : Bidding end [] end
  next :
      {os : List Offer} {w : World} (o : Offer) (w1 : World)
      → locked_message o.client_fd (message_of o.req) o.bidder w ≡ some w1
      → Bidding end os w1
      → Bidding end (o ∷ os) w
  apart :
      {os : List Offer} {w : World} (w1 : World)
      → w1.auctions ≡ w.auctions
      → Bidding end os w1
      → Bidding end os w

-- The first of two offers, unless the second is higher.
abbrev higher : Offer → Offer → Offer
higher o p = if ltb_ℤ o.req.amount p.req.amount then p else o

-- The highest offer on the auction in record `s`, the earliest one of these.
abbrev pub best : ℕ → List Offer → Option Offer
best s [] = none
best s (o ∷ os) =
    let rest = best s os in
    if slot_of o.req.auction_id == s
    then elim rest [ none ↦ some o | some p ↦ some (higher o p) ]
    else rest

-- Price and highest bidder once an offer, if there is any, has been heard.
abbrev pub hear : Option Offer → Amount × ℕ → Amount × ℕ
hear none held = held
hear (some o) held = if ltb_ℤ held.0 o.req.amount then (o.req.amount, o.bidder.user_id) else held

abbrev pub standing : Auction → Amount × ℕ
standing a = (a.current_bid, a.highest_bidder_id)

-- The auction in record `s` after one offer.
abbrev after : ℕ → Offer → Auction → Auction
after s o a =
    if slot_of o.req.auction_id == s && ltb_ℤ a.current_bid o.req.amount
    then with_bid o.req o.bidder a
    else a

hear-after :
    (s : ℕ) (o : Offer) (os : List Offer) (a : Auction)
    → hear (best s os) (standing (after s o a)) ≡ hear (best s (o ∷ os)) (standing a)
hear-after s o os a = elim (Bool-cases (slot_of o.req.auction_id == s)) [
  | inr other ↦ rw other refl
  | inl here ↦ elim (Option-cases (best s os)) [
    | inl alone ↦ rw (here, alone) (ground arith)
    | inr (p, rest) ↦ rw (here, rest) (ground arith)
  ]
]

-- What is on file for the auction: it is open, and the file is in order.
record Holds (s : ℕ) (a : Auction) (w : World) : Type 0 where
  pub ready : AuctionsReady w
  pub found : read_at w.auctions s ≡ some a

choose_found :
    (here : Bool) (v : Auction) {a : Auction} {found : Option Auction}
    → found ≡ some a
    → (if here then some v else found) ≡ some (if here then v else a)
choose_found true v h = refl
choose_found false v h = h

refused-Holds :
    (s : ℕ) {a : Auction} {w : World} (o : Offer) (code : ErrorCode)
    → Holds s a w
    → Holds s a (refuse_bid o.client_fd code w)
refused-Holds s o code h = record {
  ready = record { keyed = h.ready.keyed; writable = h.ready.writable };
  found = h.found;
}

accept_bid-Holds :
    (s : ℕ) {a b : Auction} {w : World} (o : Offer)
    → Holds s a w
    → read_auction o.req.auction_id w ≡ some b
    → Holds s
        (if s == slot_of o.req.auction_id then with_bid o.req o.bidder b else a)
        (accept_bid o.client_fd o.req o.bidder b w)
accept_bid-Holds s {a} {b} {w} o h there =
    let k = slot_of o.req.auction_id in
    let v = with_bid o.req o.bidder b in
    let wrote = accept_bid-auctions o.req o.bidder b w o.client_fd {old = b} h.ready there refl in
    record {
      ready = record {
        keyed = rw wrote (replaced-IsKeyed auction_key w.auctions k v h.ready.keyed there refl);
        writable = rw wrote h.ready.writable;
      };
      found =
          ap (λ f. read_at f s) wrote
          ∙ read_at-replaced w.auctions k s v there
          ∙ choose_found (s == k) v h.found;
    }

after_open :
    (s : ℕ) (o : Offer) (a : Auction)
    → is_open a.status ≡ true
    → is_open (after s o a).status ≡ true
after_open s o a opened =
    elim (Bool-cases (slot_of o.req.auction_id == s && ltb_ℤ a.current_bid o.req.amount)) [
      | inl raised ↦ rw raised opened
      | inr stays ↦ rw stays opened
    ]

place-Holds :
    (s : ℕ) {a : Auction} {w : World} (o : Offer)
    → Holds s a w
    → is_open a.status ≡ true
    → Holds s (after s o a) (place o w)
unfolding place_bid_locked
place-Holds s {a} {w} o h opened =
    let k = slot_of o.req.auction_id in
    elim (Bool-cases (k == s)) [
      | inr other ↦
          let apart_from : (s == k) ≡ false = ground arith in
          rw other (
            place_bid_locked-cases (Holds s a) o.client_fd o.req o.bidder w
              (λ code. refused-Holds s o code h)
              (λ b p.
                rw⁻¹ (ap (λ c. if c then with_bid o.req o.bidder b else a) apart_from)
                  (accept_bid-Holds s o h p.found)))
      | inl here ↦
          let at : k ≡ s = ground arith in
          let there : read_auction o.req.auction_id w ≡ some a = rw at h.found in
          let same : (s == k) ≡ true = ground arith in
          elim (Bool-cases (leb_ℤ o.req.amount a.current_bid)) [
            | inl low ↦
                let under : ltb_ℤ a.current_bid o.req.amount ≡ false = ground arith in
                rw (there, opened, low, place_bid_locked, here, under)
                  (refused-Holds s o err_bid_too_low h)
            | inr high ↦
                let beats : ltb_ℤ a.current_bid o.req.amount ≡ true = ground arith in
                rw (there, opened, high, place_bid_locked, here, beats)
                  (rw⁻¹ (ap (λ c. if c then with_bid o.req o.bidder a else a) same)
                    (accept_bid-Holds s o h there))
          ]
    ]

the_same : {x y : World} → some x ≡ some y → x ≡ y
the_same e = cc

-- Where the auction in record `s` is on file and open, then after any number of bids, of any bidders
-- and on any auctions, each one of an amount that is a number (not NaN and not infinite), it is still
-- open, and it stands at the highest bid above its price, for the
-- earliest bidder who made it; or as before, if there was no such bid.
pub Bidding-best :
    {end : World} (s : ℕ) {os : List Offer} {w : World} {a : Auction}
    → Bidding end os w
    → AuctionsReady w
    → read_at w.auctions s ≡ some a
    → is_open a.status ≡ true
    → (a' : Auction) × (read_at end.auctions s ≡ some a')
      × (is_open a'.status ≡ true)
      × (standing a' ≡ hear (best s os) (standing a))
Bidding-best s {a = a} over ready found opened = (a, found, opened, refl)
Bidding-best s {w = w} {a = a} (apart w1 same b) ready found opened =
    Bidding-best s {a = a} b
      (record { keyed = rw same ready.keyed; writable = rw same ready.writable }) (rw same found)
      opened
Bidding-best s {w = w} {a = a} (next {os = os} o w1 does b) ready found opened =
    let came : place o w ≡ w1 =
      the_same (sym (locked_message-number o.client_fd o.req o.bidder w) ∙ does) in
    let h : Holds s (after s o a) w1 =
      subst (Holds s (after s o a)) came
        (place-Holds s o (record { ready = ready; found = found }) opened) in
    let (a', found', opened', stands) =
      Bidding-best s b h.ready h.found (after_open s o a opened) in
    (a', found', opened', stands ∙ hear-after s o os a)
