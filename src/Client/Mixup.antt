-- ===== src/Client/Mixup.antt =====
-- A notification that is on its way when client/client.c sends a bid: the program takes the first
-- message that arrives for the answer.
use online_auction_system.Base.{
  ℕ, ◌-◌, ◌≡◌, ◌∙◌, refl, ap, Option, some, List, ◌∷◌, Bool-cases, inl, inr, ◌==◌, length,
}
use online_auction_system.Base.Money.{ℤ, pos, ◌≤ℤ◌}
use online_auction_system.Base.Bytes.{Bytes}
use online_auction_system.Hash.{fgets}
use online_auction_system.Models.{
  User, Amount, ErrorCode, err_ok, notify_outbid_msg, place_bid_resp,
}
use online_auction_system.World.{World, Message, no_payload, outbid_payload}
use online_auction_system.Notify.{lookup_fd, notify_outbid, send_msg}
use online_auction_system.Auth.Reach.{push_found}
use online_auction_system.BidHandler.{PlaceBidPayload, place_bid_peek, handle_place_bid}
use online_auction_system.Client.{
  Platform, Sent, Reply, Notice, Terminal, read_line, read_int, read_double, exchange,
}
use online_auction_system.Client.Agree.{reply_of}
use online_auction_system.Client.Bidder.{bidder_place_bid}

-- Reading a line touches only the keyboard.
read_line-stdin :
    (size : ℕ) (buf : Bytes) (t : Terminal)
    → (read_line size buf t).1 ≡ record t { stdin = (read_line size buf t).1.stdin }
unfolding read_line
read_line-stdin size buf t = elim (Bool-cases (length (fgets (size - 1) t.stdin) == 0)) [
  | inl ended ↦ rw (ended, read_line) refl
  | inr read ↦ rw (read, read_line) refl
]

exchange-first :
    (s : Sent) (t : Terminal) {r : Reply} {rest : List (Option Reply)}
    → t.arriving ≡ some r ∷ rest
    → exchange s t ≡ (record t { sent = s ∷ t.sent; arriving = rest }, some r)
exchange-first s t there = rw there refl

-- The program prints what the first message says, and leaves the others to be read.
bidder_place_bid-first :
    (p : Platform) (t : Terminal) {r : Reply} {rest : List (Option Reply)}
    → t.arriving ≡ some r ∷ rest
    → r.status ≡ err_ok
    → ((bidder_place_bid p t).shown ≡ Notice.bid_placed ∷ t.shown)
      × ((bidder_place_bid p t).arriving ≡ rest)
unfolding bidder_place_bid read_int read_double
bidder_place_bid-first p t {r} {rest} there ok =
    let t1 = (read_int p t).1 in
    let e1 = read_line-stdin 32 (p.stack 32) t in
    let t2 = (read_double p t1).1 in
    let e2 = read_line-stdin 64 (p.stack 64) t1 in
    let waits : t2.arriving ≡ some r ∷ rest =
      ap (λ v. v.arriving) e2 ∙ ap (λ v. v.arriving) e1 ∙ there in
    let unprinted : t2.shown ≡ t.shown = ap (λ v. v.shown) e2 ∙ ap (λ v. v.shown) e1 in
    rw (exchange-first _ t2 waits, ok) (ap (λ q. Notice.bid_placed ∷ q) unprinted, refl)

abbrev pub outbid : ℤ → ℕ → Amount → Message
outbid fd auction_id new_highest_bid = record {
  fd = fd;
  type = notify_outbid_msg;
  status = err_ok;
  payload = outbid_payload auction_id new_highest_bid;
}

abbrev pub refusal : ℤ → ErrorCode → Message
refusal fd code = record { fd = fd; type = place_bid_resp; status = code; payload = no_payload }

refused_bid_sent :
    (fd : ℤ) (req : PlaceBidPayload) (bidder : User) (w : World) {code : ErrorCode}
    → place_bid_peek req bidder w ≡ some code
    → (handle_place_bid fd req bidder w).sent ≡ refusal fd code ∷ w.sent
unfolding handle_place_bid
refused_bid_sent fd req bidder w e = rw (e, handle_place_bid) refl

-- The server sends a notification to a client, and then refuses the bid that this client has sent. If
-- the client reads both messages after it has sent the bid, it says that the bid was placed, and the
-- refusal is left for the next request to take for its answer.
pub notification_taken_for_answer :
    (p : Platform) (t : Terminal) (rest : List (Option Reply)) (k auction_id : ℕ) (amount : Amount)
    (fd : ℤ) (req : PlaceBidPayload) (bidder : User) (w : World) {code : ErrorCode}
    → pos 0 ≤ℤ fd
    → lookup_fd k w.registry ≡ fd
    → place_bid_peek req bidder w ≡ some code
    → t.arriving
      ≡ some (reply_of (outbid fd auction_id amount)) ∷ (some (reply_of (refusal fd code)) ∷ rest)
    → ((handle_place_bid fd req bidder (notify_outbid k auction_id amount w)).sent
        ≡ refusal fd code ∷ (outbid fd auction_id amount ∷ w.sent))
      × ((bidder_place_bid p t).shown ≡ Notice.bid_placed ∷ t.shown)
      × ((bidder_place_bid p t).arriving ≡ some (reply_of (refusal fd code)) ∷ rest)
unfolding notify_outbid place_bid_peek
notification_taken_for_answer p t rest k auction_id amount fd req bidder w socket known refused
      there =
    let first = bidder_place_bid-first p t there refl in
    let pushed =
      push_found k fd notify_outbid_msg (outbid_payload auction_id amount) w socket known in
    let note = outbid_payload auction_id amount in
    (
      rw pushed
          (refused_bid_sent fd req bidder (send_msg fd notify_outbid_msg err_ok note w) refused),
      first.0,
      first.1,
    )
