-- ===== src/Views.antt =====
-- The requests that list a data file: auctions, own bids (server/bid_handler.c), disputes, feedback
-- (server/dispute.c) and users (server/admin.c).
use online_auction_system.Base.{
  ℕ, ◌≡◌, refl, ap, fun_ext, ◌∙◌, Bool, true, false, ◌&&◌, replicate, some, not, ◌==◌, List, map,
  take, filter,
}
use online_auction_system.Base.Money.{ℤ}
use online_auction_system.Models.{
  User, Auction, AuctionStatus, auction_pending, auction_open, auction_closed, auction_disputed,
  auction_cancelled, Bid, Dispute, DisputeStatus, dispute_open, dispute_resolved, dispute_rejected,
  err_ok, view_auctions_resp, view_my_bids_resp, view_disputes_resp, list_users_resp,
}
use online_auction_system.Store.Scan.{collect-eq-take}
use online_auction_system.World.{
  World, auctions_payload, bids_payload, disputes_payload, users_payload,
}
use online_auction_system.Notify.{send_msg}
use online_auction_system.BidHandler.{is_open, is_listed, handle_view_auctions, handle_view_my_bids}
use online_auction_system.Dispute.{is_pending, handle_view_disputes}
use online_auction_system.Admin.{without_password, handle_list_users}

-- The first `limit` records that pass a test.
abbrev pub first : {A : Type 0} → ℕ → (A → Bool) → List A → List A
first limit p xs = take limit (filter p xs)

module _ (fd : ℤ) (w : World) where
  list_auctions :
      {all : List Auction}
      → w.auctions.contents ≡ some all
      → handle_view_auctions fd w
        ≡ send_msg fd view_auctions_resp err_ok (auctions_payload (first 256 is_listed all)) w
  unfolding handle_view_auctions
  list_auctions {all} e = rw (e, ← collect-eq-take is_listed 256 all) refl

  list_my_bids :
      (u : User) {all : List Bid}
      → w.bids.contents ≡ some all
      → handle_view_my_bids fd u w
        ≡ send_msg fd view_my_bids_resp err_ok
            (bids_payload (first 256 (λ b. b.bidder_id == u.user_id) all))
            w
  unfolding handle_view_my_bids
  list_my_bids u {all} e = rw (e, ← collect-eq-take (λ b. b.bidder_id == u.user_id) 256 all) refl

  list_disputes :
      {all : List Dispute}
      → w.disputes.contents ≡ some all
      → handle_view_disputes fd w
        ≡ send_msg fd view_disputes_resp err_ok
            (disputes_payload (first 128 (λ d. is_pending d.status) all))
            w
  unfolding handle_view_disputes
  list_disputes {all} e = rw (e, ← collect-eq-take (λ d. is_pending d.status) 128 all) refl

  list_users :
      {all : List User}
      → w.users.contents ≡ some all
      → handle_list_users fd w
        ≡ send_msg fd list_users_resp err_ok
            (users_payload (map without_password (first 512 (λ u. not u.is_deleted) all)))
            w
  unfolding handle_list_users
  list_users {all} e = rw (e, ← collect-eq-take (λ u. not u.is_deleted) 512 all) refl

-- The tests as a reader of the data files puts them.
abbrev pub on_sale : Bool → AuctionStatus → Bool
on_sale true status = false
on_sale false auction_pending = false
on_sale false auction_open = true
on_sale false auction_closed = false
on_sale false auction_disputed = false
on_sale false auction_cancelled = false

abbrev pub undecided : DisputeStatus → Bool
undecided dispute_open = true
undecided dispute_resolved = false
undecided dispute_rejected = false

abbrev pub in_use : Bool → Bool
in_use true = false
in_use false = true

-- A user as it is sent, with 64 zeros for the digest.
abbrev pub hide_digest : User → User
hide_digest u = record u { password = replicate 64 0 }

is_listed-on_sale : (a : Auction) → is_listed a ≡ on_sale a.is_deleted a.status
is_listed-on_sale a = go a.is_deleted a.status
  where
    go : (gone : Bool) (s : AuctionStatus) → not gone && is_open s ≡ on_sale gone s
    go true s = refl
    go false auction_pending = refl
    go false auction_open = refl
    go false auction_closed = refl
    go false auction_disputed = refl
    go false auction_cancelled = refl

is_pending-undecided : (s : DisputeStatus) → is_pending s ≡ undecided s
is_pending-undecided dispute_open = refl
is_pending-undecided dispute_resolved = refl
is_pending-undecided dispute_rejected = refl

not-in_use : (b : Bool) → not b ≡ in_use b
not-in_use true = refl
not-in_use false = refl

-- Where its data file exists, each request that lists sends one message, with the first records of
-- the file, in its order, that pass its test: up to 256 auctions that are open and not deleted, 256
-- bids of the user, 128 disputes without a ruling, and 512 users that are not deleted, with zeros for
-- their digests. Records beyond these limits are not sent.
pub views_send_first :
    (fd : ℤ) (u : User) (w : World) {auctions : List Auction} {bids : List Bid}
    {disputes : List Dispute} {users : List User}
    → w.auctions.contents ≡ some auctions
    → w.bids.contents ≡ some bids
    → w.disputes.contents ≡ some disputes
    → w.users.contents ≡ some users
    → (handle_view_auctions fd w
        ≡ send_msg fd view_auctions_resp err_ok
            (auctions_payload (first 256 (λ a. on_sale a.is_deleted a.status) auctions))
            w)
      × (handle_view_my_bids fd u w
          ≡ send_msg fd view_my_bids_resp err_ok
              (bids_payload (first 256 (λ b. b.bidder_id == u.user_id) bids))
              w)
      × (handle_view_disputes fd w
          ≡ send_msg fd view_disputes_resp err_ok
              (disputes_payload (first 128 (λ d. undecided d.status) disputes))
              w)
      × (handle_list_users fd w
          ≡ send_msg fd list_users_resp err_ok
              (users_payload (map hide_digest (first 512 (λ v. in_use v.is_deleted) users)))
              w)
views_send_first fd u w {auctions} {bids} {disputes} {users} ea eb ed eu = (
  list_auctions fd w ea
      ∙ ap (λ p. send_msg fd view_auctions_resp err_ok (auctions_payload (first 256 p auctions)) w)
          (fun_ext is_listed-on_sale),
  list_my_bids fd w u eb,
  list_disputes fd w ed
      ∙ ap (λ p. send_msg fd view_disputes_resp err_ok (disputes_payload (first 128 p disputes)) w)
          (fun_ext (λ d. is_pending-undecided d.status)),
  list_users fd w eu
      ∙ ap
          (λ p.
            send_msg fd list_users_resp err_ok
              (users_payload (map without_password (first 512 p users))) w)
          (fun_ext (λ v. not-in_use v.is_deleted)),
)
