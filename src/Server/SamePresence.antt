-- ===== src/Server/SamePresence.antt =====
-- The handlers that leave sessions.dat and the registry alone: all but those of server/auth.c for
-- login and logout.
use online_auction_system.Base.{
  ◌||◌, ltb, ℕ, List, ◌≡◌, refl, Option, some, none, not, arith, ◌∙◌, ap, Option-cases, Bool-cases,
  inl, inr, ◌&&◌, ◌==◌,
}
use online_auction_system.Base.Money.{ℤ, neg, pos, leb_ℤ}
use online_auction_system.Base.Bytes.{Bytes}
use online_auction_system.Models.{User, Auction, Dispute, Session}
use online_auction_system.World.{World, RegistryEntry}
use online_auction_system.Store.{File}
use online_auction_system.World.FileIo.{write_auction, read_auction, read_dispute, write_dispute}
use online_auction_system.Notify.Frame.{
  notify_outbid-OnlySends, notify_auction_won-OnlySends, notify_auction_closed-OnlySends,
}
use online_auction_system.Wallet.{DepositPayload, handle_deposit, handle_view_balance}
use online_auction_system.Wallet.Frame.{
  place_hold-SameElsewhere, release_hold-SameElsewhere, settle_payment-SameElsewhere,
  credit_wallet-SameElsewhere,
}
use online_auction_system.BidHandler.{
  PlaceBidPayload, move_holds, accept_bid, handle_place_bid, handle_view_auctions,
  handle_view_my_bids, FeedbackPayload, handle_submit_feedback,
}
use online_auction_system.BidHandler.Cases.{handle_place_bid-cases}
use online_auction_system.AuctionEngine.{
  CreateAuctionPayload, new_auction, handle_create_auction, handle_close_auction,
  close_auction_internal, closed, reserve_met, settle_auction, release_auction,
}
use online_auction_system.Dispute.{
  FileDisputePayload, handle_file_dispute, handle_view_disputes, ResolveDisputePayload,
  handle_resolve_dispute, carry_out, refund, is_resolved, ruled, debit_seller, handle_view_feedback,
  ToggleAccountPayload, handle_toggle_account,
}
use online_auction_system.Admin.{
  AddUserPayload, handle_add_user, handle_list_users, ChangeRolePayload, handle_change_role,
}
use online_auction_system.Auth.{ChangePassPayload, handle_change_password}

-- Who is logged in, and where.
pub record Presence : Type 0 where
  pub sessions : File Session
  pub registry : List RegistryEntry

abbrev pub presence : World → Presence
presence w = record { sessions = w.sessions; registry = w.registry }

-- sessions.dat and the registry stay as they are.
abbrev pub SamePresence : World → World → Type 0
SamePresence w w' = presence w' ≡ presence w

module _ (fd : ℤ) (w : World) where
  pub handle_view_auctions-SamePresence : SamePresence w (handle_view_auctions fd w)
  unfolding handle_view_auctions
  handle_view_auctions-SamePresence = ground arith

  pub handle_view_my_bids-SamePresence : (u : User) → SamePresence w (handle_view_my_bids fd u w)
  unfolding handle_view_my_bids
  handle_view_my_bids-SamePresence u = ground arith

  pub handle_view_balance-SamePresence : (u : User) → SamePresence w (handle_view_balance fd u w)
  unfolding handle_view_balance
  handle_view_balance-SamePresence u = ground arith

  pub handle_view_disputes-SamePresence : SamePresence w (handle_view_disputes fd w)
  unfolding handle_view_disputes
  handle_view_disputes-SamePresence = ground arith

  pub handle_view_feedback-SamePresence : SamePresence w (handle_view_feedback fd w)
  unfolding handle_view_feedback
  handle_view_feedback-SamePresence = ground arith

  pub handle_list_users-SamePresence : SamePresence w (handle_list_users fd w)
  unfolding handle_list_users
  handle_list_users-SamePresence = ground arith

  pub handle_submit_feedback-SamePresence :
      (req : FeedbackPayload) (u : User) → SamePresence w (handle_submit_feedback fd req u w)
  unfolding handle_submit_feedback
  handle_submit_feedback-SamePresence req u = ground arith

  pub handle_create_auction-SamePresence :
      (req : CreateAuctionPayload) (u : User) → SamePresence w (handle_create_auction fd req u w)
  unfolding handle_create_auction
  handle_create_auction-SamePresence req u =
      elim (Bool-cases (leb_ℤ req.start_price (pos 0) || ltb req.duration_seconds 10)) [
        | inl refused ↦ rw refused refl
        | inr fine ↦ elim (Bool-cases (write_auction (new_auction req u w) w).1) [
          | inl wrote ↦ rw (fine, wrote) refl
          | inr failed ↦ rw (fine, failed) refl
        ]
      ]

  pub handle_deposit-SamePresence :
      (req : DepositPayload) (u : User) → SamePresence w (handle_deposit fd req u w).0
  unfolding handle_deposit
  handle_deposit-SamePresence req u =
      let e = ap presence (credit_wallet-SameElsewhere u.user_id req.amount w) in ground (arith, e)

  pub handle_toggle_account-SamePresence :
      (req : ToggleAccountPayload) (u : User) → SamePresence w (handle_toggle_account fd req u w)
  unfolding handle_toggle_account
  handle_toggle_account-SamePresence req u = ground arith

  pub handle_change_role-SamePresence :
      (req : ChangeRolePayload) → SamePresence w (handle_change_role fd req w)
  unfolding handle_change_role
  handle_change_role-SamePresence req = ground arith

  pub handle_file_dispute-SamePresence :
      (req : FileDisputePayload) (u : User) → SamePresence w (handle_file_dispute fd req u w)
  unfolding handle_file_dispute
  handle_file_dispute-SamePresence req u = ground arith

  move_holds-SamePresence :
      (req : PlaceBidPayload) (u : User) (a : Auction) → SamePresence w (move_holds req u a w)
  unfolding move_holds
  move_holds-SamePresence req u a = elim (Bool-cases (a.highest_bidder_id == 0)) [
    | inl first ↦
        rw (first, move_holds) (ap presence (place_hold-SameElsewhere u.user_id req.amount w))
    | inr later ↦
        rw (later, move_holds)
          (ap presence (place_hold-SameElsewhere u.user_id req.amount _)
            ∙ ap presence (release_hold-SameElsewhere a.highest_bidder_id a.current_bid w))
  ]

  accept_bid-SamePresence :
      (req : PlaceBidPayload) (u : User) (a : Auction) → SamePresence w (accept_bid fd req u a w)
  unfolding accept_bid
  accept_bid-SamePresence req u a =
      elim (Bool-cases (not (a.highest_bidder_id == 0) && not (a.highest_bidder_id == u.user_id))) [
        | inl outbid ↦ rw outbid (
            ap presence (notify_outbid-OnlySends a.highest_bidder_id req.auction_id req.amount _)
            ∙ move_holds-SamePresence req u a)
        | inr alone ↦ rw alone (move_holds-SamePresence req u a)
      ]

  pub handle_place_bid-SamePresence :
      (req : PlaceBidPayload) (u : User) → SamePresence w (handle_place_bid fd req u w)
  handle_place_bid-SamePresence req u =
      handle_place_bid-cases (SamePresence w) fd req u w (λ code. refl)
        λ a v p. accept_bid-SamePresence req u a

settle_auction-SamePresence : (a : Auction) (w : World) → SamePresence w (settle_auction a w)
unfolding settle_auction
settle_auction-SamePresence a w =
    ap presence (notify_auction_closed-OnlySends a.seller_id a.auction_id _)
    ∙ ap presence (notify_auction_won-OnlySends a.highest_bidder_id a.auction_id a.current_bid _)
    ∙ ap presence (credit_wallet-SameElsewhere a.seller_id a.current_bid _)
    ∙ ap presence (settle_payment-SameElsewhere a.highest_bidder_id a.current_bid _)

release_auction-SamePresence : (a : Auction) (w : World) → SamePresence w (release_auction a w)
unfolding release_auction
release_auction-SamePresence a w =
    ap presence (notify_auction_closed-OnlySends a.seller_id a.auction_id _)
    ∙ (elim (Bool-cases (a.highest_bidder_id == 0)) [
      | inl nobody ↦ rw nobody refl
      | inr somebody ↦
          rw somebody (ap presence (release_hold-SameElsewhere a.highest_bidder_id a.current_bid w))
    ])

pub close_auction_internal-SamePresence :
    (a : Auction) (w : World) → SamePresence w (close_auction_internal a w)
unfolding close_auction_internal
close_auction_internal-SamePresence a w =
    elim (Bool-cases (not (a.highest_bidder_id == 0) && reserve_met a)) [
      | inl won ↦ rw won (settle_auction-SamePresence (closed a) _)
      | inr lost ↦ rw lost (release_auction-SamePresence (closed a) _)
    ]

debit_seller-SamePresence :
    (a : Auction) (o : Option User) (w : World) → SamePresence w (debit_seller a o w)
unfolding debit_seller
debit_seller-SamePresence a none w = refl
debit_seller-SamePresence a (some seller) w =
    let e = ap presence (credit_wallet-SameElsewhere a.seller_id (neg a.current_bid) w) in
    ground (arith, e)

refund-SamePresence : (d : Dispute) (a : Auction) (w : World) → SamePresence w (refund d a w)
unfolding refund
refund-SamePresence d a w =
    debit_seller-SamePresence a _ _
    ∙ ap presence (credit_wallet-SameElsewhere a.highest_bidder_id a.current_bid _)

carry_out-SamePresence :
    (fd : ℤ) (u : User) (d : Dispute) (o : Option Auction) (w : World)
    → SamePresence w (carry_out fd u d o w)
unfolding carry_out
carry_out-SamePresence fd u d none w = refl
carry_out-SamePresence fd u d (some a) w = elim (Bool-cases (is_resolved d.status)) [
  | inl resolved ↦ rw resolved (refund-SamePresence d a w)
  | inr rejected ↦ rw rejected refl
]

module _ (fd : ℤ) (w : World) where
  pub handle_close_auction-SamePresence :
      (id : ℕ) (u : User) → SamePresence w (handle_close_auction fd id u w)
  unfolding handle_close_auction
  handle_close_auction-SamePresence id u = elim (Option-cases (read_auction id w)) [
    | inl absent ↦ rw (absent, handle_close_auction) refl
    | inr (a, found) ↦ let e = close_auction_internal-SamePresence a w in ground (arith, e)
  ]

  pub handle_resolve_dispute-SamePresence :
      (req : ResolveDisputePayload) (u : User) → SamePresence w (handle_resolve_dispute fd req u w)
  unfolding handle_resolve_dispute
  handle_resolve_dispute-SamePresence req u = elim (Option-cases (read_dispute req.dispute_id w)) [
    | inl absent ↦ ground arith
    | inr (d, found) ↦
        let d' = ruled req u w d in
        let w1 = (write_dispute d' w).0 in
        let e = carry_out-SamePresence fd u d' (read_auction d'.auction_id w1) w1 in
        rw (found, handle_resolve_dispute) (ground (arith, e))
  ]

  pub handle_add_user-SamePresence :
      (popen : Bytes → Option Bytes) (req : AddUserPayload)
      → SamePresence w (handle_add_user popen fd req w)
  unfolding handle_add_user
  handle_add_user-SamePresence popen req = ground arith

  pub handle_change_password-SamePresence :
      (popen : Bytes → Option Bytes) (req : ChangePassPayload) (u : User)
      → SamePresence w (handle_change_password popen fd req u w).0
  unfolding handle_change_password
  handle_change_password-SamePresence popen req u = ground arith
