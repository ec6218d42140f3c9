-- ===== src/System/Money.antt =====
-- The money in all wallets together, under every request but a deposit and a ruling on a dispute.
use online_auction_system.Base.{
  ℕ, ◌≡◌, ◌∙◌, refl, ap, sym, subst, some, arith, Bool-cases, Option-cases, inl, inr, ◌==◌,
}
use online_auction_system.Base.Money.{
  ℤ, pos, neg, ◌+ℤ◌, ◌-ℤ◌, +ℤ-zero, ltb_ℤ, pos_part, neg_part, money_laws,
}
use online_auction_system.Models.{Amount, User, Auction}
use online_auction_system.Store.{records, slot_of}
use online_auction_system.Store.Laws.{read_at-get}
use online_auction_system.World.{World}
use online_auction_system.World.FileIo.{read_user, write_user}
use online_auction_system.Wallet.{delta_user, apply_wallet_delta, place_hold, release_hold}
use online_auction_system.Wallet.Sound.{apply_wallet_delta-cases}
use online_auction_system.Wallet.Effect.{UsersReady, write_user-with_user, with_user-ready}
use online_auction_system.BidHandler.{PlaceBidPayload, move_holds, handle_place_bid}
use online_auction_system.BidHandler.Cases.{handle_place_bid-cases}
use online_auction_system.Ledger.{total_balance}
use online_auction_system.Ledger.Sums.{total_balance-set}
use online_auction_system.Ledger.Bid.{accept_bid-files}

abbrev pub money : World → Amount
money w = total_balance (records w.users)

-- From `w` to `w'` users.dat stays well formed, and no money is created or lost.
pub record SameMoney (w w' : World) : Type 0 where
  pub ready : UsersReady w'
  pub same : money w' ≡ money w

pub SameMoney-files : {w w' : World} → w'.users ≡ w.users → UsersReady w → SameMoney w w'
SameMoney-files e ready = record {
  ready = record { keyed = rw e ready.keyed; writable = rw e ready.writable };
  same = rw e refl;
}

pub SameMoney-trans : {w w' w'' : World} → SameMoney w w' → SameMoney w' w'' → SameMoney w w''
SameMoney-trans p q = record { ready = q.ready; same = q.same ∙ p.same }

-- What follows leaves users.dat alone.
pub SameMoney-then : {w w' w'' : World} → SameMoney w w' → w''.users ≡ w'.users → SameMoney w w''
SameMoney-then p e = SameMoney-trans p (SameMoney-files e p.ready)

same_sum : (s t x : Amount) → t +ℤ x ≡ s +ℤ x → t ≡ s
same_sum s t x p = omega (money_laws, ap pos_part p, ap neg_part p)

-- A user is written back with the same id and balance.
pub write_user-SameMoney :
    {w : World} (k : ℕ) {u : User} (u' : User)
    → UsersReady w
    → read_user k w ≡ some u
    → u'.user_id ≡ u.user_id
    → u'.wallet_balance ≡ u.wallet_balance
    → SameMoney w (write_user u' w).0
write_user-SameMoney {w} k {u} u' ready found id balance =
    let sum =
      total_balance-set (records w.users) (slot_of k) u' (read_at-get w.users (slot_of k) found) in
    subst (λ r. SameMoney w r.0) (sym (write_user-with_user ready k found u' id))
      record {
        ready = with_user-ready ready k found u' id;
        same = same_sum (money w) _ u.wallet_balance (sum ∙ ap (λ b. money w +ℤ b) balance);
      }

delta_user-hold :
    (u u' : User) (h : Amount)
    → delta_user u (pos 0) h ≡ some u'
    → (u'.user_id ≡ u.user_id) × (u'.wallet_balance ≡ u.wallet_balance)
unfolding delta_user
delta_user-hold u u' h e = ground (arith, +ℤ-zero u.wallet_balance)

apply_wallet_delta-SameMoney :
    (k : ℕ) (h : Amount) {w : World}
    → UsersReady w
    → SameMoney w (apply_wallet_delta k (pos 0) h w).0
apply_wallet_delta-SameMoney k h {w} ready =
    apply_wallet_delta-cases (λ r. SameMoney w r.0) k (pos 0) h w (SameMoney-files refl ready)
      λ u u' found e.
        let (id, balance) = delta_user-hold u u' h e in
        write_user-SameMoney k u' ready found id balance

release_hold-SameMoney :
    (k : ℕ) (a : Amount) {w : World} → UsersReady w → SameMoney w (release_hold k a w).0
unfolding release_hold
release_hold-SameMoney k a ready =
    SameMoney-then (apply_wallet_delta-SameMoney k (neg a) ready) refl

place_hold-SameMoney :
    (k : ℕ) (a : Amount) {w : World} → UsersReady w → SameMoney w (place_hold k a w).0
unfolding place_hold
place_hold-SameMoney k a {w} ready = elim (Option-cases (read_user k w)) [
  | inl absent ↦ rw (absent, place_hold) (SameMoney-files refl ready)
  | inr (u, found) ↦ elim (Bool-cases (ltb_ℤ (u.wallet_balance -ℤ u.wallet_hold) a)) [
    | inl short ↦ rw (found, short, place_hold) (SameMoney-files refl ready)
    | inr enough ↦
        rw (found, enough, place_hold)
          (SameMoney-then (apply_wallet_delta-SameMoney k a ready) refl)
  ]
]

move_holds-SameMoney :
    (req : PlaceBidPayload) (bidder : User) (a : Auction) {w : World}
    → UsersReady w
    → SameMoney w (move_holds req bidder a w)
unfolding move_holds
move_holds-SameMoney req bidder a {w} ready = elim (Bool-cases (a.highest_bidder_id == 0)) [
  | inl first ↦ rw (first, move_holds) (place_hold-SameMoney bidder.user_id req.amount ready)
  | inr later ↦
      let freed = release_hold-SameMoney a.highest_bidder_id a.current_bid ready in
      rw (later, move_holds)
        (SameMoney-trans freed (place_hold-SameMoney bidder.user_id req.amount freed.ready))
]

pub handle_place_bid-SameMoney :
    (fd : ℤ) (req : PlaceBidPayload) (bidder : User) {w : World}
    → UsersReady w
    → SameMoney w (handle_place_bid fd req bidder w)
handle_place_bid-SameMoney fd req bidder {w} ready =
    handle_place_bid-cases (SameMoney w) fd req bidder w (λ code. SameMoney-files refl ready)
      λ a u p.
        SameMoney-then (move_holds-SameMoney req bidder a ready)
          (accept_bid-files fd req bidder a w).0
