-- ===== src/Wallet/Frame.antt =====
-- The wallet functions of server/wallet.c touch users.dat and txn.log and nothing else.
use online_auction_system.Base.{ℕ, ◌≡◌, refl, arith, Option-cases, Bool-cases, inl, inr}
use online_auction_system.Base.Money.{pos, neg, ◌-ℤ◌, ltb_ℤ}
use online_auction_system.Models.{Amount}
use online_auction_system.World.{World}
use online_auction_system.World.FileIo.{read_user}
use online_auction_system.Wallet.{
  apply_wallet_delta, place_hold, release_hold, settle_payment, credit_wallet,
}
use online_auction_system.Wallet.Sound.{apply_wallet_delta-cases}

-- From `w` to `w'` only users.dat and txn.log differ.
abbrev pub SameElsewhere : World → World → Type 0
SameElsewhere w w' = w' ≡ record w { users = w'.users; txn_log = w'.txn_log }

apply_wallet_delta-SameElsewhere :
    (k : ℕ) (b h : Amount) (w : World) → SameElsewhere w (apply_wallet_delta k b h w).0
apply_wallet_delta-SameElsewhere k b h w =
    apply_wallet_delta-cases (λ r. SameElsewhere w r.0) k b h w refl (λ u u' found e. refl)

module _ (k : ℕ) (a : Amount) (w : World) where
  pub release_hold-SameElsewhere : SameElsewhere w (release_hold k a w).0
  unfolding release_hold
  release_hold-SameElsewhere =
      let e = apply_wallet_delta-SameElsewhere k (pos 0) (neg a) w in ground (arith, e)

  pub settle_payment-SameElsewhere : SameElsewhere w (settle_payment k a w).0
  unfolding settle_payment
  settle_payment-SameElsewhere =
      let e = apply_wallet_delta-SameElsewhere k (neg a) (neg a) w in ground (arith, e)

  pub credit_wallet-SameElsewhere : SameElsewhere w (credit_wallet k a w).0
  unfolding credit_wallet
  credit_wallet-SameElsewhere =
      let e = apply_wallet_delta-SameElsewhere k a (pos 0) w in ground (arith, e)

  pub place_hold-SameElsewhere : SameElsewhere w (place_hold k a w).0
  unfolding place_hold
  place_hold-SameElsewhere = elim (Option-cases (read_user k w)) [
    | inl absent ↦ rw (absent, place_hold) refl
    | inr (u, found) ↦ elim (Bool-cases (ltb_ℤ (u.wallet_balance -ℤ u.wallet_hold) a)) [
      | inl short ↦ rw (found, short, place_hold) refl
      | inr enough ↦
          rw (found, enough, place_hold)
            (let e = apply_wallet_delta-SameElsewhere k (pos 0) a w in ground (arith, e))
    ]
  ]
