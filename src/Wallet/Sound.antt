-- ===== src/Wallet/Sound.antt =====
-- The wallets of users.dat (server/wallet.c) stay sound: no hold is negative, and none exceeds its
-- balance.
use online_auction_system.Base.{
  ℕ, ◌≡◌, Bool, false, some, arith, Option-cases, inl, inr, All, Bool-cases,
}
use online_auction_system.Base.Money.{pos, neg, ◌-ℤ◌, ◌≤ℤ◌, ltb_ℤ}
use online_auction_system.Models.{Amount, User, zero_user}
use online_auction_system.Store.{records, slot_of}
use online_auction_system.Store.Laws.{All-write_at}
use online_auction_system.World.{World}
use online_auction_system.World.FileIo.{write_user, read_user}
use online_auction_system.Wallet.{
  delta_user, apply_wallet_delta, place_hold, release_hold, settle_payment, credit_wallet,
}

-- 0 ≤ hold ≤ balance
abbrev pub IsSoundUser : User → Type 0
IsSoundUser u = (pos 0 ≤ℤ u.wallet_hold) × (u.wallet_hold ≤ℤ u.wallet_balance)

abbrev pub WalletsSound : World → Type 0
WalletsSound w = All IsSoundUser (records w.users)

-- The guards of `apply_wallet_delta` let only sound wallets through, whatever the record was.
pub delta_user-IsSoundUser :
    (u u' : User) (b h : Amount) → delta_user u b h ≡ some u' → IsSoundUser u'
unfolding delta_user
delta_user-IsSoundUser u u' b h e = ground arith

pub write_user-WalletsSound :
    (u : User) (w : World) → IsSoundUser u → WalletsSound w → WalletsSound (write_user u w).0
write_user-WalletsSound u w s v =
    All-write_at IsSoundUser zero_user w.users (slot_of u.user_id) u (omega arith) s v

-- A property of every outcome of `apply_wallet_delta`: it refuses, or writes one user back.
pub apply_wallet_delta-cases {ℓ} :
    (P : World × Bool → Type ℓ) (k : ℕ) (b h : Amount) (w : World)
    → P (w, false)
    → ((u u' : User) → read_user k w ≡ some u → delta_user u b h ≡ some u' → P (write_user u' w))
    → P (apply_wallet_delta k b h w)
unfolding apply_wallet_delta
apply_wallet_delta-cases P k b h w refused written = elim (Option-cases (read_user k w)) [
  | inl absent ↦ rw (absent, apply_wallet_delta) refused
  | inr (u, found) ↦ elim (Option-cases (delta_user u b h)) [
    | inl guard ↦ rw (found, guard, apply_wallet_delta) refused
    | inr (u', e) ↦ rw (found, e, apply_wallet_delta) (written u u' found e)
  ]
]

pub apply_wallet_delta-WalletsSound :
    (k : ℕ) (b h : Amount) (w : World)
    → WalletsSound w
    → WalletsSound (apply_wallet_delta k b h w).0
apply_wallet_delta-WalletsSound k b h w v =
    apply_wallet_delta-cases (λ r. WalletsSound r.0) k b h w v
      λ u u' found e. write_user-WalletsSound u' w (delta_user-IsSoundUser u u' b h e) v

module _ (k : ℕ) (a : Amount) (w : World) (v : WalletsSound w) where
  pub place_hold-WalletsSound : WalletsSound (place_hold k a w).0
  unfolding place_hold
  place_hold-WalletsSound = elim (Option-cases (read_user k w)) [
    | inl absent ↦ rw (absent, place_hold) v
    | inr (u, found) ↦ elim (Bool-cases (ltb_ℤ (u.wallet_balance -ℤ u.wallet_hold) a)) [
      | inl short ↦ rw (found, short, place_hold) v
      | inr enough ↦
          rw (found, enough, place_hold) (apply_wallet_delta-WalletsSound k (pos 0) a w v)
    ]
  ]

  pub release_hold-WalletsSound : WalletsSound (release_hold k a w).0
  unfolding release_hold
  release_hold-WalletsSound = apply_wallet_delta-WalletsSound k (pos 0) (neg a) w v

  pub settle_payment-WalletsSound : WalletsSound (settle_payment k a w).0
  unfolding settle_payment
  settle_payment-WalletsSound = apply_wallet_delta-WalletsSound k (neg a) (neg a) w v

  pub credit_wallet-WalletsSound : WalletsSound (credit_wallet k a w).0
  unfolding credit_wallet
  credit_wallet-WalletsSound = apply_wallet_delta-WalletsSound k a (pos 0) w v
