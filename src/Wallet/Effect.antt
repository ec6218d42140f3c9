-- ===== src/Wallet/Effect.antt =====
-- What the wallet functions of server/wallet.c do to users.dat when their guards pass: one user's
-- balance and hold move by the stated amounts, and nobody else's record changes.
use online_auction_system.Base.{ℕ, ◌≡◌, refl, true, some, arith, if◌then◌else◌, ap, ◌==◌}
use online_auction_system.Base.Money.{pos, neg, ◌+ℤ◌, ◌-ℤ◌, ◌≤ℤ◌, money_laws, +ℤ_parts, -ℤ_parts}
use online_auction_system.Models.{Amount, User, zero_user}
use online_auction_system.Store.{slot_of, replaced}
use online_auction_system.Store.Laws.{IsKeyed, write_back, read_at-replaced, replaced-IsKeyed}
use online_auction_system.World.{World, LogLine}
use online_auction_system.World.FileIo.{write_user, read_user, log_txn}
use online_auction_system.Wallet.{
  delta_user, apply_wallet_delta, place_hold, release_hold, settle_payment, credit_wallet,
}
use online_auction_system.Wallet.Sound.{IsSoundUser}

abbrev pub user_key : User → ℕ
user_key u = u.user_id

-- users.dat holds user i + 1 in record i, and can be written.
pub record UsersReady (w : World) : Type 0 where
  pub keyed : IsKeyed user_key w.users
  pub writable : w.users.writable ≡ true

-- The user's record with its wallet moved by the two deltas.
abbrev pub moved : User → Amount → Amount → User
moved u b h = record u { wallet_balance = u.wallet_balance +ℤ b; wallet_hold = u.wallet_hold +ℤ h }

-- The state with the record of `k` replaced.
abbrev pub with_user : ℕ → User → World → World
with_user k u w = record w { users = replaced w.users (slot_of k) u }

pub delta_user-moved :
    (u : User) (b h : Amount)
    → pos 0 ≤ℤ u.wallet_hold +ℤ h
    → u.wallet_hold +ℤ h ≤ℤ u.wallet_balance +ℤ b
    → delta_user u b h ≡ some (moved u b h)
unfolding delta_user
delta_user-moved u b h p q = ground arith

module _ {w : World} (ready : UsersReady w) (k : ℕ) {u : User}
    (found : read_user k w ≡ some u) where
  pub with_user-ready : (u' : User) → u'.user_id ≡ u.user_id → UsersReady (with_user k u' w)
  with_user-ready u' e = record {
    keyed = replaced-IsKeyed user_key w.users (slot_of k) u' ready.keyed found e;
    writable = ready.writable;
  }

  pub read_user-with_user :
      (u' : User) (j : ℕ)
      → read_user j (with_user k u' w) ≡ (if slot_of j == slot_of k then some u' else read_user j w)
  read_user-with_user u' j = read_at-replaced w.users (slot_of k) (slot_of j) u' found

  pub write_user-with_user :
      (u' : User) → u'.user_id ≡ u.user_id → write_user u' w ≡ (with_user k u' w, true)
  write_user-with_user u' e =
      ap (λ r. (record w { users = r.0 }, r.1))
        (write_back user_key zero_user w.users (slot_of k) u' ready.keyed found e ready.writable)

  -- The exact outcome of `apply_wallet_delta` where its guards pass.
  pub apply_wallet_delta_lem :
      (b h : Amount)
      → pos 0 ≤ℤ u.wallet_hold +ℤ h
      → u.wallet_hold +ℤ h ≤ℤ u.wallet_balance +ℤ b
      → apply_wallet_delta k b h w ≡ (with_user k (moved u b h) w, true)
  unfolding apply_wallet_delta
  apply_wallet_delta_lem b h p q =
      rw (found, delta_user-moved u b h p q, apply_wallet_delta)
        (write_user-with_user (moved u b h) refl)

  module _ (a : Amount) (sound : IsSoundUser u) where
    pub place_hold_lem :
        pos 0 ≤ℤ a
        → a ≤ℤ u.wallet_balance -ℤ u.wallet_hold
        → place_hold k a w ≡ (log_txn (LogLine.hold k a) (with_user k (moved u (pos 0) a) w), true)
    unfolding place_hold
    place_hold_lem p q =
        rw (found, place_hold)
          (ground (
            arith,
            +ℤ_parts u.wallet_hold a,
            +ℤ_parts u.wallet_balance (pos 0),
            -ℤ_parts u.wallet_balance u.wallet_hold,
            apply_wallet_delta_lem (pos 0) a,
          ))

    pub release_hold_lem :
        pos 0 ≤ℤ a
        → a ≤ℤ u.wallet_hold
        → release_hold k a w
          ≡ (log_txn (LogLine.release k a) (with_user k (moved u (pos 0) (neg a)) w), true)
    unfolding release_hold
    release_hold_lem p q =
        rw (apply_wallet_delta_lem (pos 0) (neg a) (omega money_laws) (omega money_laws)) refl

    pub settle_payment_lem :
        pos 0 ≤ℤ a
        → a ≤ℤ u.wallet_hold
        → settle_payment k a w
          ≡ (log_txn (LogLine.settle k a) (with_user k (moved u (neg a) (neg a)) w), true)
    unfolding settle_payment
    settle_payment_lem p q =
        rw (apply_wallet_delta_lem (neg a) (neg a) (omega money_laws) (omega money_laws)) refl

    pub credit_wallet_lem :
        u.wallet_hold ≤ℤ u.wallet_balance +ℤ a
        → credit_wallet k a w
          ≡ (log_txn (LogLine.credit k a) (with_user k (moved u a (pos 0)) w), true)
    unfolding credit_wallet
    credit_wallet_lem p =
        rw (apply_wallet_delta_lem a (pos 0) (omega money_laws) (omega money_laws)) refl
