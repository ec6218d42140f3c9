-- ===== src/Wallet/Account.antt =====
-- The abstract view of a wallet of server/wallet.c: an account with a balance and a frozen part, and
-- what the comments of wallet.c promise of the four wallet functions, for sound wallets and amounts
-- that are not negative.
pub mod Refine
use mathlib.Core.Option
use online_auction_system.Base.{
  ℕ, ◌≡◌, refl, Bool, true, false, Option, none, some, arith, inl, inr, Option-cases, ap, ◌==◌,
  if◌then◌else◌, Bool-cases, ◌⊎◌,
}
use online_auction_system.Base.Money.{
  ℤ, pos, neg, ◌+ℤ◌, ◌-ℤ◌, ◌≤ℤ◌, ltb_ℤ, leb_ℤ, +ℤ_parts, -ℤ_parts, neg_parts, eq_of_parts,
}
use online_auction_system.Models.{Amount, User}
use online_auction_system.Store.{slot_of}
use online_auction_system.Store.Laws.{All-read_at}
use online_auction_system.World.{World}
use online_auction_system.World.FileIo.{read_user}
use online_auction_system.Wallet.{
  delta_user, apply_wallet_delta, place_hold, release_hold, settle_payment, credit_wallet,
}
use online_auction_system.Wallet.Sound.{IsSoundUser, WalletsSound}
use online_auction_system.Wallet.Effect.{
  UsersReady, with_user, read_user-with_user, write_user-with_user,
}

pub record Account : Type 0 where
  pub balance : Amount
  pub frozen : Amount

-- Freeze an amount that is available.
abbrev pub freeze : Amount → Account → Option Account
freeze a c =
    if leb_ℤ a (c.balance -ℤ c.frozen) then some (record c { frozen = c.frozen +ℤ a }) else none

-- What is left of the frozen part when `a` of it is given back; not below zero.
abbrev pub thawed : Amount → Account → Amount
thawed a c = if leb_ℤ a c.frozen then c.frozen -ℤ a else pos 0

abbrev pub thaw : Amount → Account → Option Account
thaw a c = some (record c { frozen = thawed a c })

-- Pay an amount that the balance covers, out of the frozen part first.
abbrev pub pay : Amount → Account → Option Account
pay a c =
    if leb_ℤ a c.balance
    then some (record { balance = c.balance -ℤ a; frozen = thawed a c })
    else none

abbrev pub earn : Amount → Account → Option Account
earn a c = some (record c { balance = c.balance +ℤ a })

abbrev pub account_of : User → Account
account_of u = record { balance = u.wallet_balance; frozen = u.wallet_hold }

-- The account that users.dat holds for a user id.
abbrev pub account : ℕ → World → Option Account
account k w = Option.map account_of (read_user k w)

abbrev pub bind {ℓ κ} : {A : Type ℓ} {B : Type κ} → (A → Option B) → Option A → Option B
bind f none = none
bind f (some a) = f a

abbrev pub is_some {ℓ} : {A : Type ℓ} → Option A → Bool
is_some none = false
is_some (some a) = true

abbrev pub or_else {ℓ} : {A : Type ℓ} → Option A → Option A → Option A
or_else none d = d
or_else (some a) d = some a

-- A call on the wallet of `k` does the abstract operation: it succeeds exactly when that does, the
-- account of `k` is then the new one and otherwise the old one, and no other account changes.
pub record Refines (op : Account → Option Account) (k : ℕ) (w : World) (r : World × Bool)
    : Type 0 where
  pub result : r.1 ≡ is_some (bind op (account k w))
  pub accounts :
      (j : ℕ)
      → account j r.0 ≡ (
          if slot_of j == slot_of k
          then or_else (bind op (account k w)) (account k w)
          else account j w)

-- The two deltas do an abstract operation if they do so on every sound user.
abbrev pub Simulates : (Account → Option Account) → Amount → Amount → Type 0
Simulates op b h =
    (u : User) → IsSoundUser u → Option.map account_of (delta_user u b h) ≡ op (account_of u)

pub freeze-Simulates : (a : Amount) → pos 0 ≤ℤ a → Simulates (freeze a) (pos 0) a
unfolding delta_user ◌+ℤ◌ ◌-ℤ◌ neg
freeze-Simulates a p u s = ground arith

pub thaw-Simulates : (a : Amount) → pos 0 ≤ℤ a → Simulates (thaw a) (pos 0) (neg a)
unfolding delta_user ◌+ℤ◌ ◌-ℤ◌ neg
thaw-Simulates a p u s = ground arith

pub pay-Simulates : (a : Amount) → pos 0 ≤ℤ a → Simulates (pay a) (neg a) (neg a)
unfolding delta_user ◌+ℤ◌ ◌-ℤ◌ neg
pay-Simulates a p u s = ground arith

pub earn-Simulates : (a : Amount) → pos 0 ≤ℤ a → Simulates (earn a) a (pos 0)
unfolding delta_user ◌+ℤ◌ ◌-ℤ◌ neg
earn-Simulates a p u s = ground arith
