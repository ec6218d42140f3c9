-- ===== src/System/Trade.antt =====
-- The order of the files under deposits, and the number of users under all of server/wallet.c.
use online_auction_system.Base.{ℕ, ◌≤◌, refl, ap, arith, Bool-cases, Option-cases, inl, inr, length}
use online_auction_system.Base.Money.{ℤ, pos, neg, leb_ℤ}
use online_auction_system.Models.{Amount, User, zero_user}
use online_auction_system.Store.{records, slot_of}
use online_auction_system.Store.Write.{length-write_at}
use online_auction_system.World.{World}
use online_auction_system.World.FileIo.{read_user}
use online_auction_system.Wallet.{
  apply_wallet_delta, place_hold, release_hold, settle_payment, credit_wallet, DepositPayload,
  handle_deposit,
}
use online_auction_system.Wallet.Sound.{apply_wallet_delta-cases}
use online_auction_system.Wallet.Frame.{credit_wallet-SameElsewhere}
use online_auction_system.Ledger.Users.{credit_wallet-BooksMatch}
use online_auction_system.System.History.{Evolves-same, Follows-refl}
use online_auction_system.System.Keeps.{InOrder, Keeps, Keeps-books, Keeps-files, Keeps-then}

-- No user goes away from `w` to `w'`.
abbrev pub UsersStay : World → World → Type 0
UsersStay w w' = length (records w.users) ≤ length (records w'.users)

apply_wallet_delta-UsersStay :
    (k : ℕ) (b h : Amount) (w : World) → UsersStay w (apply_wallet_delta k b h w).0
apply_wallet_delta-UsersStay k b h w =
    apply_wallet_delta-cases (λ r. UsersStay w r.0) k b h w (omega arith)
      λ u u' found e. length-write_at zero_user w.users (slot_of u'.user_id) u'

module _ (k : ℕ) (a : Amount) (w : World) where
  pub credit_wallet-UsersStay : UsersStay w (credit_wallet k a w).0
  unfolding credit_wallet
  credit_wallet-UsersStay = apply_wallet_delta-UsersStay k a (pos 0) w

  pub settle_payment-UsersStay : UsersStay w (settle_payment k a w).0
  unfolding settle_payment
  settle_payment-UsersStay = apply_wallet_delta-UsersStay k (neg a) (neg a) w

  pub release_hold-UsersStay : UsersStay w (release_hold k a w).0
  unfolding release_hold
  release_hold-UsersStay = apply_wallet_delta-UsersStay k (pos 0) (neg a) w

  pub place_hold-UsersStay : UsersStay w (place_hold k a w).0
  unfolding place_hold
  place_hold-UsersStay =
      let e = apply_wallet_delta-UsersStay k (pos 0) a w in
      elim (Option-cases (read_user k w)) [
        | inl absent ↦ rw (absent, place_hold) (omega arith)
        | inr (u, found) ↦ rw (found, place_hold) (ground (arith, e))
      ]

-- Any credit or debit of one balance keeps the files in order.
pub credit_wallet-Keeps :
    (k : ℕ) (a : Amount) {w : World} → InOrder w → Keeps w (credit_wallet k a w).0
credit_wallet-Keeps k a {w} o =
    let same = credit_wallet-SameElsewhere k a w in
    let same_auctions = ap (λ v. v.auctions) same in
    Keeps-books o (credit_wallet-BooksMatch k a o.books) (credit_wallet-UsersStay k a w)
      (ap (λ v. v.disputes) same) (Evolves-same Follows-refl same_auctions)

pub handle_deposit-Keeps :
    (fd : ℤ) (req : DepositPayload) (u : User) {w : World}
    → InOrder w
    → Keeps w (handle_deposit fd req u w).0
unfolding handle_deposit
handle_deposit-Keeps fd req u {w} o =
    let k = credit_wallet-Keeps u.user_id req.amount o in
    elim (Bool-cases (leb_ℤ req.amount (pos 0))) [
      | inl bad ↦ rw (bad, handle_deposit) (Keeps-files o refl refl refl)
      | inr good ↦ elim (Bool-cases (credit_wallet u.user_id req.amount w).1) [
        | inr failed ↦ rw (good, failed, handle_deposit) (Keeps-then k refl refl refl)
        | inl ok ↦
            elim (Option-cases (read_user u.user_id (credit_wallet u.user_id req.amount w).0)) [
              | inl gone ↦ rw (good, ok, gone, handle_deposit) (Keeps-then k refl refl refl)
              | inr (v, e) ↦ rw (good, ok, e, handle_deposit) (Keeps-then k refl refl refl)
            ]
      ]
    ]
