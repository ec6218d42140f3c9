-- ===== src/Wallet.antt =====
-- server/wallet.c: holds, releases, settlements and credits on the wallets of users.dat.
-- A function that returns 0 or -1 gives the state after it and whether it returned 0.
pub mod Sound
pub mod Effect
pub mod Frame
pub mod Account
use online_auction_system.Base.{ℕ, ◌%◌, Bool, true, false, Option, none, some, if◌then◌else◌}
use online_auction_system.Base.Money.{ℤ, pos, ◌+ℤ◌, ◌-ℤ◌, neg, ltb_ℤ, leb_ℤ}
use online_auction_system.Models.{
  Amount, User, deposit_resp, view_balance_resp, err_ok, err_internal,
}
use online_auction_system.World.{World, LogLine, no_payload, user_payload}
use online_auction_system.World.FileIo.{read_user, write_user, log_txn}
use online_auction_system.Notify.{send_msg}

-- The index of the mutex that guards a user's wallet.
unfoldable pub wallet_lock : ℕ → ℕ
wallet_lock user_id = user_id % 64

-- The new record of `apply_wallet_delta`, `none` where one of its guards refuses. Sums of amounts are
-- exact, and every amount here is a number: on NaN the guards of the code would all let it through.
unfoldable pub delta_user : User → Amount → Amount → Option User
delta_user u balance_delta hold_delta =
    let new_balance = u.wallet_balance +ℤ balance_delta in
    let sum_hold = u.wallet_hold +ℤ hold_delta in
    if ltb_ℤ new_balance (pos 0)
    then none
    else let new_hold = if ltb_ℤ sum_hold (pos 0) then pos 0 else sum_hold in
      if ltb_ℤ new_balance new_hold
      then none
      else some (record u { wallet_balance = new_balance; wallet_hold = new_hold })

unfoldable pub apply_wallet_delta : ℕ → Amount → Amount → World → World × Bool
apply_wallet_delta user_id balance_delta hold_delta w = elim (read_user user_id w) [
  | none ↦ (w, false)
  | some u ↦ elim (delta_user u balance_delta hold_delta) [
    | none ↦ (w, false)
    | some u' ↦ write_user u' w
  ]
]

-- The log line is not written where the function returns before its end.
unfoldable pub place_hold : ℕ → Amount → World → World × Bool
place_hold user_id amount w = elim (read_user user_id w) [
  | none ↦ (w, false)
  | some u ↦
      if ltb_ℤ (u.wallet_balance -ℤ u.wallet_hold) amount
      then (w, false)
      else let r = apply_wallet_delta user_id (pos 0) amount w in
        (log_txn (LogLine.hold user_id amount) r.0, r.1)
]

unfoldable pub release_hold : ℕ → Amount → World → World × Bool
release_hold user_id amount w =
    let r = apply_wallet_delta user_id (pos 0) (neg amount) w in
    (log_txn (LogLine.release user_id amount) r.0, r.1)

unfoldable pub settle_payment : ℕ → Amount → World → World × Bool
settle_payment user_id amount w =
    let r = apply_wallet_delta user_id (neg amount) (neg amount) w in
    (log_txn (LogLine.settle user_id amount) r.0, r.1)

unfoldable pub credit_wallet : ℕ → Amount → World → World × Bool
credit_wallet user_id amount w =
    let r = apply_wallet_delta user_id amount (pos 0) w in
    (log_txn (LogLine.credit user_id amount) r.0, r.1)

-- A request to deposit an amount that is a number; Doubles has the request as it is sent.
pub record DepositPayload : Type 0 where
  pub amount : Amount

-- The second component is the connection's copy of the user, `*u` after the call. The last read
-- cannot fail after a credit; if it did, `updated` would be what was on the stack: `u` here.
unfoldable pub handle_deposit : ℤ → DepositPayload → User → World → World × User
handle_deposit client_fd req u w =
    if leb_ℤ req.amount (pos 0)
    then (send_msg client_fd deposit_resp err_internal no_payload w, u)
    else let r = credit_wallet u.user_id req.amount w in
      if r.1
      then elim (read_user u.user_id r.0) [
        | none ↦ (send_msg client_fd deposit_resp err_ok (user_payload u) r.0, u)
        | some updated ↦
            (send_msg client_fd deposit_resp err_ok (user_payload updated) r.0, updated)
      ]
      else (send_msg client_fd deposit_resp err_internal no_payload r.0, u)

unfoldable pub handle_view_balance : ℤ → User → World → World
handle_view_balance client_fd u w = elim (read_user u.user_id w) [
  | none ↦ send_msg client_fd view_balance_resp err_internal no_payload w
  | some fresh ↦ send_msg client_fd view_balance_resp err_ok (user_payload fresh) w
]
