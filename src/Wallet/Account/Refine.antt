-- ===== src/Wallet/Account/Refine.antt =====
-- The wallet functions of server/wallet.c implement the operations on accounts.
use mathlib.Core.Option
use online_auction_system.Base.{
  ℕ, ◌≡◌, refl, true, false, Option, none, some, arith, inl, inr, Option-cases, ap, ◌==◌,
  Bool-cases, ==_iff, ◌∙◌, sym,
}
use online_auction_system.Base.Money.{pos, neg, ◌-ℤ◌, ◌≤ℤ◌, ltb_ℤ}
use online_auction_system.Models.{Amount, User}
use online_auction_system.Store.{slot_of, read_at}
use online_auction_system.Store.Laws.{All-read_at}
use online_auction_system.World.{World}
use online_auction_system.World.FileIo.{read_user}
use online_auction_system.Wallet.{
  delta_user, apply_wallet_delta, place_hold, release_hold, settle_payment, credit_wallet,
}
use online_auction_system.Wallet.Sound.{IsSoundUser, WalletsSound}
use online_auction_system.Wallet.Effect.{
  UsersReady, with_user, read_user-with_user, write_user-with_user,
}
use online_auction_system.Wallet.Account.{
  freeze-Simulates, Account, account_of, account, freeze, thaw, pay, earn, Refines, Simulates, bind,
  thaw-Simulates, pay-Simulates, earn-Simulates,
}

delta_user-id : (u u' : User) (b h : Amount) → delta_user u b h ≡ some u' → u'.user_id ≡ u.user_id
unfolding delta_user
delta_user-id u u' b h e = ground arith

-- A call that changes no record refines an operation that is not possible.
idle-Refines :
    (op : Account → Option Account) (k : ℕ) (w : World)
    → bind op (account k w) ≡ none
    → Refines op k w (w, false)
idle-Refines op k w e = record {
  result = rw e refl;
  accounts = λ j. rw e (elim (Bool-cases (slot_of j == slot_of k)) [
    | inl same ↦ rw same (ap (λ i. Option.map account_of (read_at w.users i)) ((==_iff _ _).0 same))
    | inr other ↦ rw other refl
  ]);
}

module _ {w : World} (ready : UsersReady w) (sound : WalletsSound w) (k : ℕ) where
  written-Refines :
      (op : Account → Option Account) (u u' : User)
      → read_user k w ≡ some u
      → u'.user_id ≡ u.user_id
      → op (account_of u) ≡ some (account_of u')
      → Refines op k w (with_user k u' w, true)
  written-Refines op u u' found same e = record {
    result = rw (found, e) refl;
    accounts = λ j.
        rw (found, e)
          (rw (read_user-with_user ready k found u' j) (elim (Bool-cases (slot_of j == slot_of k)) [
            | inl same ↦ rw same refl
            | inr other ↦ rw other refl
          ]));
  }

  apply_wallet_delta-Refines :
      (op : Account → Option Account) (b h : Amount)
      → Simulates op b h
      → Refines op k w (apply_wallet_delta k b h w)
  unfolding apply_wallet_delta
  apply_wallet_delta-Refines op b h sim = elim (Option-cases (read_user k w)) [
    | inl absent ↦ rw (absent, apply_wallet_delta) (idle-Refines op k w (rw absent refl))
    | inr (u, found) ↦
        let same = sim u (All-read_at IsSoundUser w.users (slot_of k) sound found) in
        elim (Option-cases (delta_user u b h)) [
          | inl guard ↦
              rw (found, guard, apply_wallet_delta)
                (idle-Refines op k w (rw found (sym same ∙ ap (Option.map account_of) guard)))
          | inr (u', e) ↦
              let kept = delta_user-id u u' b h e in
              rw (found, e, apply_wallet_delta)
                (rw (write_user-with_user ready k found u' kept)
                  (written-Refines op u u' found kept (sym same ∙ ap (Option.map account_of) e)))
        ]
  ]

  module _ (a : Amount) (p : pos 0 ≤ℤ a) where
    release_hold-Refines : Refines (thaw a) k w (release_hold k a w)
    unfolding release_hold
    release_hold-Refines =
        let r = apply_wallet_delta-Refines (thaw a) (pos 0) (neg a) (thaw-Simulates a p) in
        record { result = r.result; accounts = r.accounts }

    settle_payment-Refines : Refines (pay a) k w (settle_payment k a w)
    unfolding settle_payment
    settle_payment-Refines =
        let r = apply_wallet_delta-Refines (pay a) (neg a) (neg a) (pay-Simulates a p) in
        record { result = r.result; accounts = r.accounts }

    credit_wallet-Refines : Refines (earn a) k w (credit_wallet k a w)
    unfolding credit_wallet
    credit_wallet-Refines =
        let r = apply_wallet_delta-Refines (earn a) a (pos 0) (earn-Simulates a p) in
        record { result = r.result; accounts = r.accounts }

    place_hold-Refines : Refines (freeze a) k w (place_hold k a w)
    unfolding place_hold
    place_hold-Refines = elim (Option-cases (read_user k w)) [
      | inl absent ↦ rw (absent, place_hold) (idle-Refines (freeze a) k w (rw absent refl))
      | inr (u, found) ↦ elim (Bool-cases (ltb_ℤ (u.wallet_balance -ℤ u.wallet_hold) a)) [
        | inl short ↦
            rw (found, short, place_hold) (idle-Refines (freeze a) k w (rw found (ground arith)))
        | inr enough ↦
            let r = apply_wallet_delta-Refines (freeze a) (pos 0) a (freeze-Simulates a p) in
            rw (found, enough, place_hold) (record { result = r.result; accounts = r.accounts })
      ]
    ]

-- On sound wallets the four wallet functions are the four operations on accounts, for every amount
-- that is not negative: they succeed exactly when the operation is possible, change the account of
-- the given user as it does, and leave every other account alone.
pub wallet_functions-Refines :
    {w : World}
    → UsersReady w
    → WalletsSound w
    → (k : ℕ) (a : Amount) → pos 0 ≤ℤ a
    → Refines (freeze a) k w (place_hold k a w)
      × Refines (thaw a) k w (release_hold k a w)
      × Refines (pay a) k w (settle_payment k a w)
      × Refines (earn a) k w (credit_wallet k a w)
wallet_functions-Refines ready sound k a p = (
  place_hold-Refines ready sound k a p,
  release_hold-Refines ready sound k a p,
  settle_payment-Refines ready sound k a p,
  credit_wallet-Refines ready sound k a p,
)
