-- ===== src/Ledger/Users.antt =====
-- Writing a user back (server/auth.c, server/admin.c, server/dispute.c, server/wallet.c) with the hold
-- as it was keeps the books, and so does a new user.
use online_auction_system.Base.{
  ℕ, suc, ◌+◌, ◌^◌, ◌<◌, ◌≡◌, refl, sym, subst, ◌∙◌, some, arith, ◌==◌, ==_iff, Bool-cases, inl,
  inr, length, length-append, All-set, All-append, All-imp, List, [], ◌∷◌, ◌++◌,
}
use online_auction_system.Base.Money.{+ℤ-zero, pos}
use online_auction_system.Models.{Amount, User, Auction, zero_user}
use online_auction_system.Store.{records, read_at, slot_of}
use online_auction_system.Store.Laws.{
  All-read_at, read_at-replaced, length-replaced, write_at-next_id, append-IsKeyed, read_at-append,
}
use online_auction_system.World.{World}
use online_auction_system.World.FileIo.{read_user, write_user, next_user_id}
use online_auction_system.Wallet.{delta_user, credit_wallet}
use online_auction_system.Wallet.Sound.{
  IsSoundUser, delta_user-IsSoundUser, apply_wallet_delta-cases,
}
use online_auction_system.Wallet.Effect.{user_key, with_user, with_user-ready, write_user-with_user}
use online_auction_system.Ledger.{held, IsSaneAuction, BooksMatch}
use online_auction_system.Ledger.Update.{BooksMatch-files}
use online_auction_system.Ledger.Sums.{held-above}

same_hold : {u v : User} → some u ≡ some v → v.wallet_hold ≡ u.wallet_hold
same_hold e = cc

module _ {w : World} (m : BooksMatch w) (k : ℕ) {u : User} (found : read_user k w ≡ some u) where
  with_user-holds :
      (u' : User)
      → u'.wallet_hold ≡ u.wallet_hold
      → (i : ℕ) (v : User) → read_at (with_user k u' w).users i ≡ some v
      → v.wallet_hold ≡ held (suc i) (records w.auctions)
  with_user-holds u' hold i v e = elim (Bool-cases (i == slot_of k)) [
    | inl same ↦
        let q : some u' ≡ some v =
          rw same at (sym (read_at-replaced w.users (slot_of k) i u' found) ∙ e) in
        let here : i ≡ slot_of k = (==_iff i (slot_of k)).0 same in
        same_hold q ∙ hold ∙ rw here (m.holds (slot_of k) u found)
    | inr other ↦
        let q : read_at w.users i ≡ some v =
          rw other at (sym (read_at-replaced w.users (slot_of k) i u' found) ∙ e) in
        m.holds i v q
  ]

  -- The user is written back with the same id and hold, and a sound wallet.
  pub with_user-BooksMatch :
      (u' : User)
      → u'.user_id ≡ u.user_id
      → u'.wallet_hold ≡ u.wallet_hold
      → IsSoundUser u'
      → BooksMatch (with_user k u' w)
  with_user-BooksMatch u' id hold sound = record {
    users_ready = with_user-ready m.users_ready k found u' id;
    auctions_ready = record {
      keyed = m.auctions_ready.keyed;
      writable = m.auctions_ready.writable;
    };
    sound = All-set IsSoundUser (records w.users) (slot_of k) u' m.sound sound;
    sane = rw (length-replaced w.users (slot_of k) u') m.sane;
    holds = with_user-holds u' hold;
  }

  pub write_user-BooksMatch :
      (u' : User)
      → u'.user_id ≡ u.user_id
      → u'.wallet_hold ≡ u.wallet_hold
      → IsSoundUser u'
      → BooksMatch (write_user u' w).0
  write_user-BooksMatch u' id hold sound =
      subst (λ r. BooksMatch r.0) (sym (write_user-with_user m.users_ready k found u' id))
        (with_user-BooksMatch u' id hold sound)

-- The new record of a change of the balance alone.
delta_user-balance :
    (u u' : User) (b : Amount)
    → IsSoundUser u
    → delta_user u b (pos 0) ≡ some u'
    → (u'.user_id ≡ u.user_id) × (u'.wallet_hold ≡ u.wallet_hold)
unfolding delta_user
delta_user-balance u u' b s e = ground (arith, +ℤ-zero u.wallet_hold)

-- A change of a balance by any amount, positive or negative, keeps the books.
pub credit_wallet-BooksMatch :
    (k : ℕ) (b : Amount) {w : World} → BooksMatch w → BooksMatch (credit_wallet k b w).0
unfolding credit_wallet
credit_wallet-BooksMatch k b {w} m = BooksMatch-files refl refl (
    apply_wallet_delta-cases (λ r. BooksMatch r.0) k b (pos 0) w m
      λ u u' found e.
        let s = All-read_at IsSoundUser w.users (slot_of k) m.sound found in
        let q = delta_user-balance u u' b s e in
        write_user-BooksMatch m k found u' q.0 q.1 (delta_user-IsSoundUser u u' b (pos 0) e))

-- The state with one more user.
abbrev more_users : User → World → World
more_users u w = record w {
  users = record w.users { contents = some (records w.users ++ (u ∷ [])) };
}

sane_more :
    (n : ℕ) (u : User) (us : List User) (a : Auction)
    → length us ≡ n
    → IsSaneAuction n a
    → IsSaneAuction (length (us ++ (u ∷ []))) a
sane_more n u us a e s = omega (arith, length-append us (u ∷ []))

more_users-holds :
    {w : World} (u : User)
    → BooksMatch w
    → u.wallet_hold ≡ pos 0
    → (i : ℕ) (v : User) → read_at (more_users u w).users i ≡ some v
    → v.wallet_hold ≡ held (suc i) (records w.auctions)
more_users-holds {w} u m hold i v e = elim (Bool-cases (i == length (records w.users))) [
  | inl last ↦
      let q : some u ≡ some v =
        rw last at (sym (read_at-append user_key zero_user w.users u i) ∙ e) in
      same_hold q
      ∙ hold
      ∙ sym
          (held-above (suc i) (length (records w.users)) (records w.auctions) m.sane (ground arith))
  | inr other ↦
      let q : read_at w.users i ≡ some v =
        rw other at (sym (read_at-append user_key zero_user w.users u i) ∙ e) in
      m.holds i v q
]

more_users-BooksMatch :
    {w : World} (u : User)
    → BooksMatch w
    → length (records w.users) + 1 < 2 ^ 32
    → u.user_id ≡ next_user_id w
    → u.wallet_hold ≡ pos 0
    → u.wallet_balance ≡ pos 0
    → BooksMatch (more_users u w)
more_users-BooksMatch {w} u m small id hold balance = record {
  users_ready = record {
    keyed = append-IsKeyed user_key zero_user w.users u m.users_ready.keyed small id;
    writable = m.users_ready.writable;
  };
  auctions_ready = record { keyed = m.auctions_ready.keyed; writable = m.auctions_ready.writable };
  sound =
      All-append IsSoundUser (records w.users) (u ∷ []) m.sound
        ((rw hold (omega arith), rw (hold, balance) (omega arith)), tt);
  sane =
      All-imp (IsSaneAuction (length (records w.users)))
        (IsSaneAuction (length (records w.users ++ (u ∷ [])))) (records w.auctions)
        (λ a. sane_more (length (records w.users)) u (records w.users) a refl) m.sane;
  holds = more_users-holds u m hold;
}

-- A new user with an empty wallet.
pub write_user-new :
    {w : World} (u : User)
    → BooksMatch w
    → length (records w.users) + 1 < 2 ^ 32
    → u.user_id ≡ next_user_id w
    → u.wallet_hold ≡ pos 0
    → u.wallet_balance ≡ pos 0
    → BooksMatch (write_user u w).0
write_user-new {w} u m small id hold balance =
    subst (λ r. BooksMatch (record w { users = r.0 }))
      (sym (write_at-next_id user_key zero_user w.users u small id m.users_ready.writable))
      (more_users-BooksMatch u m small id hold balance)
