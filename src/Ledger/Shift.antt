-- ===== src/Ledger/Shift.antt =====
-- Changes of the wallets alone, measured user by user: what a sequence of calls to the functions of
-- server/wallet.c adds to the balance and to the hold of each record of users.dat.
use online_auction_system.Base.{
  ℕ, ◌≡◌, refl, some, arith, ◌==◌, if◌then◌else◌, length, ◌∙◌, sym, Bool-cases, inl, inr, ==_iff,
  set,
}
use online_auction_system.Base.Money.{
  pos, neg, ◌+ℤ◌, ◌-ℤ◌, ◌≤ℤ◌, money_laws, +ℤ-zero, +ℤ_assoc, +ℤ_cancel_right,
}
use online_auction_system.Models.{Amount, User}
use online_auction_system.Store.{records, read_at, slot_of}
use online_auction_system.Store.Laws.{length-replaced, read_at-replaced, read_at-get, All-read_at}
use online_auction_system.World.{World}
use online_auction_system.World.FileIo.{read_user}
use online_auction_system.Ledger.{total_balance}
use online_auction_system.Ledger.Sums.{total_balance-set}
use online_auction_system.Wallet.{place_hold, release_hold, settle_payment, credit_wallet}
use online_auction_system.Wallet.Sound.{
  IsSoundUser, WalletsSound, place_hold-WalletsSound, release_hold-WalletsSound,
  settle_payment-WalletsSound, credit_wallet-WalletsSound,
}
use online_auction_system.Wallet.Effect.{
  UsersReady, with_user, with_user-ready, moved, place_hold_lem, release_hold_lem,
  settle_payment_lem, credit_wallet_lem,
}

-- From `w` to `w'` the record in slot i gains `b i` in its balance and `h i` in its hold, and the
-- balances together gain `t`.
pub record Shift (w w' : World) (t : Amount) (b h : ℕ → Amount) : Type 0 where
  pub ready : UsersReady w'
  pub sound : WalletsSound w'
  pub size : length (records w'.users) ≡ length (records w.users)
  pub same_auctions : w'.auctions ≡ w.auctions
  pub total : total_balance (records w'.users) ≡ total_balance (records w.users) +ℤ t
  pub back :
      (i : ℕ) (u' : User)
      → read_at w'.users i ≡ some u'
      → (u : User) × (read_at w.users i ≡ some u)
        × (u'.wallet_balance ≡ u.wallet_balance +ℤ b i)
        × (u'.wallet_hold ≡ u.wallet_hold +ℤ h i)

-- `a` in the slot of `k`, and nothing elsewhere.
abbrev pub only : ℕ → Amount → ℕ → Amount
only k a i = if i == slot_of k then a else pos 0

abbrev pub nothing : ℕ → Amount
nothing i = pos 0

pub Shift-refl : {w : World} → UsersReady w → WalletsSound w → Shift w w (pos 0) nothing nothing
Shift-refl {w} ready sound = record {
  ready = ready;
  sound = sound;
  size = refl;
  same_auctions = refl;
  total = sym (+ℤ-zero (total_balance (records w.users)));
  back = λ i u' e. (u', e, sym (+ℤ-zero u'.wallet_balance), sym (+ℤ-zero u'.wallet_hold));
}

-- The other files do not matter.
pub Shift-files :
    {w w' w'' : World} {t : Amount} {b h : ℕ → Amount}
    → w''.users ≡ w'.users
    → w''.auctions ≡ w'.auctions
    → Shift w w' t b h
    → Shift w w'' t b h
Shift-files eu ea s = record {
  ready = record { keyed = rw eu s.ready.keyed; writable = rw eu s.ready.writable };
  sound = rw eu s.sound;
  size = rw eu s.size;
  same_auctions = rw ea s.same_auctions;
  total = rw eu s.total;
  back = rw eu s.back;
}

pub Shift-from :
    {v w w' : World} {t : Amount} {b h : ℕ → Amount}
    → v.users ≡ w.users
    → v.auctions ≡ w.auctions
    → Shift v w' t b h
    → Shift w w' t b h
Shift-from eu ea s = record {
  ready = s.ready;
  sound = s.sound;
  size = rw (← eu) s.size;
  same_auctions = rw (← ea) s.same_auctions;
  total = rw (← eu) s.total;
  back = rw (← eu) s.back;
}

pub Shift-trans :
    {w w' w'' : World} {t t' : Amount} {b h b' h' : ℕ → Amount}
    → Shift w w' t b h
    → Shift w' w'' t' b' h'
    → Shift w w'' (t +ℤ t') (λ i. b i +ℤ b' i) (λ i. h i +ℤ h' i)
Shift-trans {w} {t = t} {t' = t'} {b = b} {h = h} {b' = b'} {h' = h'} p q = record {
  ready = q.ready;
  sound = q.sound;
  size = q.size ∙ p.size;
  same_auctions = q.same_auctions ∙ p.same_auctions;
  total = q.total ∙ rw p.total (+ℤ_assoc (total_balance (records w.users)) t t');
  back = λ i u'' e.
      let (u', e', eb', eh') = q.back i u'' e in
      let (u, e0, eb, eh) = p.back i u' e' in
      (
        u,
        e0,
        eb' ∙ rw eb (+ℤ_assoc u.wallet_balance (b i) (b' i)),
        eh' ∙ rw eh (+ℤ_assoc u.wallet_hold (h i) (h' i)),
      );
}

module _ {w : World} (ready : UsersReady w) (sound : WalletsSound w) (k : ℕ) {u : User}
    (found : read_user k w ≡ some u) where
  -- Replacing one user's record by the moved one.
  moved-Shift :
      (b h : Amount)
      → WalletsSound (with_user k (moved u b h) w)
      → Shift w (with_user k (moved u b h) w) b (only k b) (only k h)
  moved-Shift b h s = record {
    ready = with_user-ready ready k found (moved u b h) refl;
    sound = s;
    size = length-replaced w.users (slot_of k) (moved u b h);
    same_auctions = refl;
    total =
        +ℤ_cancel_right (total_balance (records w.users))
          (total_balance (set (records w.users) (slot_of k) (moved u b h))) u.wallet_balance b
          (total_balance-set (records w.users) (slot_of k) (moved u b h)
            (read_at-get w.users (slot_of k) found));
    back = λ i u' e.
        let r = sym (read_at-replaced w.users (slot_of k) i (moved u b h) found) ∙ e in
        elim (Bool-cases (i == slot_of k)) [
          | inl same ↦ (
            u,
            rw ((==_iff i (slot_of k)).0 same) found,
            rw same (ground (arith, r)),
            rw same (ground (arith, r)),
          )
          | inr other ↦ (
            u',
            ground (arith, r),
            rw other (sym (+ℤ-zero u'.wallet_balance)),
            rw other (sym (+ℤ-zero u'.wallet_hold)),
          )
        ];
  }

  module _ (a : Amount) (p : pos 0 ≤ℤ a) where
    found_sound : IsSoundUser u
    found_sound = All-read_at IsSoundUser w.users (slot_of k) sound found

    pub place_hold-Shift :
        a ≤ℤ u.wallet_balance -ℤ u.wallet_hold
        → Shift w (place_hold k a w).0 (pos 0) (only k (pos 0)) (only k a)
    place_hold-Shift q =
        let e = place_hold_lem ready k found a found_sound p q in
        let s = place_hold-WalletsSound k a w sound in
        rw e (Shift-files refl refl (moved-Shift (pos 0) a (rw e at s)))

    pub release_hold-Shift :
        a ≤ℤ u.wallet_hold
        → Shift w (release_hold k a w).0 (pos 0) (only k (pos 0)) (only k (neg a))
    release_hold-Shift q =
        let e = release_hold_lem ready k found a found_sound p q in
        let s = release_hold-WalletsSound k a w sound in
        rw e (Shift-files refl refl (moved-Shift (pos 0) (neg a) (rw e at s)))

    pub settle_payment-Shift :
        a ≤ℤ u.wallet_hold
        → Shift w (settle_payment k a w).0 (neg a) (only k (neg a)) (only k (neg a))
    settle_payment-Shift q =
        let e = settle_payment_lem ready k found a found_sound p q in
        let s = settle_payment-WalletsSound k a w sound in
        rw e (Shift-files refl refl (moved-Shift (neg a) (neg a) (rw e at s)))

    pub credit_wallet-Shift : Shift w (credit_wallet k a w).0 a (only k a) (only k (pos 0))
    credit_wallet-Shift =
        let fs = found_sound in
        let e = credit_wallet_lem ready k found a fs (omega money_laws) in
        let s = credit_wallet-WalletsSound k a w sound in
        rw e (Shift-files refl refl (moved-Shift a (pos 0) (rw e at s)))
