-- ===== src/Ledger/Sums.antt =====
-- How the sums of the books change when one record is replaced or one is added.
use online_auction_system.Base.{
  ℕ, zero, suc, ◌≡◌, refl, some, arith, All, List, [], ◌∷◌, ◌++◌, get_elem?, set, ◌≤◌,
}
use online_auction_system.Base.Money.{pos, ◌+ℤ◌, ◌≤ℤ◌, money_laws, +ℤ_parts, +ℤ_under}
use online_auction_system.Models.{User, Auction}
use online_auction_system.Ledger.{claim_on, held, IsSaneAuction, total_balance}

pub held-set :
    (k : ℕ) (xs : List Auction) (i : ℕ) (a' : Auction) {a : Auction}
    → get_elem? xs i ≡ some a
    → held k (set xs i a') +ℤ claim_on k a ≡ held k xs +ℤ claim_on k a'
unfolding held
held-set k [] i a' e = cc
held-set k (x ∷ xs) zero a' {a} e = let q : x ≡ a = cc in rw q (omega money_laws)
held-set k (x ∷ xs) (suc i) a' {a} e =
    +ℤ_under (claim_on k x) (held k (set xs i a')) (claim_on k a) (held k xs) (claim_on k a')
      (held-set k xs i a' e)

pub held-append :
    (k : ℕ) (xs : List Auction) (a : Auction) → held k (xs ++ (a ∷ [])) ≡ held k xs +ℤ claim_on k a
unfolding held
held-append k [] a = omega money_laws
held-append k (x ∷ xs) a = rw (held-append k xs a) (omega money_laws)

claim_on-nonneg : (k n : ℕ) (a : Auction) → IsSaneAuction n a → pos 0 ≤ℤ claim_on k a
claim_on-nonneg k n a s = ground arith

held-nonneg : (k n : ℕ) (xs : List Auction) → All (IsSaneAuction n) xs → pos 0 ≤ℤ held k xs
unfolding held
held-nonneg k n [] s = omega arith
held-nonneg k n (a ∷ xs) s =
    let first = claim_on-nonneg k n a s.0 in let rest = held-nonneg k n xs s.1 in omega money_laws

-- One open auction's claim is part of the sum.
pub claim_on-le-held :
    (k n : ℕ) (xs : List Auction) (i : ℕ) {a : Auction}
    → All (IsSaneAuction n) xs
    → get_elem? xs i ≡ some a
    → claim_on k a ≤ℤ held k xs
unfolding held
claim_on-le-held k n [] i s e = cc
claim_on-le-held k n (x ∷ xs) zero {a} s e =
    let q : x ≡ a = cc in let rest = held-nonneg k n xs s.1 in rw (← q) (omega money_laws)
claim_on-le-held k n (x ∷ xs) (suc i) s e =
    let first = claim_on-nonneg k n x s.0 in
    let rest = claim_on-le-held k n xs i s.1 e in omega money_laws

-- Nobody above the last user has a claim.
pub held-above :
    (k n : ℕ) (xs : List Auction) → All (IsSaneAuction n) xs → suc n ≤ k → held k xs ≡ pos 0
unfolding held
held-above k n [] s h = refl
held-above k n (a ∷ xs) s h =
    rw (held-above k n xs s.1 h) (ground (arith, +ℤ_parts (claim_on k a) (pos 0)))

pub total_balance-set :
    (us : List User) (i : ℕ) (u' : User) {u : User}
    → get_elem? us i ≡ some u
    → total_balance (set us i u') +ℤ u.wallet_balance ≡ total_balance us +ℤ u'.wallet_balance
unfolding total_balance
total_balance-set [] i u' e = cc
total_balance-set (x ∷ us) zero u' {u} e = let q : x ≡ u = cc in rw q (omega money_laws)
total_balance-set (x ∷ us) (suc i) u' {u} e =
    +ℤ_under x.wallet_balance (total_balance (set us i u')) u.wallet_balance (total_balance us)
      u'.wallet_balance (total_balance-set us i u' e)

pub total_balance-append :
    (us : List User) (u : User)
    → total_balance (us ++ (u ∷ [])) ≡ total_balance us +ℤ u.wallet_balance
unfolding total_balance
total_balance-append [] u = omega money_laws
total_balance-append (x ∷ us) u = rw (total_balance-append us u) (omega money_laws)
