-- ===== src/Base/Strings.antt =====
-- Strings that were copied into a buffer with `strncpy`, compared with `strncmp`.
use Prim.Native.Nat.{ℕ, zero, suc, ◌≤◌}
use mathlib.Core.Path.{◌≡◌, refl}
use mathlib.Core.Logic.{inl, inr}
use mathlib.Core.Bool.{true}
use mathlib.Core.List.{[], ◌∷◌}
use native.Mathlib.Omega.{arith}
use native.Mathlib.Numerals.{unary_clauses}
use online_auction_system.Base.Test.{◌==◌, ==_self, ==_iff, Bool-cases}
use online_auction_system.Base.Lists.{length}
use online_auction_system.Base.Bytes.{Bytes, c_str, strncpy, strncmp_eq, zeroed}

-- A copy of `n` bytes agrees with the string in its first `n` bytes.
pub strncmp_eq-strncpy : (n : ℕ) (s : Bytes) → strncmp_eq s (strncpy (zeroed n) s n) n ≡ true
strncmp_eq-strncpy zero s = refl
strncmp_eq-strncpy (suc n) [] = simp unary_clauses refl
strncmp_eq-strncpy (suc n) (c ∷ s) = elim (Bool-cases (c == 0)) [
  | inl nul ↦ simp (nul, unary_clauses) refl
  | inr more ↦ simp (more, ==_self c, unary_clauses) (strncmp_eq-strncpy n s)
]

-- A string that leaves room for a NUL agrees with its copy, the NUL included.
pub strncpy-strncmp_eq :
    (n : ℕ) (s : Bytes)
    → length (c_str s) ≤ n
    → strncmp_eq (strncpy (zeroed (suc n)) s n) s (suc n) ≡ true
strncpy-strncmp_eq zero [] short = refl
strncpy-strncmp_eq zero (c ∷ s) short = elim (Bool-cases (c == 0)) [
  | inl nul ↦ let nothing : c ≡ 0 = (==_iff c 0).0 nul in rw nothing refl
  | inr more ↦ absurd (omega (arith, rw more at short))
]
strncpy-strncmp_eq (suc n) [] short = simp unary_clauses refl
strncpy-strncmp_eq (suc n) (c ∷ s) short = elim (Bool-cases (c == 0)) [
  | inl nul ↦ let nothing : c ≡ 0 = (==_iff c 0).0 nul in rw nothing (simp unary_clauses refl)
  | inr more ↦
      simp (more, ==_self c, unary_clauses)
        (strncpy-strncmp_eq n s (omega (arith, rw more at short)))
]
