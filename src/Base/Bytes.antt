-- ===== src/Base/Bytes.antt =====
-- C strings in fixed buffers. A buffer is the list of all its bytes; what the string functions see
-- of it ends before its first NUL.
use Prim.Native.Nat.{ℕ, zero, suc, ◌-◌}
use mathlib.Core.Bool.{Bool, true, false}
use mathlib.Core.List.{List, [], ◌∷◌, ◌++◌}
use online_auction_system.Base.Test.{◌==◌, if◌then◌else◌}
use online_auction_system.Base.Lists.{length, take, drop, replicate}

abbrev pub Bytes : Type 0
Bytes = List ℕ

-- The bytes before the first NUL.
abbrev pub c_str : Bytes → Bytes
c_str [] = []
c_str (c ∷ s) = if c == 0 then [] else c ∷ c_str s

-- `memset(buf, 0, n)`
abbrev pub zeroed : ℕ → Bytes
zeroed n = replicate n 0

-- What `strncpy(dst, src, n)` leaves in `dst`: `n` bytes, padded with NULs, and the rest as it was.
abbrev pub strncpy : Bytes → Bytes → ℕ → Bytes
strncpy dst src n = let s = take n (c_str src) in s ++ (zeroed (n - length s) ++ drop n dst)

-- `strncmp(a, b, n) == 0`. The end of a list reads as a NUL.
abbrev pub strncmp_eq : Bytes → Bytes → ℕ → Bool
strncmp_eq a b zero = true
strncmp_eq [] [] (suc n) = true
strncmp_eq [] (d ∷ b) (suc n) = d == 0
strncmp_eq (c ∷ a) [] (suc n) = c == 0
strncmp_eq (c ∷ a) (d ∷ b) (suc n) =
    let rest = strncmp_eq a b n in if c == d then (if c == 0 then true else rest) else false
