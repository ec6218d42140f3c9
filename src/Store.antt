-- ===== src/Store.antt =====
-- The file layer under common/file_io.h: a data file is a sequence of fixed-size records.
-- `contents` is `none` while the file does not exist; a file that is not `writable` refuses every
-- `open` for writing. Once it is open, a seek, read or write of a whole record succeeds.
pub mod Laws
pub mod Scan
pub mod Write
use online_auction_system.Base.{
  ℕ, ◌+◌, ◌-◌, ◌^◌, ◌%◌, Bool, true, false, Option, none, some, List, [], ◌∷◌, ◌++◌, ltb,
  if◌then◌else◌, length, get_elem?, set, replicate,
}
use online_auction_system.Models.{u32}

pub record File (A : Type 0) : Type 0 where
  pub contents : Option (List A)
  pub writable : Bool

-- The record index `(off_t)(id - 1)`: the subtraction is on `uint32_t` and wraps at id 0.
abbrev pub slot_of : ℕ → ℕ
slot_of id = (id + 2 ^ 32 - 1) % 2 ^ 32

module _ {A : Type 0} where
  -- The records in the file; none if it does not exist.
  abbrev pub records : File A → List A
  records f = elim f.contents [ none ↦ [] | some xs ↦ xs ]

  -- `lseek` to record `i`, then `read`: a short read is a failure.
  unfoldable pub read_at : File A → ℕ → Option A
  read_at f i = get_elem? (records f) i

  -- The records after a `write` of `v` at record `i`; past the end the gap reads as zero bytes.
  abbrev pub put : A → List A → ℕ → A → List A
  put zero_rec xs i v =
      if ltb i (length xs)
      then set xs i v
      else xs ++ (replicate (i - length xs) zero_rec ++ (v ∷ []))

  -- `open(OPEN_RW)`, `lseek`, `write`: the file after it, and whether it returned 0.
  unfoldable pub write_at : A → File A → ℕ → A → File A × Bool
  write_at zero_rec f i v =
      if f.writable
      then (record f { contents = some (put zero_rec (records f) i v) }, true)
      else (f, false)

  -- `open(OPEN_APP)`, `write`.
  pub append_record : File A → A → File A × Bool
  append_record f v =
      if f.writable
      then (record f { contents = some (records f ++ (v ∷ [])) }, true)
      else (f, false)

  -- `(uint32_t)(size / sizeof(A)) + 1`, on `uint32_t`; 1 if the file does not exist.
  unfoldable pub next_id : File A → ℕ
  next_id f = u32 (u32 (length (records f)) + 1)

  -- The file with record `i` replaced.
  abbrev pub replaced : File A → ℕ → A → File A
  replaced f i v = record f { contents = some (set (records f) i v) }
