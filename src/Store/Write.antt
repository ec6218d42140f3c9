-- ===== src/Store/Write.antt =====
-- What `write_record_at` of common/file_io.h leaves in a file that can be opened for writing, and in
-- one that cannot.
use online_auction_system.Base.{
  ℕ, ◌-◌, ◌≤◌, ◌≡◌, refl, true, false, [], ◌∷◌, ◌++◌, arith, length, length-set, length-append,
  replicate,
}
use online_auction_system.Store.{File, records, put, write_at}

module _ {A : Type 0} (zero_rec : A) (f : File A) (i : ℕ) (v : A) where
  pub write_at-writable :
      f.writable ≡ true → records (write_at zero_rec f i v).0 ≡ put zero_rec (records f) i v
  unfolding write_at
  write_at-writable e = rw e refl

  pub write_at-refused : f.writable ≡ false → records (write_at zero_rec f i v).0 ≡ records f
  unfolding write_at
  write_at-refused e = rw e refl

-- A write never makes a file shorter.
pub length-write_at :
    {A : Type 0} (zero_rec : A) (f : File A) (i : ℕ) (v : A)
    → length (records f) ≤ length (records (write_at zero_rec f i v).0)
unfolding write_at
length-write_at z f i v = ground (
  arith,
  length-set (records f) i v,
  length-append (records f) (replicate (i - length (records f)) z ++ (v ∷ [])),
)
