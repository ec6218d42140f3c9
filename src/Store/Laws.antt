-- ===== src/Store/Laws.antt =====
-- Laws of keyed record files (users.dat, auctions.dat, disputes.dat of common/file_io.h): as long
-- as record number i carries the id i + 1, reading by id finds the record with that id, and a write
-- through a record's own id changes that record alone.
use native.Mathlib.Nat.{sub_self}
use online_auction_system.Base.{
  ℕ, zero, suc, ◌+◌, ◌-◌, ◌^◌, ◌<◌, ◌≡◌, refl, true, some, List, [], ◌∷◌, ◌++◌, arith, ltb, ◌==◌,
  if◌then◌else◌, length, get_elem?, set, length-set, get_elem?-lt, get_elem?-set_self,
  get_elem?-set_ne, length-append, get_elem?-append, replicate, All, All-set, All-append,
  All-replicate, All-get, Bool-cases, inl, inr, get_elem?-some,
}
use online_auction_system.Store.{File, slot_of, records, read_at, put, write_at, next_id, replaced}

module _ {A : Type 0} (id : A → ℕ) where
  -- The records carry the ids n + 1, n + 2, ... in order.
  abbrev pub KeyedFrom : ℕ → List A → Type 0
  KeyedFrom n [] = Unit
  KeyedFrom n (x ∷ xs) = (id x ≡ n + 1) × KeyedFrom (n + 1) xs

  -- Record number i has the id i + 1, and every id fits in an `uint32_t`.
  abbrev pub IsKeyed : File A → Type 0
  IsKeyed f = KeyedFrom 0 (records f) × (length (records f) < 2 ^ 32)

  KeyedFrom-get :
      (n : ℕ) (xs : List A) (i : ℕ) {v : A}
      → KeyedFrom n xs
      → get_elem? xs i ≡ some v
      → id v ≡ n + i + 1
  KeyedFrom-get n [] i k h = cc
  KeyedFrom-get n (x ∷ xs) zero k h = ground arith
  KeyedFrom-get n (x ∷ xs) (suc i) k h = omega (arith, KeyedFrom-get (n + 1) xs i k.1 h)

  KeyedFrom-set :
      (n : ℕ) (xs : List A) (i : ℕ) (v : A)
      → KeyedFrom n xs
      → id v ≡ n + i + 1
      → KeyedFrom n (set xs i v)
  KeyedFrom-set n [] i v k h = tt
  KeyedFrom-set n (x ∷ xs) zero v k h = (omega arith, k.1)
  KeyedFrom-set n (x ∷ xs) (suc i) v k h = (k.0, KeyedFrom-set (n + 1) xs i v k.1 (omega arith))

  KeyedFrom-append :
      (n : ℕ) (xs : List A) (v : A)
      → KeyedFrom n xs
      → id v ≡ n + length xs + 1
      → KeyedFrom n (xs ++ (v ∷ []))
  KeyedFrom-append n [] v k h = (omega arith, tt)
  KeyedFrom-append n (x ∷ xs) v k h = (k.0, KeyedFrom-append (n + 1) xs v k.1 (omega arith))

  -- A record that a read finds carries the id of its place.
  pub read_at-id :
      (f : File A) (i : ℕ) {v : A}
      → IsKeyed f
      → read_at f i ≡ some v
      → (id v ≡ i + 1) × (i < length (records f))
  unfolding read_at
  read_at-id f i k h =
      (omega (arith, KeyedFrom-get 0 (records f) i k.0 h), get_elem?-lt (records f) i h)

  -- Writing back a record that was read under any id goes to the place it was read from.
  pub slot_of-read :
      (f : File A) (i : ℕ) {v : A} → IsKeyed f → read_at f i ≡ some v → slot_of (id v) ≡ i
  slot_of-read f i k h = let p = read_at-id f i k h in omega arith

  -- Replacing a record by one with the same id keeps the file keyed.
  pub replaced-IsKeyed :
      (f : File A) (i : ℕ) (v : A) {old : A}
      → IsKeyed f
      → read_at f i ≡ some old
      → id v ≡ id old
      → IsKeyed (replaced f i v)
  replaced-IsKeyed f i v k h e =
      let p = read_at-id f i k h in
      (KeyedFrom-set 0 (records f) i v k.0 (omega arith), omega (arith, length-set (records f) i v))

  module _ (zero_rec : A) where
    pub write_at-set :
        (f : File A) (i : ℕ) (v : A) {old : A}
        → read_at f i ≡ some old
        → f.writable ≡ true
        → write_at zero_rec f i v ≡ (replaced f i v, true)
    unfolding write_at read_at
    write_at-set f i v h w = ground (arith, get_elem?-lt (records f) i h)

    -- The same for a record that is written through its own id.
    pub write_back :
        (f : File A) (i : ℕ) (v : A) {old : A}
        → IsKeyed f
        → read_at f i ≡ some old
        → id v ≡ id old
        → f.writable ≡ true
        → write_at zero_rec f (slot_of (id v)) v ≡ (replaced f i v, true)
    write_back f i v {old} k h e w = rw (e, slot_of-read f i k h) (write_at-set f i v h w)

    put-end : (xs : List A) (i : ℕ) (v : A) → i ≡ length xs → put zero_rec xs i v ≡ xs ++ (v ∷ [])
    put-end xs i v e = rw e (ground (arith, no_gap))
      where
        no_gap : replicate (length xs - length xs) zero_rec ≡ []
        no_gap = rw sub_self refl

    -- A record under the next id is appended.
    pub write_at-next_id :
        (f : File A) (v : A)
        → length (records f) + 1 < 2 ^ 32
        → id v ≡ next_id f
        → f.writable ≡ true
        → write_at zero_rec f (slot_of (id v)) v
          ≡ (record f { contents = some (records f ++ (v ∷ [])) }, true)
    unfolding write_at next_id
    write_at-next_id f v small e w =
        rw (w, put-end (records f) (slot_of (id v)) v (omega arith)) refl

    -- The file with it stays keyed, while ids do not run out.
    pub append-IsKeyed :
        (f : File A) (v : A)
        → IsKeyed f
        → length (records f) + 1 < 2 ^ 32
        → id v ≡ next_id f
        → IsKeyed (record f { contents = some (records f ++ (v ∷ [])) })
    unfolding next_id
    append-IsKeyed f v k small e = (
      KeyedFrom-append 0 (records f) v k.0 (omega arith),
      omega (arith, length-append (records f) (v ∷ [])),
    )

    pub read_at-append :
        (f : File A) (v : A) (j : ℕ)
        → read_at (record f { contents = some (records f ++ (v ∷ [])) }) j
          ≡ (if j == length (records f) then some v else read_at f j)
    unfolding read_at
    read_at-append f v j = get_elem?-append (records f) v j

-- What a reader finds after a record was replaced.
pub read_at-replaced :
    {A : Type 0} (f : File A) (i j : ℕ) (v : A) {old : A}
    → read_at f i ≡ some old
    → read_at (replaced f i v) j ≡ (if j == i then some v else read_at f j)
unfolding read_at
read_at-replaced f i j v h = ground (
  arith,
  get_elem?-lt (records f) i h,
  get_elem?-set_self (records f) i v,
  get_elem?-set_ne (records f) i j v,
)

module _ {A : Type 0} (P : A → Type 0) where
  -- A property of every record, the zero record included, survives a write of a record that has it.
  pub All-write_at :
      (zero_rec : A) (f : File A) (i : ℕ) (v : A)
      → P zero_rec
      → P v
      → All P (records f)
      → All P (records (write_at zero_rec f i v).0)
  unfolding write_at
  All-write_at z f i v pz pv h = elim (Bool-cases f.writable) [
    | inr no_write ↦ rw no_write h
    | inl can_write ↦ rw can_write (elim (Bool-cases (ltb i (length (records f)))) [
      | inl inside ↦ rw inside (All-set P (records f) i v h pv)
      | inr past ↦ rw past (
          All-append P (records f) _ h (
            All-append P (replicate (i - length (records f)) z) _ (All-replicate P _ z pz)
              (pv, tt)))
    ])
  ]

  pub All-read_at : (f : File A) (i : ℕ) {v : A} → All P (records f) → read_at f i ≡ some v → P v
  unfolding read_at
  All-read_at f i h e = All-get P (records f) i h e

pub read_at-some :
    {A : Type 0} (f : File A) (i : ℕ) → i < length (records f) → (v : A) × (read_at f i ≡ some v)
unfolding read_at
read_at-some f i h = get_elem?-some (records f) i h

pub length-replaced :
    {A : Type 0} (f : File A) (i : ℕ) (v : A)
    → length (records (replaced f i v)) ≡ length (records f)
length-replaced f i v = length-set (records f) i v

pub read_at-get :
    {A : Type 0} (f : File A) (i : ℕ) {v : A}
    → read_at f i ≡ some v
    → get_elem? (records f) i ≡ some v
unfolding read_at
read_at-get f i e = e
