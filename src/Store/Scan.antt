-- ===== src/Store/Scan.antt =====
-- The loops of the handlers over a whole data file: collecting the records that pass a test into an
-- array of fixed size, and rewriting records in place.
use online_auction_system.Base.{
  ℕ, zero, suc, ◌+◌, ◌≤◌, ◌≡◌, refl, Bool, none, some, List, [], ◌∷◌, arith, ltb, if◌then◌else◌,
  length, take, filter, length-take,
}
use online_auction_system.Store.{File}

module _ {A : Type 0} where
  -- `while (read(fd, &x) == sizeof(x) && count < limit) { if (p(x)) list[count++] = x; }`
  unfoldable pub collect_from : (A → Bool) → ℕ → ℕ → List A → List A
  collect_from p limit count [] = []
  collect_from p limit count (x ∷ xs) =
      let rest = collect_from p limit (if p x then count + 1 else count) xs in
      if ltb count limit then (if p x then x ∷ rest else rest) else []

  unfoldable pub collect : (A → Bool) → ℕ → List A → List A
  unfolding collect_from
  collect p limit = collect_from p limit 0

  -- `while (read(fd, &x) == sizeof(x)) { if (p(x)) { x = f(x); lseek(fd, offset); write(fd, &x); } }`
  unfoldable pub rewrite_where : (A → Bool) → (A → A) → List A → List A
  rewrite_where p f [] = []
  rewrite_where p f (x ∷ xs) = (if p x then f x else x) ∷ rewrite_where p f xs

  -- The same on a file that is opened with `O_RDWR`; nothing happens if it cannot be opened.
  unfoldable pub rewrite_file : (A → Bool) → (A → A) → File A → File A
  unfolding rewrite_where
  rewrite_file p f file = elim file.contents [
    | none ↦ file
    | some xs ↦
        if file.writable then record file { contents = some (rewrite_where p f xs) } else file
  ]

  take-collect_from :
      (p : A → Bool) (limit count room : ℕ) (xs : List A)
      → count + room ≡ limit
      → collect_from p limit count xs ≡ take room (filter p xs)
  unfolding collect_from
  take-collect_from p limit count zero [] e = refl
  take-collect_from p limit count (suc room) [] e = refl
  take-collect_from p limit count zero (x ∷ xs) e = ground arith
  take-collect_from p limit count (suc room) (x ∷ xs) e = ground (
    arith,
    take-collect_from p limit (count + 1) room xs,
    take-collect_from p limit count (suc room) xs,
  )

  -- The loop gives the first `limit` records that pass the test, in the order of the file.
  pub collect-eq-take :
      (p : A → Bool) (limit : ℕ) (xs : List A) → collect p limit xs ≡ take limit (filter p xs)
  unfolding collect
  collect-eq-take p limit xs = take-collect_from p limit 0 limit xs (omega arith)

  pub length-collect :
      (p : A → Bool) (limit : ℕ) (xs : List A) → length (collect p limit xs) ≤ limit
  length-collect p limit xs =
      rw (collect-eq-take p limit xs) (omega (arith, length-take limit (filter p xs)))
