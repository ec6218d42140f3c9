-- ===== src/Admin/NewUser.antt =====
-- What `handle_add_user` of server/admin.c stores.
use online_auction_system.Base.{
  ◌+◌, ◌^◌, ◌<◌, ◌≡◌, refl, none, true, Option, Bool-cases, inl, inr, length, [], ◌∷◌, ◌++◌, set,
  ap, ◌∙◌,
}
use online_auction_system.Base.Money.{ℤ}
use online_auction_system.Base.Bytes.{Bytes, c_str}
use online_auction_system.Models.{User, zero_user}
use online_auction_system.Store.{records}
use online_auction_system.Store.Laws.{write_at-next_id}
use online_auction_system.World.{World}
use online_auction_system.World.FileIo.{write_user, find_user_by_username}
use online_auction_system.Wallet.Effect.{UsersReady, user_key}
use online_auction_system.Hash.{sha256_hex}
use online_auction_system.Admin.{AddUserPayload, store_digest, new_user, handle_add_user}

-- A name cut short by a NUL at its first byte reads as the empty string.
c_str-set_first : (s : Bytes) → c_str (set s 0 0) ≡ []
c_str-set_first [] = refl
c_str-set_first (c ∷ s) = refl

module _ (popen : Bytes → Option Bytes) (fd : ℤ) (req : AddUserPayload) where
  -- The record that is written.
  abbrev pub stored : World → User
  stored w = store_digest (sha256_hex popen req.password) (new_user req w)

  handle_add_user-users :
      (w : World)
      → w.users.writable ≡ true
      → find_user_by_username req.username w ≡ none
      → (handle_add_user popen fd req w).users ≡ (write_user (stored w) w).0.users
  unfolding handle_add_user
  handle_add_user-users w ok free =
      rw (free, handle_add_user)
        (elim (Bool-cases (write_user (stored w) w).1) [
          | inl wrote ↦ rw (wrote, handle_add_user) refl
          | inr failed ↦ rw (failed, handle_add_user) refl
        ])

  pub records-handle_add_user :
      {w : World}
      → UsersReady w
      → length (records w.users) + 1 < 2 ^ 32
      → find_user_by_username req.username w ≡ none
      → records (handle_add_user popen fd req w).users ≡ records w.users ++ (stored w ∷ [])
  records-handle_add_user {w} ready small free = ap records (
      handle_add_user-users w ready.writable free
      ∙ ap (λ r. r.0)
          (write_at-next_id user_key zero_user w.users (stored w) small refl ready.writable))

  -- Adding a user whose name is free appends one record, with the next id; and if the shell prints a
  -- digest of 64 digits, as it is meant to, the stored full name is the empty string, whatever name
  -- was asked for.
  pub add_user_loses_full_name :
      {w : World}
      → UsersReady w
      → length (records w.users) + 1 < 2 ^ 32
      → find_user_by_username req.username w ≡ none
      → (sha256_hex popen req.password).fills_65 ≡ true
      → let us = records (handle_add_user popen fd req w).users in
        (us ≡ records w.users ++ (stored w ∷ [])) × (c_str (stored w).full_name ≡ [])
  add_user_loses_full_name {w} ready small free full = (
    records-handle_add_user ready small free,
    rw full (c_str-set_first (new_user req w).full_name),
  )
