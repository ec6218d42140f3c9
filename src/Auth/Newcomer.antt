-- ===== src/Auth/Newcomer.antt =====
-- A new account (server/admin.c) and the first login with it (server/auth.c).
use online_auction_system.Base.{
  ℕ, ◌+◌, ◌^◌, ◌≤◌, ◌<◌, ◌≡◌, ◌∙◌, refl, ap, Option, some, none, true, not, List, [], ◌∷◌, ◌++◌,
  length, Bool-cases, inl, inr, ◌&&◌,
}
use online_auction_system.Base.Money.{ℤ}
use online_auction_system.Base.Bytes.{Bytes, c_str, strncmp_eq}
use online_auction_system.Base.Strings.{strncmp_eq-strncpy, strncpy-strncmp_eq}
use online_auction_system.Models.{User, max_username, max_password}
use online_auction_system.Store.{records}
use online_auction_system.World.{World}
use online_auction_system.World.FileIo.{
  find_username, find_user_by_username, find_session_slot, find_free_slot, next_user_id,
}
use online_auction_system.Wallet.Effect.{UsersReady}
use online_auction_system.Hash.{sha256_hex, command}
use online_auction_system.Admin.{AddUserPayload, handle_add_user}
use online_auction_system.Admin.NewUser.{stored, records-handle_add_user}
use online_auction_system.Server.SamePresence.{handle_add_user-SamePresence}
use online_auction_system.Auth.{
  LoginPayload, handle_login, open_session, finish_login, password_matches,
}

no_user : {u : User} → some u ≡ none → ⊥
no_user e = cc

-- A user at the end of the records is found by name where no other is.
find_username-append :
    (name : Bytes) (us : List User) (u : User)
    → find_username name us ≡ none
    → not u.is_deleted && strncmp_eq u.username name max_username ≡ true
    → find_username name (us ++ (u ∷ [])) ≡ some u
unfolding find_username
find_username-append name [] u free match = rw match refl
find_username-append name (v ∷ us) u free match =
    elim (Bool-cases (not v.is_deleted && strncmp_eq v.username name max_username)) [
      | inl taken ↦ absurd (no_user (rw taken at free))
      | inr other ↦ rw other (find_username-append name us u (rw other at free) match)
    ]

-- The copy of the name that is stored agrees with the name, and the digest that is stored with the
-- password.
stored_name :
    (popen : Bytes → Option Bytes) (fd : ℤ) (req : AddUserPayload) (w : World)
    → length (c_str req.username) ≤ 31
    → not (stored popen fd req w).is_deleted
        && strncmp_eq (stored popen fd req w).username req.username max_username
      ≡ true
stored_name popen fd req w short = strncpy-strncmp_eq 31 req.username short

stored_password :
    (popen : Bytes → Option Bytes) (fd : ℤ) (req : AddUserPayload) (w : World)
    → password_matches popen req.password (stored popen fd req w) ≡ true
stored_password popen fd req w =
    strncmp_eq-strncpy max_password (sha256_hex popen req.password).text

-- The digest that another shell prints for the same command.
later_password :
    (popen later : Bytes → Option Bytes) (fd : ℤ) (req : AddUserPayload) (w : World)
    → later (command req.password) ≡ popen (command req.password)
    → password_matches later req.password (stored popen fd req w) ≡ true
unfolding sha256_hex
later_password popen later fd req w alike =
    let same : sha256_hex later req.password ≡ sha256_hex popen req.password =
      rw (alike, sha256_hex) refl in
    rw same (stored_password popen fd req w)

-- A user whose id has no session may log in where there is a free slot.
open_session-opens :
    (fd : ℤ) (u : User) (w : World) {slot : ℕ}
    → find_session_slot u.user_id w ≡ none
    → find_free_slot w ≡ some slot
    → (open_session fd u w).1 ≡ none
unfolding open_session
open_session-opens fd u w out free = rw (out, free, open_session) refl

module _ (popen : Bytes → Option Bytes) (fd : ℤ) (req : AddUserPayload) (w : World) where
  add_user-find :
      UsersReady w
      → length (records w.users) + 1 < 2 ^ 32
      → find_user_by_username req.username w ≡ none
      → length (c_str req.username) ≤ 31
      → find_user_by_username req.username (handle_add_user popen fd req w)
        ≡ some (stored popen fd req w)
  unfolding find_user_by_username
  add_user-find ready small free short =
      ap (find_username req.username) (records-handle_add_user popen fd req ready small free)
      ∙ find_username-append req.username (records w.users) (stored popen fd req w) free
          (stored_name popen fd req w short)

  -- Who was added under a free name of at most 31 bytes can log in with the name and the password that
  -- the administrator gave, in the role given, while there is a free slot for a session and none is on
  -- file for the new id; users.dat is well formed, ids have not run out, the password ends within its
  -- array of 64 bytes, and the shell that is started at the login prints for its command what it
  -- printed when the user was added.
  pub handle_add_user-handle_login :
      (popen_later : Bytes → Option Bytes) (login_fd : ℤ) (out_user : User) {slot : ℕ}
      → UsersReady w
      → length (records w.users) + 1 < 2 ^ 32
      → find_user_by_username req.username w ≡ none
      → length (c_str req.username) ≤ 31
      → length (c_str req.password) < max_password
      → popen_later (command req.password) ≡ popen (command req.password)
      → find_session_slot (next_user_id w) w ≡ none
      → find_free_slot w ≡ some slot
      → let login : LoginPayload = record { username = req.username; password = req.password } in
        let r = handle_login popen_later login_fd login out_user (handle_add_user popen fd req w) in
        (r.2 ≡ true) × (r.1.user_id ≡ next_user_id w) × (r.1.role ≡ req.role)
  unfolding handle_login finish_login find_session_slot find_free_slot
  handle_add_user-handle_login later login_fd out_user {slot = free_slot} ready small free short
        ends alike out slot =
      let u = stored popen fd req w in
      let w1 = handle_add_user popen fd req w in
      let found = add_user-find ready small free short in
      let same = ap (λ v. v.sessions) (handle_add_user-SamePresence fd w popen req) in
      let out1 : find_session_slot u.user_id w1 ≡ none = rw same out in
      let slot1 : find_free_slot w1 ≡ some free_slot = rw same slot in
      let opens = open_session-opens login_fd u w1 out1 slot1 in
      let right = later_password popen later fd req w alike in
      rw (found, right, opens, handle_login) (refl, refl, refl)
