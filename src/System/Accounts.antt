-- ===== src/System/Accounts.antt =====
-- The order of the files under logins, and under changes of accounts by moderators and
-- administrators (server/auth.c, server/dispute.c, server/admin.c).
use online_auction_system.Base.{
  ℕ, suc, ◌+◌, ◌^◌, ◌≤◌, ◌<◌, ◌≡◌, refl, Option, some, true, not, arith, Bool-cases, Option-cases,
  inl, inr, leb, length, List, [], ◌∷◌, ◌&&◌, get_elem?,
}
use online_auction_system.Base.Money.{ℤ, pos}
use online_auction_system.Base.Bytes.{Bytes, strncmp_eq}
use online_auction_system.Models.{User, role_value, max_username, zero_user}
use online_auction_system.Store.{records, slot_of, read_at}
use online_auction_system.Store.Laws.{All-read_at, slot_of-read, read_at-id}
use online_auction_system.Store.Write.{length-write_at}
use online_auction_system.World.{World}
use online_auction_system.World.FileIo.{
  write_session, read_user, write_user, next_user_id, find_username, find_user_by_username,
}
use online_auction_system.Notify.{notify_register}
use online_auction_system.Wallet.Sound.{IsSoundUser}
use online_auction_system.Wallet.Effect.{user_key}
use online_auction_system.Hash.{sha256_hex}
use online_auction_system.AuctionEngine.{is_admin}
use online_auction_system.Dispute.{ToggleAccountPayload, handle_toggle_account}
use online_auction_system.Admin.{
  count_admins, AddUserPayload, handle_add_user, ChangeRolePayload, handle_change_role,
  store_digest, new_user,
}
use online_auction_system.Auth.{LoginPayload, handle_login, finish_login}
use online_auction_system.Auth.Cases.{new_session, handle_login-cases}
use online_auction_system.Ledger.Users.{write_user-BooksMatch, write_user-new}
use online_auction_system.System.History.{Evolves-same, Follows-refl}
use online_auction_system.System.Keeps.{
  InOrder, Keeps, Keeps-trans, Keeps-books, Keeps-files, Keeps-then,
}

-- A user is written back with the same id and wallet.
pub write_user-Keeps :
    {w : World} (k : ℕ) {u : User} (u' : User)
    → InOrder w
    → read_user k w ≡ some u
    → u'.user_id ≡ u.user_id
    → u'.wallet_hold ≡ u.wallet_hold
    → u'.wallet_balance ≡ u.wallet_balance
    → Keeps w (write_user u' w).0
write_user-Keeps {w} k {u} u' o found id hold balance =
    let s = All-read_at IsSoundUser w.users (slot_of k) o.books.sound found in
    let sound : IsSoundUser u' = rw (hold, balance) s in
    Keeps-books o (write_user-BooksMatch o.books k found u' id hold sound)
      (length-write_at zero_user w.users (slot_of u'.user_id) u') refl
      (Evolves-same Follows-refl refl)

pub handle_toggle_account-Keeps :
    (fd : ℤ) (req : ToggleAccountPayload) (u : User) {w : World}
    → InOrder w
    → Keeps w (handle_toggle_account fd req u w)
unfolding handle_toggle_account
handle_toggle_account-Keeps fd req m {w} o = elim (Option-cases (read_user req.target_user_id w)) [
  | inl absent ↦ rw (absent, handle_toggle_account) (Keeps-files o refl refl refl)
  | inr (u, found) ↦ elim (Bool-cases (leb (role_value m.role) (role_value u.role))) [
    | inl above ↦ rw (found, above, handle_toggle_account) (Keeps-files o refl refl refl)
    | inr below ↦
        let k =
          write_user-Keeps req.target_user_id (record u { status = req.new_status }) o found refl
            refl refl in
        rw (found, below, handle_toggle_account) (Keeps-then k refl refl refl)
  ]
]

pub handle_change_role-Keeps :
    (fd : ℤ) (req : ChangeRolePayload) {w : World}
    → InOrder w
    → Keeps w (handle_change_role fd req w)
unfolding handle_change_role
handle_change_role-Keeps fd req {w} o = elim (Option-cases (read_user req.target_user_id w)) [
  | inl absent ↦ rw (absent, handle_change_role) (Keeps-files o refl refl refl)
  | inr (u, found) ↦
      elim (Bool-cases (
        is_admin u.role && not (is_admin req.new_role) && leb (count_admins (records w.users)) 1)) [
          | inl last ↦ rw (found, last, handle_change_role) (Keeps-files o refl refl refl)
          | inr fine ↦
              let k =
                write_user-Keeps req.target_user_id (record u { role = req.new_role }) o found refl
                  refl refl in
              rw (found, fine, handle_change_role) (Keeps-then k refl refl refl)
        ]
]

module _ (popen : Bytes → Option Bytes) where
  -- `store_digest` changes neither the id nor the wallet.
  pub stored_wallet :
      (req : AddUserPayload) (w : World)
      → let u = store_digest (sha256_hex popen req.password) (new_user req w) in
        (u.user_id ≡ next_user_id w) × (u.wallet_hold ≡ pos 0) × (u.wallet_balance ≡ pos 0)
  stored_wallet req w = ground arith

  pub handle_add_user-Keeps :
      (fd : ℤ) (req : AddUserPayload) {w : World}
      → InOrder w
      → length (records w.users) + 1 < 2 ^ 32
      → Keeps w (handle_add_user popen fd req w)
  unfolding handle_add_user
  handle_add_user-Keeps fd req {w} o small =
      elim (Option-cases (find_user_by_username req.username w)) [
        | inr (u, taken) ↦ rw (taken, handle_add_user) (Keeps-files o refl refl refl)
        | inl free ↦
            let u = store_digest (sha256_hex popen req.password) (new_user req w) in
            let (id, hold, balance) = stored_wallet req w in
            let k =
              Keeps-books {w' = (write_user u w).0} o
                (write_user-new u o.books small id hold balance)
                (length-write_at zero_user w.users (slot_of u.user_id) u) refl
                (Evolves-same Follows-refl refl) in
            elim (Bool-cases (write_user u w).1) [
              | inl wrote ↦ rw (free, wrote, handle_add_user) (Keeps-then k refl refl refl)
              | inr failed ↦ rw (free, failed, handle_add_user) (Keeps-then k refl refl refl)
            ]
      ]

-- A user that is found by name stands in users.dat under the user's id.
find_username-get :
    (name : Bytes) (us : List User) (u : User)
    → find_username name us ≡ some u
    → (i : ℕ) × (get_elem? us i ≡ some u)
unfolding find_username
find_username-get name [] u e = absurd cc
find_username-get name (v ∷ us) u e =
    elim (Bool-cases (not v.is_deleted && strncmp_eq v.username name max_username)) [
      | inl here ↦ (0, rw here at e)
      | inr later ↦ let (i, q) = find_username-get name us u (rw later at e) in (suc i, q)
    ]

-- The id of a user on file.
abbrev pub IsUserId : ℕ → World → Type 0
IsUserId k w = (1 ≤ k) × (k ≤ length (records w.users))

pub find_user_by_username-read :
    (name : Bytes) (u : User) {w : World}
    → InOrder w
    → find_user_by_username name w ≡ some u
    → (read_user u.user_id w ≡ some u) × IsUserId u.user_id w
unfolding find_user_by_username read_at
find_user_by_username-read name u {w} o e =
    let (i, q) = find_username-get name (records w.users) u e in
    let slot = slot_of-read user_key w.users i {v = u} o.books.users_ready.keyed q in
    let at = read_at-id user_key w.users i {v = u} o.books.users_ready.keyed q in
    (rw slot q, (omega (arith, at), omega (arith, at)))

finish_login-Keeps :
    (fd : ℤ) (u : User) {w : World}
    → InOrder w
    → read_user u.user_id w ≡ some u
    → Keeps w (finish_login fd u w).0
unfolding finish_login notify_register
finish_login-Keeps fd u {w} o found =
    let w1 = notify_register u.user_id fd w in
    let k = Keeps-files {w' = w1} o refl refl refl in
    let k1 =
      write_user-Keeps {w = w1} u.user_id (record u { last_login = w.now }) k.in_order found refl
        refl refl in
    Keeps-then (Keeps-trans k k1) refl refl refl

-- After a login the files are in order, and a client that is logged in is a user on file.
pub handle_login-Keeps :
    (popen : Bytes → Option Bytes) (fd : ℤ) (req : LoginPayload) (out_user : User) (w : World)
    → InOrder w
    → let r = handle_login popen fd req out_user w in
      Keeps w r.0 × (r.2 ≡ true → IsUserId r.1.user_id r.0)
unfolding finish_login
handle_login-Keeps popen fd req out_user w o =
    handle_login-cases (λ r. Keeps w r.0 × (r.2 ≡ true → IsUserId r.1.user_id r.0)) popen fd req
      out_user w (λ code. (Keeps-files o refl refl refl, λ e. absurd cc))
      (λ u slot h.
        let (there, id) = find_user_by_username-read req.username u o h.found in
        let w1 = (write_session slot (new_session fd u w) w).0 in
        let k = Keeps-files {w' = w1} o refl refl refl in
        let k1 = finish_login-Keeps fd u k.in_order there in
        (Keeps-trans k k1, λ e. (id.0, omega (arith, id.1, k.users_stay, k1.users_stay))))
