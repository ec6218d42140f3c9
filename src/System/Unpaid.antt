-- ===== src/System/Unpaid.antt =====
-- The money in all wallets under the requests of server/auth.c, server/admin.c and server/dispute.c that
-- write a user or an auction, and under any one message.
use online_auction_system.Base.{
  ◌+◌, ◌^◌, ◌<◌, ◌≡◌, ◌∙◌, refl, sym, subst, Option, not, arith, Bool-cases, Option-cases, inl, inr,
  leb, length, ◌&&◌,
}
use online_auction_system.Base.Money.{ℤ, pos, +ℤ-zero}
use online_auction_system.Base.Bytes.{Bytes, strncpy}
use online_auction_system.Models.{User, role_value, max_password, zero_user}
use online_auction_system.Store.{records, slot_of}
use online_auction_system.Store.Laws.{write_at-next_id, append-IsKeyed, read_at-some, read_at-id}
use online_auction_system.World.{World}
use online_auction_system.World.FileIo.{
  write_session, read_user, write_user, next_user_id, find_user_by_username,
}
use online_auction_system.Notify.{notify_register}
use online_auction_system.Wallet.Effect.{user_key, UsersReady}
use online_auction_system.AuctionEngine.{CreateAuctionPayload, handle_create_auction, is_admin}
use online_auction_system.Dispute.{
  FileDisputePayload, handle_file_dispute, ToggleAccountPayload, handle_toggle_account,
}
use online_auction_system.Hash.{sha256_hex}
use online_auction_system.Admin.{
  count_admins, AddUserPayload, handle_add_user, ChangeRolePayload, handle_change_role,
  store_digest, new_user,
}
use online_auction_system.Auth.{
  LoginPayload, handle_login, finish_login, password_matches, ChangePassPayload,
  handle_change_password,
}
use online_auction_system.Auth.Cases.{new_session, handle_login-cases}
use online_auction_system.Ledger.Sums.{total_balance-append}
use online_auction_system.Ledger.Timer.{KeepsMoney}
use online_auction_system.System.Keeps.{InOrder}
use online_auction_system.System.Accounts.{IsUserId, find_user_by_username-read, stored_wallet}
use online_auction_system.System.Money.{
  money, SameMoney, SameMoney-files, SameMoney-trans, SameMoney-then, write_user-SameMoney,
}
use online_auction_system.System.Service.{HasFreshWallet}

pub KeepsMoney-SameMoney : {w w' : World} → KeepsMoney w w' → SameMoney w w'
KeepsMoney-SameMoney k = record {
  ready = record { keyed = k.books.users_ready.keyed; writable = k.books.users_ready.writable };
  same = k.total;
}

pub handle_toggle_account-SameMoney :
    (fd : ℤ) (req : ToggleAccountPayload) (u : User) {w : World}
    → UsersReady w
    → SameMoney w (handle_toggle_account fd req u w)
unfolding handle_toggle_account
handle_toggle_account-SameMoney fd req m {w} o =
    elim (Option-cases (read_user req.target_user_id w)) [
      | inl absent ↦ rw (absent, handle_toggle_account) (SameMoney-files refl o)
      | inr (u, found) ↦ elim (Bool-cases (leb (role_value m.role) (role_value u.role))) [
        | inl above ↦ rw (found, above, handle_toggle_account) (SameMoney-files refl o)
        | inr below ↦
            let k =
              write_user-SameMoney req.target_user_id (record u { status = req.new_status }) o found
                refl refl in
            rw (found, below, handle_toggle_account) (SameMoney-then k refl)
      ]
    ]

pub handle_change_role-SameMoney :
    (fd : ℤ) (req : ChangeRolePayload) {w : World}
    → UsersReady w
    → SameMoney w (handle_change_role fd req w)
unfolding handle_change_role
handle_change_role-SameMoney fd req {w} o = elim (Option-cases (read_user req.target_user_id w)) [
  | inl absent ↦ rw (absent, handle_change_role) (SameMoney-files refl o)
  | inr (u, found) ↦
      elim (Bool-cases (
        is_admin u.role && not (is_admin req.new_role) && leb (count_admins (records w.users)) 1)) [
          | inl last ↦ rw (found, last, handle_change_role) (SameMoney-files refl o)
          | inr fine ↦
              let k =
                write_user-SameMoney req.target_user_id (record u { role = req.new_role }) o found
                  refl refl in
              rw (found, fine, handle_change_role) (SameMoney-then k refl)
        ]
]

-- A new user with an empty wallet.
write_user-empty :
    {w : World} (u : User)
    → UsersReady w
    → length (records w.users) + 1 < 2 ^ 32
    → u.user_id ≡ next_user_id w
    → u.wallet_balance ≡ pos 0
    → SameMoney w (write_user u w).0
write_user-empty {w} u ready small id empty =
    let wrote = write_at-next_id user_key zero_user w.users u small id ready.writable in
    subst (λ r. SameMoney w (record w { users = r.0 })) (sym wrote)
      record {
        ready = record {
          keyed = append-IsKeyed user_key zero_user w.users u ready.keyed small id;
          writable = ready.writable;
        };
        same = total_balance-append (records w.users) u ∙ rw empty (+ℤ-zero (money w));
      }

pub handle_file_dispute-SameMoney :
    (fd : ℤ) (req : FileDisputePayload) (u : User) {w : World}
    → UsersReady w
    → SameMoney w (handle_file_dispute fd req u w)
unfolding handle_file_dispute
handle_file_dispute-SameMoney fd req u {w} o = SameMoney-files (ground arith) o

pub handle_create_auction-SameMoney :
    (fd : ℤ) (req : CreateAuctionPayload) (u : User) {w : World}
    → UsersReady w
    → SameMoney w (handle_create_auction fd req u w)
unfolding handle_create_auction
handle_create_auction-SameMoney fd req u {w} o = SameMoney-files (ground arith) o

pub handle_change_password-SameMoney :
    (popen : Bytes → Option Bytes) (fd : ℤ) (req : ChangePassPayload) (u : User) (w : World)
    → UsersReady w
    → IsUserId u.user_id w
    → HasFreshWallet w u
    → SameMoney w (handle_change_password popen fd req u w).0
unfolding handle_change_password
handle_change_password-SameMoney popen fd req u w o id fresh =
    elim (Bool-cases (password_matches popen req.old_password u)) [
      | inr wrong ↦ rw wrong (SameMoney-files refl o)
      | inl right ↦
          let (v, found) = read_at-some w.users (slot_of u.user_id) (omega (arith, id)) in
          let at = read_at-id user_key w.users (slot_of u.user_id) {v = v} o.keyed found in
          let same : u.user_id ≡ v.user_id = omega (arith, at.0, id.0) in
          let u' : User = record u {
            password = strncpy u.password (sha256_hex popen req.new_password).text max_password;
          } in
          let k = write_user-SameMoney {w = w} u.user_id u' o found same (fresh v found).1 in
          rw right (SameMoney-then k refl)
    ]

module _ (popen : Bytes → Option Bytes) where
  pub handle_add_user-SameMoney :
      (fd : ℤ) (req : AddUserPayload) {w : World}
      → UsersReady w
      → length (records w.users) + 1 < 2 ^ 32
      → SameMoney w (handle_add_user popen fd req w)
  unfolding handle_add_user
  handle_add_user-SameMoney fd req {w} o small =
      elim (Option-cases (find_user_by_username req.username w)) [
        | inr (u, taken) ↦ rw (taken, handle_add_user) (SameMoney-files refl o)
        | inl free ↦
            let u = store_digest (sha256_hex popen req.password) (new_user req w) in
            let (id, hold, balance) = stored_wallet popen req w in
            let k = write_user-empty u o small id balance in
            elim (Bool-cases (write_user u w).1) [
              | inl wrote ↦ rw (free, wrote, handle_add_user) (SameMoney-then k refl)
              | inr failed ↦ rw (free, failed, handle_add_user) (SameMoney-then k refl)
            ]
      ]

  pub handle_login-SameMoney :
      (fd : ℤ) (req : LoginPayload) (out_user : User) (w : World)
      → InOrder w
      → SameMoney w (handle_login popen fd req out_user w).0
  unfolding finish_login notify_register
  handle_login-SameMoney fd req out_user w o =
      let ready = o.books.users_ready in
      handle_login-cases (λ r. SameMoney w r.0) popen fd req out_user w
        (λ code. SameMoney-files refl ready)
        (λ u slot h.
          let (there, id) = find_user_by_username-read req.username u o h.found in
          let w1 = notify_register u.user_id fd (write_session slot (new_session fd u w) w).0 in
          let k = SameMoney-files {w' = w1} refl ready in
          let k1 =
            write_user-SameMoney {w = w1} u.user_id {u = u} (record u { last_login = w.now })
              k.ready there refl refl in
          SameMoney-then (SameMoney-trans k k1) refl)
