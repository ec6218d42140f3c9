-- ===== src/System/Service.antt =====
-- One message of a connection (`handle_client` of server/server.c): the order of the files, and the
-- user that the connection speaks for.
use online_auction_system.Base.{
  ℕ, ◌+◌, ◌^◌, ◌≤◌, ◌<◌, ◌≡◌, refl, Option, some, true, false, not, arith, Bool-cases, Option-cases,
  inl, inr, ◌⊎◌, length, ◌&&◌,
}
use online_auction_system.Base.Money.{ℤ, pos, leb_ℤ}
use online_auction_system.Base.Bytes.{Bytes, strncpy}
use online_auction_system.Models.{User, max_password}
use online_auction_system.Store.{records, slot_of}
use online_auction_system.Store.Laws.{read_at-id, read_at-some}
use online_auction_system.World.{World}
use online_auction_system.World.FileIo.{read_user}
use online_auction_system.Wallet.{credit_wallet, DepositPayload, handle_deposit}
use online_auction_system.Wallet.Effect.{user_key}
use online_auction_system.Hash.{sha256_hex}
use online_auction_system.Auth.{
  ChangePassPayload, handle_change_password, password_matches, LoginPayload, handle_login,
}
use online_auction_system.Server.Dispatch.{
  Request, Connection, is_login, permits, serve, handle_message,
}
use online_auction_system.System.Keeps.{InOrder, Keeps, Keeps-files, Keeps-then}
use online_auction_system.System.Trade.{credit_wallet-Keeps, handle_deposit-Keeps}
use online_auction_system.System.Bids.{handle_place_bid-Keeps, handle_create_auction-Keeps}
use online_auction_system.System.Closing.{handle_close_auction-Keeps}
use online_auction_system.System.Disputes.{handle_file_dispute-Keeps, handle_resolve_dispute-Keeps}
use online_auction_system.System.Accounts.{
  write_user-Keeps, handle_toggle_account-Keeps, handle_change_role-Keeps, handle_add_user-Keeps,
  IsUserId, handle_login-Keeps,
}
use online_auction_system.System.Quiet.{
  SameFiles-Keeps, handle_view_auctions-SameFiles, handle_view_disputes-SameFiles,
  handle_view_feedback-SameFiles, handle_list_users-SameFiles, handle_view_my_bids-SameFiles,
  handle_view_balance-SameFiles, handle_submit_feedback-SameFiles, handle_logout-SameFiles,
}

-- The 32-bit ids have room for one more user, auction and dispute.
pub record HasRoom (w : World) : Type 0 where
  pub users : length (records w.users) + 1 < 2 ^ 32
  pub auctions : length (records w.auctions) + 1 < 2 ^ 32
  pub disputes : length (records w.disputes) + 1 < 2 ^ 32

-- The connection is not logged in, or its user is on file.
abbrev pub IsKnown : World → Connection → Type 0
IsKnown w c = (c.authenticated ≡ false) ⊎ IsUserId c.current_user.user_id w

-- The connection's copy of its user has the wallet that is on file.
abbrev pub HasFreshWallet : World → User → Type 0
HasFreshWallet w u =
    (v : User)
    → read_user u.user_id w ≡ some v
    → (u.wallet_hold ≡ v.wallet_hold) × (u.wallet_balance ≡ v.wallet_balance)

-- Only a change of password relies on the connection's copy of its user.
abbrev pub IsTimely : World → Connection → Request → Type 0
IsTimely w c (Request.change_pass _) = HasFreshWallet w c.current_user
IsTimely w c _ = Unit

-- The files are in order after it, and the connection is still known.
abbrev Serves : World → World × Connection → Type 0
Serves w r = Keeps w r.0 × IsKnown r.0 r.1

IsUserId-stays : {w w' : World} (k : ℕ) → Keeps w w' → IsUserId k w → IsUserId k w'
IsUserId-stays k keeps id = (id.0, omega (arith, id.1, keeps.users_stay))

pub IsKnown-stays :
    (w w' : World) (c : Connection)
    → length (records w.users) ≤ length (records w'.users)
    → IsKnown w c
    → IsKnown w' c
IsKnown-stays w w' c stay (inl out) = inl out
IsKnown-stays w w' c stay (inr id) = inr (id.0, omega (arith, id.1, stay))

-- The user that a deposit leaves the connection with.
handle_deposit-user :
    (fd : ℤ) (req : DepositPayload) (u : User) (w : World)
    → InOrder w
    → IsUserId u.user_id w
    → (handle_deposit fd req u w).1.user_id ≡ u.user_id
unfolding handle_deposit
handle_deposit-user fd req u w o id =
    let k = credit_wallet-Keeps u.user_id req.amount o in
    elim (Bool-cases (leb_ℤ req.amount (pos 0))) [
      | inl bad ↦ rw bad refl
      | inr good ↦ elim (Bool-cases (credit_wallet u.user_id req.amount w).1) [
        | inr failed ↦ rw (good, failed) refl
        | inl ok ↦
            elim (Option-cases (read_user u.user_id (credit_wallet u.user_id req.amount w).0)) [
              | inl gone ↦ rw (good, ok, gone) refl
              | inr (v, e) ↦
                  let at =
                    read_at-id user_key _ (slot_of u.user_id) {v = v}
                      k.in_order.books.users_ready.keyed e in
                  rw (good, ok, e) (omega (arith, at.0, id.0))
            ]
      ]
    ]

-- Changing the password writes the whole copy back.
handle_change_password-Serves :
    (popen : Bytes → Option Bytes) (fd : ℤ) (req : ChangePassPayload) (u : User) (w : World)
    → InOrder w
    → IsUserId u.user_id w
    → HasFreshWallet w u
    → let r = handle_change_password popen fd req u w in Keeps w r.0 × (r.1.user_id ≡ u.user_id)
unfolding handle_change_password
handle_change_password-Serves popen fd req u w o id fresh =
    elim (Bool-cases (password_matches popen req.old_password u)) [
      | inr wrong ↦ rw wrong (Keeps-files o refl refl refl, refl)
      | inl right ↦
          let (v, found) = read_at-some w.users (slot_of u.user_id) (omega (arith, id)) in
          let at =
            read_at-id user_key w.users (slot_of u.user_id) {v = v} o.books.users_ready.keyed
              found in
          let (hold, balance) = fresh v found in
          let same : u.user_id ≡ v.user_id = omega (arith, at.0, id.0) in
          let u' : User = record u {
            password = strncpy u.password (sha256_hex popen req.new_password).text max_password;
          } in
          let k = write_user-Keeps {w = w} u.user_id u' o found same hold balance in
          rw right (Keeps-then k refl refl refl, refl)
    ]

kept :
    {w w' : World} (c : Connection)
    → Keeps w w'
    → IsUserId c.current_user.user_id w
    → Serves w (w', c)
kept c k id = (k, inr (IsUserId-stays c.current_user.user_id k id))

login_Serves :
    (popen : Bytes → Option Bytes) (req : LoginPayload) (c : Connection) (w : World)
    → InOrder w
    → let r = handle_login popen c.client_fd req c.current_user w in
      Serves w (r.0, record c { current_user = r.1; authenticated = r.2 })
login_Serves popen req c w o =
    let r = handle_login popen c.client_fd req c.current_user w in
    let (k, id) = handle_login-Keeps popen c.client_fd req c.current_user w o in
    elim (Bool-cases r.2) [ inl entered ↦ (k, inr (id entered)) | inr refused ↦ (k, inl refused) ]

module _ (popen : Bytes → Option Bytes) where
  serve-Serves :
      (req : Request) (c : Connection) (w : World)
      → InOrder w
      → HasRoom w
      → IsUserId c.current_user.user_id w
      → IsTimely w c req
      → Serves w (serve popen req c w)
  unfolding serve
  serve-Serves (Request.file_dispute req) c w o room id timely =
      kept c (handle_file_dispute-Keeps c.client_fd req c.current_user o room.disputes) id
  serve-Serves (Request.login req) c w o room id timely = login_Serves popen req c w o
  serve-Serves Request.logout c w o room id timely =
      let k = SameFiles-Keeps (handle_logout-SameFiles c.client_fd c.current_user w) o in
      (k, inr (IsUserId-stays c.current_user.user_id k id))
  serve-Serves (Request.change_pass req) c w o room id timely =
      let (k, same) =
        handle_change_password-Serves popen c.client_fd req c.current_user w o id timely in
      (k, inr (rw same (IsUserId-stays c.current_user.user_id k id)))
  serve-Serves Request.view_auctions c w o room id timely =
      kept c (SameFiles-Keeps (handle_view_auctions-SameFiles c.client_fd w) o) id
  serve-Serves (Request.place_bid req) c w o room id timely =
      kept c
        (handle_place_bid-Keeps c.client_fd req c.current_user (omega (arith, id.1, room.users)) o)
        id
  serve-Serves Request.view_balance c w o room id timely =
      kept c (SameFiles-Keeps (handle_view_balance-SameFiles c.client_fd w c.current_user) o) id
  serve-Serves (Request.deposit req) c w o room id timely =
      let k = handle_deposit-Keeps c.client_fd req c.current_user o in
      let same = handle_deposit-user c.client_fd req c.current_user w o id in
      (k, inr (rw same (IsUserId-stays c.current_user.user_id k id)))
  serve-Serves Request.view_my_bids c w o room id timely =
      kept c (SameFiles-Keeps (handle_view_my_bids-SameFiles c.client_fd w c.current_user) o) id
  serve-Serves (Request.submit_feedback req) c w o room id timely =
      kept c (SameFiles-Keeps (handle_submit_feedback-SameFiles c.client_fd w req c.current_user) o)
        id
  serve-Serves (Request.create_auction req) c w o room id timely =
      kept c (handle_create_auction-Keeps c.client_fd req c.current_user o room.auctions id.0 id.1)
        id
  serve-Serves (Request.close_auction a) c w o room id timely =
      kept c (handle_close_auction-Keeps c.client_fd a c.current_user o) id
  serve-Serves Request.view_disputes c w o room id timely =
      kept c (SameFiles-Keeps (handle_view_disputes-SameFiles c.client_fd w) o) id
  serve-Serves (Request.resolve_dispute req) c w o room id timely =
      kept c (handle_resolve_dispute-Keeps c.client_fd req c.current_user o) id
  serve-Serves Request.view_feedback c w o room id timely =
      kept c (SameFiles-Keeps (handle_view_feedback-SameFiles c.client_fd w) o) id
  serve-Serves (Request.toggle_account req) c w o room id timely =
      kept c (handle_toggle_account-Keeps c.client_fd req c.current_user o) id
  serve-Serves (Request.add_user req) c w o room id timely =
      kept c (handle_add_user-Keeps popen c.client_fd req o room.users) id
  serve-Serves Request.list_users c w o room id timely =
      kept c (SameFiles-Keeps (handle_list_users-SameFiles c.client_fd w) o) id
  serve-Serves (Request.change_role req) c w o room id timely =
      kept c (handle_change_role-Keeps c.client_fd req o) id
  serve-Serves Request.other c w o room id timely = kept c (Keeps-files o refl refl refl) id

  stranger_Serves :
      (req : Request) (c : Connection) (w : World)
      → InOrder w
      → c.authenticated ≡ false
      → is_login req ≡ true
      → Serves w (serve popen req c w)
  unfolding serve
  stranger_Serves (Request.login req) c w o out e = login_Serves popen req c w o
  stranger_Serves _ c w o out e = absurd cc

  pub handle_message-Serves :
      (req : Request) (c : Connection) (w : World)
      → InOrder w
      → HasRoom w
      → IsKnown w c
      → IsTimely w c req
      → Serves w (handle_message popen req c w)
  unfolding handle_message
  handle_message-Serves req c w o room known timely =
      elim (Bool-cases (not c.authenticated && not (is_login req))) [
        | inl stranger ↦ rw stranger (Keeps-files o refl refl refl, known)
        | inr fine ↦ elim (Bool-cases (permits req c.current_user.role)) [
          | inr denied ↦ rw (fine, denied) (Keeps-files o refl refl refl, known)
          | inl allowed ↦
              rw (fine, allowed)
                (elim known [
                  | inr id ↦ serve-Serves req c w o room id timely
                  | inl out ↦ stranger_Serves req c w o out (ground arith)
                ])
        ]
      ]
