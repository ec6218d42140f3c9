-- ===== src/Admin/StrayRole.antt =====
-- A moderator whose stored role is none of the enumeration, and the last administrator
-- (server/dispute.c, server/admin.c).
use online_auction_system.Base.{ℕ, ◌≤◌, ◌≡◌, refl, sym, subst, some, true, false, arith, leb, set}
use online_auction_system.Base.Money.{ℤ}
use online_auction_system.Models.{User, role_value, role_other, account_banned}
use online_auction_system.Store.{records, slot_of}
use online_auction_system.Store.Laws.{read_at-get}
use online_auction_system.World.{World}
use online_auction_system.World.FileIo.{read_user}
use online_auction_system.Wallet.Effect.{UsersReady, write_user-with_user}
use online_auction_system.Admin.{is_active_admin, count_admins}
use online_auction_system.Admin.LastAdmin.{HasAdmin, count_admins-set}
use online_auction_system.Dispute.{handle_toggle_account}

-- Where users.dat is well formed and has one active administrator, a user with a role above the
-- enumeration can ban this administrator, after which there is none.
pub stray_role_bans_last_admin :
    {w : World} {u : User}
    → UsersReady w
    → (fd : ℤ) (id : ℕ) (moderator : User) (n : ℕ) → moderator.role ≡ role_other n
    → read_user id w ≡ some u
    → is_active_admin u ≡ true
    → count_admins (records w.users) ≡ 1
    → ¬ HasAdmin (
        handle_toggle_account fd
          (record { target_user_id = id; new_status = account_banned })
          moderator
          w)
unfolding handle_toggle_account
stray_role_bans_last_admin {w} {u} ready fd id moderator n stray found active alone =
    let u' : User = record u { status = account_banned } in
    let moved =
      count_admins-set (records w.users) (slot_of id) u' (read_at-get w.users (slot_of id) found) in
    let wrote = write_user-with_user ready id found u' refl in
    let lower : leb (role_value moderator.role) (role_value u.role) ≡ false = ground arith in
    let none_left : ¬ (1 ≤ count_admins (set (records w.users) (slot_of id) u')) =
      ground (arith, moved) in
    rw (found, lower, handle_toggle_account) (subst (λ r. ¬ HasAdmin r.0) (sym wrote) none_left)
