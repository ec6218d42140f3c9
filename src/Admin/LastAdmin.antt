-- ===== src/Admin/LastAdmin.antt =====
-- The guards of server/admin.c and server/dispute.c keep an active administrator in users.dat.
use online_auction_system.Base.{
  ℕ, zero, suc, ◌+◌, ◌≤◌, ◌≡◌, refl, some, not, arith, ◌&&◌, leb, List, [], ◌∷◌, subst, sym,
  get_elem?, set, Option-cases, Bool-cases, inl, inr, if◌then◌else◌,
}
use online_auction_system.Base.Money.{ℤ}
use online_auction_system.Models.{User, role_value}
use online_auction_system.Store.{records, slot_of}
use online_auction_system.Store.Laws.{read_at-get}
use online_auction_system.World.{World}
use online_auction_system.World.FileIo.{read_user, write_user}
use online_auction_system.Wallet.Effect.{UsersReady, write_user-with_user}
use online_auction_system.AuctionEngine.{is_admin}
use online_auction_system.Admin.{
  is_active_admin, count_admins, ChangeRolePayload, handle_change_role, handle_delete_user,
  ModifyUserPayload, handle_modify_user,
}
use online_auction_system.Dispute.{ToggleAccountPayload, handle_toggle_account}

abbrev weight : User → ℕ
weight u = if is_active_admin u then 1 else 0

pub count_admins-set :
    (us : List User) (i : ℕ) (u' : User) {u : User}
    → get_elem? us i ≡ some u
    → count_admins (set us i u') + weight u ≡ count_admins us + weight u'
unfolding count_admins
count_admins-set [] i u' e = cc
count_admins-set (x ∷ us) zero u' {u} e = let q : x ≡ u = cc in rw q (ground arith)
count_admins-set (x ∷ us) (suc i) u' e = ground (arith, count_admins-set us i u' e)

-- Some user is an active administrator.
abbrev pub HasAdmin : World → Type 0
HasAdmin w = 1 ≤ count_admins (records w.users)

-- Writing back a user who was no active administrator, or still is one, or where another is left.
write_user-HasAdmin :
    {w : World} (k : ℕ) (u u' : User)
    → UsersReady w
    → read_user k w ≡ some u
    → u'.user_id ≡ u.user_id
    → 1 + weight u ≤ count_admins (records w.users) + weight u'
    → HasAdmin (write_user u' w).0
write_user-HasAdmin {w} k u u' ready found same h =
    let moved =
      count_admins-set (records w.users) (slot_of k) u' (read_at-get w.users (slot_of k) found) in
    subst (λ r. HasAdmin r.0) (sym (write_user-with_user ready k found u' same)) (omega arith)

module _ {w : World} (ready : UsersReady w) (has : HasAdmin w) (fd : ℤ) where
  handle_change_role-HasAdmin : (req : ChangeRolePayload) → HasAdmin (handle_change_role fd req w)
  unfolding handle_change_role
  handle_change_role-HasAdmin req = elim (Option-cases (read_user req.target_user_id w)) [
    | inl absent ↦ rw (absent, handle_change_role) has
    | inr (u, found) ↦
        elim (Bool-cases (
          is_admin u.role
          && not (is_admin req.new_role)
          && leb (count_admins (records w.users)) 1)) [
            | inl last ↦ rw (found, last, handle_change_role) has
            | inr safe ↦
                rw (found, safe, handle_change_role)
                  (write_user-HasAdmin req.target_user_id u (record u { role = req.new_role }) ready
                    found refl (ground arith))
          ]
  ]

  handle_toggle_account-HasAdmin :
      (req : ToggleAccountPayload) (moderator : User)
      → role_value moderator.role ≤ 3
      → HasAdmin (handle_toggle_account fd req moderator w)
  unfolding handle_toggle_account
  handle_toggle_account-HasAdmin req moderator known =
      elim (Option-cases (read_user req.target_user_id w)) [
        | inl absent ↦ rw (absent, handle_toggle_account) has
        | inr (u, found) ↦ elim (Bool-cases (leb (role_value moderator.role) (role_value u.role))) [
          | inl above ↦ rw (found, above, handle_toggle_account) has
          | inr below ↦
              rw (found, below, handle_toggle_account)
                (write_user-HasAdmin req.target_user_id u (record u { status = req.new_status })
                  ready found refl (ground arith))
        ]
      ]

  handle_delete_user-HasAdmin : (k : ℕ) → HasAdmin (handle_delete_user fd k w)
  unfolding handle_delete_user
  handle_delete_user-HasAdmin k = elim (Option-cases (read_user k w)) [
    | inl absent ↦ rw (absent, handle_delete_user) has
    | inr (u, found) ↦ elim (Bool-cases (is_admin u.role)) [
      | inl admin ↦ rw (found, admin, handle_delete_user) has
      | inr other ↦
          rw (found, other, handle_delete_user)
            (write_user-HasAdmin k u _ ready found refl (ground arith))
    ]
  ]

  handle_modify_user-HasAdmin : (req : ModifyUserPayload) → HasAdmin (handle_modify_user fd req w)
  unfolding handle_modify_user
  handle_modify_user-HasAdmin req = elim (Option-cases (read_user req.target_user_id w)) [
    | inl absent ↦ rw (absent, handle_modify_user) has
    | inr (u, found) ↦
        rw (found, handle_modify_user)
          (write_user-HasAdmin req.target_user_id u _ ready found refl (ground arith))
  ]

-- While users.dat has an active administrator, no change of a role or of a user's details and no
-- deletion leaves it without one, whoever asks for it, and no change of an account's status that a user
-- asks for whose role is one of the four in the enumeration.
pub requests_keep_admin :
    {w : World}
    → UsersReady w
    → HasAdmin w
    → (fd : ℤ) (moderator : User) → role_value moderator.role ≤ 3
    → ((req : ChangeRolePayload) → HasAdmin (handle_change_role fd req w))
      × ((req : ToggleAccountPayload) → HasAdmin (handle_toggle_account fd req moderator w))
      × ((k : ℕ) → HasAdmin (handle_delete_user fd k w))
      × ((req : ModifyUserPayload) → HasAdmin (handle_modify_user fd req w))
requests_keep_admin ready has fd moderator known = (
  handle_change_role-HasAdmin ready has fd,
  λ req. handle_toggle_account-HasAdmin ready has fd req moderator known,
  handle_delete_user-HasAdmin ready has fd,
  handle_modify_user-HasAdmin ready has fd,
)
