-- ===== src/Tests/Accounts.antt =====
-- The theorems on accounts, sessions, lists and the queue, at a small auction house.
use online_auction_system.Base.{
  ℕ, ◌≡◌, refl, Option, some, arith, List, [], ◌∷◌, ◌++◌, map, replicate,
}
use online_auction_system.Base.Money.{pos}
use online_auction_system.Base.Bytes.{Bytes, c_str}
use online_auction_system.Models.{
  User, role_bidder, role_admin, err_ok, view_auctions_resp, view_my_bids_resp, view_disputes_resp,
  list_users_resp,
}
use online_auction_system.Store.{records, read_at}
use online_auction_system.World.{auctions_payload, bids_payload, disputes_payload, users_payload}
use online_auction_system.World.FileIo.{read_user, find_user_by_username}
use online_auction_system.Notify.{send_msg}
use online_auction_system.Hash.{sha256_hex}
use online_auction_system.Admin.{
  AddUserPayload, handle_add_user, handle_list_users, ChangeRolePayload, handle_change_role,
  handle_delete_user, ModifyUserPayload, handle_modify_user, count_admins,
}
use online_auction_system.Admin.NewUser.{stored, add_user_loses_full_name}
use online_auction_system.Admin.LastAdmin.{HasAdmin, requests_keep_admin}
use online_auction_system.Dispute.{
  handle_view_disputes, ToggleAccountPayload, handle_toggle_account,
}
use online_auction_system.BidHandler.{handle_view_auctions, handle_view_my_bids}
use online_auction_system.Auth.{LoginPayload, ChangePassPayload, handle_change_password}
use online_auction_system.Auth.Password.{SameAccount, change_password_restores_copy}
use online_auction_system.Auth.Sessions.{sessions_of, OneSessionEach}
use online_auction_system.Server.Dispatch.{Request, handle_client}
use online_auction_system.Server.Conversation.{handle_client-OneSessionEach}
use online_auction_system.Server.WorkQueue.{init_work_queue}
use online_auction_system.Server.WorkQueue.Refine.{
  Event, accepted, asked, run, run_queue, work_queue_refines,
}
use online_auction_system.Notify.Frame.{OnlySends}
use online_auction_system.Server.Stranger.{handle_client-OnlySends}
use online_auction_system.Models.{role_other, account_banned}
use online_auction_system.Admin.StrayRole.{stray_role_bans_last_admin}
use online_auction_system.Views.{hide_digest, views_send_first}
use online_auction_system.Tests.House.{house, seller, ann, bob, vase, house-UsersReady}

house-HasAdmin : HasAdmin house
unfolding count_admins
house-HasAdmin = omega arith

requests_keep_admin_example :
    ((req : ChangeRolePayload) → HasAdmin (handle_change_role (pos 7) req house))
    × ((req : ToggleAccountPayload) → HasAdmin (handle_toggle_account (pos 7) req seller house))
    × ((k : ℕ) → HasAdmin (handle_delete_user (pos 7) k house))
    × ((req : ModifyUserPayload) → HasAdmin (handle_modify_user (pos 7) req house))
requests_keep_admin_example =
    requests_keep_admin house-UsersReady house-HasAdmin (pos 7) seller (omega arith)

-- A user who was added with the role 4.
abbrev intruder : User
intruder = record bob { role = role_other 0 }

stray_role_bans_last_admin_example : ¬ HasAdmin (
    handle_toggle_account
      (pos 7)
      (record { target_user_id = 1; new_status = account_banned })
      intruder
      house)
unfolding read_at count_admins
stray_role_bans_last_admin_example =
    stray_role_bans_last_admin {u = seller} house-UsersReady (pos 7) 1 intruder 0 refl refl refl
      refl

pub house-OneSessionEach : OneSessionEach house
unfolding sessions_of
house-OneSessionEach k = ground arith

-- What a shell prints that echoes the password 7.
abbrev short_digest : Bytes → Option Bytes
short_digest cmd = some (7 ∷ [])

abbrev pub bob_logs_in : LoginPayload
bob_logs_in = record { username = 3 ∷ []; password = 5 ∷ [] }

-- The second bidder logs in, bids and logs out.
abbrev short_visit : List Request
short_visit =
    Request.login bob_logs_in
    ∷ (Request.place_bid (record { auction_id = 1; amount = pos 50 }) ∷ (Request.logout ∷ []))

handle_client-OneSessionEach_example :
    OneSessionEach (handle_client short_digest (pos 9) short_visit house)
handle_client-OneSessionEach_example =
    handle_client-OneSessionEach short_digest (pos 9) short_visit house house-OneSessionEach

-- The connection's copy of the second user, from before a bid froze 30.
abbrev old_ann : User
old_ann = record ann { wallet_hold = pos 0 }

abbrev new_password : ChangePassPayload
new_password = record { old_password = 5 ∷ []; new_password = 6 ∷ [] }

change_password_restores_copy_example :
    (v' : User) × (read_user 2
        (handle_change_password short_digest (pos 8) new_password old_ann house).0
      ≡ some v')
    × SameAccount v' old_ann
unfolding read_at sha256_hex
change_password_restores_copy_example =
    change_password_restores_copy short_digest (pos 8) new_password old_ann {v = ann}
      house-UsersReady refl refl refl

-- A shell that prints 64 digits.
abbrev full_digest : Bytes → Option Bytes
full_digest cmd = some (replicate 64 49)

abbrev add_eve : AddUserPayload
add_eve = record {
  username = 4 ∷ [];
  password = 5 ∷ [];
  full_name = 69 ∷ (118 ∷ (101 ∷ []));
  role = role_bidder;
}

add_user_loses_full_name_example :
    let us = records (handle_add_user full_digest (pos 7) add_eve house).users in
    (us ≡ records house.users ++ (stored full_digest (pos 7) add_eve house ∷ []))
    × (c_str (stored full_digest (pos 7) add_eve house).full_name ≡ [])
unfolding find_user_by_username sha256_hex
add_user_loses_full_name_example =
    add_user_loses_full_name full_digest (pos 7) add_eve house-UsersReady (omega arith) refl refl

views_send_first_example :
    (handle_view_auctions (pos 8) house
      ≡ send_msg (pos 8) view_auctions_resp err_ok (auctions_payload (vase ∷ [])) house)
    × (handle_view_my_bids (pos 8) ann house
        ≡ send_msg (pos 8) view_my_bids_resp err_ok (bids_payload []) house)
    × (handle_view_disputes (pos 8) house
        ≡ send_msg (pos 8) view_disputes_resp err_ok (disputes_payload []) house)
    × (handle_list_users (pos 8) house
        ≡ send_msg
            (pos 8)
            list_users_resp
            err_ok
            (users_payload (map hide_digest (seller ∷ (ann ∷ (bob ∷ [])))))
            house)
views_send_first_example = views_send_first (pos 8) ann house refl refl refl refl

abbrev two_connections : List Event
two_connections = asked ∷ (accepted (pos 8) ∷ (accepted (pos 9) ∷ (asked ∷ (asked ∷ []))))

work_queue_refines_example : run init_work_queue two_connections ≡ run_queue [] two_connections
work_queue_refines_example = work_queue_refines two_connections

-- A deposit and a role that nobody gave.
abbrev intrusion : List Request
intrusion =
    Request.deposit (record { amount = pos 500 })
    ∷ (Request.change_role (record { target_user_id = 3; new_role = role_admin }) ∷ [])

handle_client-OnlySends_example :
    OnlySends house (handle_client short_digest (pos 9) intrusion house)
handle_client-OnlySends_example =
    handle_client-OnlySends short_digest (pos 9) intrusion house (refl, (refl, tt))
