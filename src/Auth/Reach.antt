-- ===== src/Auth/Reach.antt =====
-- Notifications (server/notify.c) to a user who has logged in or out (server/auth.c).
use online_auction_system.Base.{ℕ, ◌≡◌, ◌∙◌, refl, ap, true, false, arith, Option}
use online_auction_system.Base.Money.{ℤ, pos, ◌≤ℤ◌, ltb_ℤ}
use online_auction_system.Base.Bytes.{Bytes}
use online_auction_system.Models.{User, MessageType, err_ok}
use online_auction_system.Store.{records}
use online_auction_system.World.{World, Payload}
use online_auction_system.World.FileIo.{find_session_slot, write_session}
use online_auction_system.Notify.{
  send_msg, register, unregister, lookup_fd, push_notification, notify_register, notify_unregister,
}
use online_auction_system.Notify.Registry.{
  entries_of, has_free, entries_of-register, entries_of-unregister, lookup_fd-register,
  lookup_fd-absent,
}
use online_auction_system.Auth.{LoginPayload, handle_login, finish_login, handle_logout}
use online_auction_system.Auth.Cases.{Welcomes, new_session, handle_login-cases}
use online_auction_system.Auth.Sessions.{find_session_from-none}
use online_auction_system.Auth.Presence.{IsPresent, close_session-registry}

pub push_found :
    (k : ℕ) (fd : ℤ) (type : MessageType) (note : Payload) (w : World)
    → pos 0 ≤ℤ fd
    → lookup_fd k w.registry ≡ fd
    → push_notification k type note w ≡ send_msg fd type err_ok note w
unfolding push_notification
push_found k fd type note w socket e =
    let open_fd : ltb_ℤ fd (pos 0) ≡ false = ground arith in rw (e, push_notification, open_fd) refl

push_absent :
    (k : ℕ) (type : MessageType) (note : Payload) (w : World)
    → entries_of k w.registry ≡ 0
    → push_notification k type note w ≡ w
unfolding push_notification
push_absent k type note w gone = rw (lookup_fd-absent k w.registry gone, push_notification) refl

handle_logout-registry :
    (fd : ℤ) (u : User) (w : World)
    → (handle_logout fd u w).registry ≡ unregister u.user_id w.registry
unfolding handle_logout notify_unregister
handle_logout-registry fd u w = ap (unregister u.user_id) (close_session-registry u.user_id w)

module _ (popen : Bytes → Option Bytes) (fd : ℤ) (req : LoginPayload) (out_user : User)
    {w : World} where
  Welcomes-entries_of :
      {u : User} {slot : ℕ}
      → IsPresent w
      → Welcomes popen req w u slot
      → entries_of u.user_id w.registry ≡ 0
  unfolding find_session_slot
  Welcomes-entries_of {u} h p =
      let gone = find_session_from-none u.user_id 0 (records w.sessions) p.absent in
      omega (arith, h.listed u.user_id, gone)

  -- Where sessions.dat can be written, no user has two active sessions or more entries in the registry
  -- than sessions, and an entry is free: after a login that succeeds, on a socket, a notification to
  -- this user is sent to that socket; and after the user has logged out again, it is sent nowhere.
  pub handle_login-push_notification :
      IsPresent w
      → has_free w.registry ≡ true
      → pos 0 ≤ℤ fd
      → (handle_login popen fd req out_user w).2 ≡ true
      → (type : MessageType) (note : Payload)
      → let r = handle_login popen fd req out_user w in
        let w' = handle_logout fd r.1 r.0 in
        (push_notification r.1.user_id type note r.0 ≡ send_msg fd type err_ok note r.0)
        × (push_notification r.1.user_id type note w' ≡ w')
  unfolding finish_login notify_register handle_logout notify_unregister
  handle_login-push_notification h free socket done type note =
      handle_login-cases
        (λ r.
          let w' = handle_logout fd r.1 r.0 in
          r.2 ≡ true
          → (push_notification r.1.user_id type note r.0 ≡ send_msg fd type err_ok note r.0)
            × (push_notification r.1.user_id type note w' ≡ w'))
        popen fd req out_user w (λ code e. absurd cc)
        (λ u slot p e.
          let k = u.user_id in
          let none_yet = Welcomes-entries_of h p in
          let own = entries_of-register k k fd w.registry in
          let l = finish_login fd u (write_session slot (new_session fd u w) w).0 in
          let out = entries_of-unregister k k (register k fd w.registry) in
          let left : entries_of k (unregister k (register k fd w.registry)) ≡ 0 =
            omega (arith, own, out, none_yet) in
          (
            push_found k fd type note l.0 socket (lookup_fd-register k fd w.registry none_yet free),
            push_absent k type note (handle_logout fd l.1 l.0)
                (ap (entries_of k) (handle_logout-registry fd l.1 l.0) ∙ left),
          ))
        done
