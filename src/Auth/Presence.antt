-- ===== src/Auth/Presence.antt =====
-- Who is logged in (server/auth.c): a user has at most one active session, and an entry in the registry
-- of server/notify.c only with it.
use online_auction_system.Base.{
  Option, ℕ, ◌≤◌, ◌≡◌, refl, ap, true, some, none, arith, Option-cases, inl, inr,
}
use online_auction_system.Base.Money.{ℤ}
use online_auction_system.Base.Bytes.{Bytes}
use online_auction_system.Models.{User, Session, zero_session}
use online_auction_system.Store.{records, write_at}
use online_auction_system.World.{World}
use online_auction_system.World.FileIo.{find_session_slot, find_free_slot, write_session}
use online_auction_system.Notify.{notify_register, notify_unregister}
use online_auction_system.Notify.Registry.{entries_of, entries_of-register, entries_of-unregister}
use online_auction_system.Auth.{finish_login, close_session}
use online_auction_system.Auth.Cases.{new_session, handle_login-cases}
use online_auction_system.Auth.Sessions.{
  sessions_of, OneSessionEach, sessions_of-write_session, sessions_of-close_session,
  handle_login-OneSessionEach, close_session-OneSessionEach,
}
use online_auction_system.Server.Conversation.{IsLasting}

pub record IsPresent (w : World) : Type 0 where
  pub writable : w.sessions.writable ≡ true
  pub one : OneSessionEach w
  pub listed : (k : ℕ) → entries_of k w.registry ≤ sessions_of k (records w.sessions)

still_writable :
    (slot : ℕ) (s : Session) (w : World)
    → w.sessions.writable ≡ true
    → (write_session slot s w).0.sessions.writable ≡ true
unfolding write_at
still_writable slot s w opens = rw (opens, write_at) refl

-- A user with a free slot and without a session gets one.
finish_login-IsPresent :
    (fd : ℤ) (u : User) (slot : ℕ) (w : World)
    → find_session_slot u.user_id w ≡ none
    → find_free_slot w ≡ some slot
    → IsPresent w
    → OneSessionEach (write_session slot (new_session fd u w) w).0
    → IsPresent (finish_login fd u (write_session slot (new_session fd u w) w).0).0
unfolding finish_login notify_register
finish_login-IsPresent fd u slot w absent free h one = record {
  writable = still_writable slot (new_session fd u w) w h.writable;
  one = one;
  listed = λ k.
      let more = sessions_of-write_session k slot (new_session fd u w) w h.writable free in
      let entry = entries_of-register k u.user_id fd w.registry in
      let before = h.listed k in ground arith;
}

closed_writable :
    (k : ℕ) (w : World) → w.sessions.writable ≡ true → (close_session k w).sessions.writable ≡ true
unfolding close_session
closed_writable k w opens = elim (Option-cases (find_session_slot k w)) [
  | inl absent ↦ rw (absent, close_session) opens
  | inr (slot, e) ↦ rw (e, close_session) (still_writable slot zero_session w opens)
]

pub close_session-registry : (k : ℕ) (w : World) → (close_session k w).registry ≡ w.registry
unfolding close_session
close_session-registry k w = elim (Option-cases (find_session_slot k w)) [
  | inl absent ↦ rw (absent, close_session) refl
  | inr (slot, e) ↦ rw (e, close_session) refl
]

close_session-IsPresent :
    (k : ℕ) (w : World) → IsPresent w → IsPresent (notify_unregister k (close_session k w))
unfolding notify_unregister
close_session-IsPresent k w h = record {
  writable = closed_writable k w h.writable;
  one = close_session-OneSessionEach k w h.one;
  listed = λ j.
      let fewer = sessions_of-close_session j k w h.writable in
      let entry = entries_of-unregister j k w.registry in
      let before = h.listed j in
      rw (close_session-registry k w) (omega (arith, fewer, entry, before));
}

pub IsPresent-IsLasting : (popen : Bytes → Option Bytes) → IsLasting popen IsPresent
unfolding finish_login notify_register
IsPresent-IsLasting popen = record {
  on_same = λ {w} {w'} same h. record {
    writable = rw (ap (λ v. v.sessions) same) h.writable;
    one = λ k. rw (ap (λ v. v.sessions) same) (h.one k);
    listed = λ k. rw (ap (λ v. v.sessions) same, ap (λ v. v.registry) same) (h.listed k);
  };
  on_login = λ fd req out_user w h.
      handle_login-cases (λ r. OneSessionEach r.0 → IsPresent r.0) popen fd req out_user w
        (λ code one. record { writable = h.writable; one = h.one; listed = h.listed })
        (λ u slot p one. finish_login-IsPresent fd u slot w p.absent p.free h one)
        (handle_login-OneSessionEach popen fd req out_user w h.one);
  on_end = close_session-IsPresent;
}
