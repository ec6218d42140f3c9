-- ===== src/Auth/Sessions.antt =====
-- sessions.dat holds at most one active session for each user (server/auth.c).
use online_auction_system.Base.{
  ℕ, zero, Option, suc, ◌+◌, ◌-◌, ◌≤◌, ◌≡◌, refl, sym, true, some, none, arith, ◌&&◌, ◌==◌, ltb,
  if◌then◌else◌, List, [], ◌∷◌, ◌++◌, length, get_elem?, get_elem?-lt, set, Option-cases,
  Bool-cases, inl, inr,
}
use online_auction_system.Base.Money.{ℤ}
use online_auction_system.Models.{User, Session, zero_session}
use online_auction_system.Store.{records, put}
use online_auction_system.Store.Write.{write_at-writable, write_at-refused}
use online_auction_system.World.{World}
use online_auction_system.World.FileIo.{
  find_session_from, find_session_slot, find_free_from, find_free_slot, write_session,
}
use online_auction_system.Notify.{notify_register, notify_unregister}
use online_auction_system.Auth.{
  close_session, LoginPayload, handle_login, finish_login, handle_logout,
}
use online_auction_system.Auth.Cases.{new_session, handle_login-cases}
use online_auction_system.Base.Bytes.{Bytes}

abbrev pub weight : ℕ → Session → ℕ
weight k s = if s.is_active && s.user_id == k then 1 else 0

-- How many active sessions a user has.
unfoldable pub sessions_of : ℕ → List Session → ℕ
sessions_of k [] = 0
sessions_of k (s ∷ ss) = weight k s + sessions_of k ss

abbrev pub OneSessionEach : World → Type 0
OneSessionEach w = (k : ℕ) → sessions_of k (records w.sessions) ≤ 1

sessions_of-set :
    (k : ℕ) (ss : List Session) (i : ℕ) (s' : Session) {s : Session}
    → get_elem? ss i ≡ some s
    → sessions_of k (set ss i s') + weight k s ≡ sessions_of k ss + weight k s'
unfolding sessions_of
sessions_of-set k [] i s' e = cc
sessions_of-set k (x ∷ ss) zero s' {s} e = let q : x ≡ s = cc in rw q (omega arith)
sessions_of-set k (x ∷ ss) (suc i) s' e = omega (arith, sessions_of-set k ss i s' e)

sessions_of-append :
    (k : ℕ) (ss : List Session) (s : Session)
    → sessions_of k (ss ++ (s ∷ [])) ≡ sessions_of k ss + weight k s
unfolding sessions_of
sessions_of-append k [] s = omega arith
sessions_of-append k (x ∷ ss) s = omega (arith, sessions_of-append k ss s)

pub find_session_from-none :
    (k slot : ℕ) (ss : List Session) → find_session_from k slot ss ≡ none → sessions_of k ss ≡ 0
unfolding find_session_from sessions_of
find_session_from-none k slot [] e = refl
find_session_from-none k slot (s ∷ ss) e = ground (arith, find_session_from-none k (slot + 1) ss)

-- A slot that is found is not before the one where the search began.
find_free_from-ge :
    (n : ℕ) (ss : List Session) (slot : ℕ) → find_free_from n ss ≡ some slot → n ≤ slot
unfolding find_free_from
find_free_from-ge n [] slot e = ground arith
find_free_from-ge n (s ∷ ss) slot e = ground (arith, find_free_from-ge (n + 1) ss slot)

put-suc :
    (z s s' : Session) (ss : List Session) (i : ℕ) → put z (s ∷ ss) (suc i) s' ≡ s ∷ put z ss i s'
put-suc z s s' ss i = ground arith

-- Writing a session into the slot that the search found adds it to the count.
sessions_of-put :
    (k n i : ℕ) (ss : List Session) (s' : Session)
    → find_free_from n ss ≡ some (n + i)
    → sessions_of k (put zero_session ss i s') ≡ sessions_of k ss + weight k s'
unfolding find_free_from sessions_of
sessions_of-put k n zero [] s' e = omega arith
sessions_of-put k n (suc i) [] s' e = absurd (ground arith)
sessions_of-put k n zero (s ∷ ss) s' e =
    ground (arith, find_free_from-ge (n + 1) ss n, find_free_from-ge (n + 1) ss (n + 0))
sessions_of-put k n (suc i) (s ∷ ss) s' e =
    rw (put-suc zero_session s s' ss i) (ground (arith, sessions_of-put k (n + 1) i ss s'))

-- One more session for a user without one.
weight-fresh :
    (k : ℕ) (s : Session) (ss : List Session)
    → sessions_of s.user_id ss ≡ 0
    → sessions_of k ss ≤ 1
    → sessions_of k ss + weight k s ≤ 1
weight-fresh k s ss none_yet one = elim (Bool-cases (s.user_id == k)) [
  | inr other ↦ rw other (ground arith)
  | inl same ↦
      let q : s.user_id ≡ k = ground arith in
      let e : sessions_of k ss ≡ 0 = rw (sym q) none_yet in rw e (ground arith)
]

-- A session in a free slot, of a user without one.
write_session-OneSessionEach :
    (slot : ℕ) (s : Session) (w : World)
    → find_free_slot w ≡ some slot
    → find_session_slot s.user_id w ≡ none
    → OneSessionEach w
    → OneSessionEach (write_session slot s w).0
unfolding find_free_slot find_session_slot
write_session-OneSessionEach slot s w free absent one k = elim (Bool-cases w.sessions.writable) [
  | inr shut ↦ rw (write_at-refused zero_session w.sessions slot s shut) (one k)
  | inl opens ↦
      rw
        (
          write_at-writable zero_session w.sessions slot s opens,
          sessions_of-put k 0 slot (records w.sessions) s (ground arith),
        )
        (weight-fresh k s (records w.sessions)
          (find_session_from-none s.user_id 0 (records w.sessions) absent) (one k))
]

clear_session-OneSessionEach :
    (slot : ℕ) (w : World) {s : Session}
    → get_elem? (records w.sessions) slot ≡ some s
    → OneSessionEach w
    → OneSessionEach (write_session slot zero_session w).0
clear_session-OneSessionEach slot w {s} found one k = elim (Bool-cases w.sessions.writable) [
  | inr shut ↦ rw (write_at-refused zero_session w.sessions slot zero_session shut) (one k)
  | inl opens ↦
      let before = one k in
      let lt = get_elem?-lt (records w.sessions) slot found in
      let inside : ltb slot (length (records w.sessions)) ≡ true = ground arith in
      let less = sessions_of-set k (records w.sessions) slot zero_session found in
      rw (write_at-writable zero_session w.sessions slot zero_session opens, inside) (omega arith)
]

-- A slot that is found is not before the one where the search began.
find_session_from-ge :
    (k n : ℕ) (ss : List Session) (slot : ℕ) → find_session_from k n ss ≡ some slot → n ≤ slot
unfolding find_session_from
find_session_from-ge k n [] slot e = ground arith
find_session_from-ge k n (s ∷ ss) slot e = ground (arith, find_session_from-ge k (n + 1) ss slot)

-- The slot that a search finds is the record of a session of the user.
find_session_from-some :
    (k n i : ℕ) (ss : List Session)
    → find_session_from k n ss ≡ some (n + i)
    → (s : Session) × (get_elem? ss i ≡ some s) × ((s.is_active && s.user_id == k) ≡ true)
unfolding find_session_from
find_session_from-some k n i [] e = absurd (ground arith)
find_session_from-some k n zero (s ∷ ss) e =
    (s, refl, ground (arith, find_session_from-ge k (n + 1) ss (n + 0)))
find_session_from-some k n (suc i) (s ∷ ss) e = find_session_from-some k (n + 1) i ss (ground arith)

pub close_session-OneSessionEach :
    (k : ℕ) (w : World) → OneSessionEach w → OneSessionEach (close_session k w)
unfolding close_session find_session_slot
close_session-OneSessionEach k w one = elim (Option-cases (find_session_slot k w)) [
  | inl absent ↦ rw (absent, close_session) one
  | inr (slot, e) ↦
      rw (e, close_session)
        (clear_session-OneSessionEach slot w
          (find_session_from-some k 0 slot (records w.sessions) (ground arith)).1 one)
]

pub sessions_of-write_session :
    (j slot : ℕ) (s : Session) (w : World)
    → w.sessions.writable ≡ true
    → find_free_slot w ≡ some slot
    → sessions_of j (records (write_session slot s w).0.sessions)
      ≡ sessions_of j (records w.sessions) + weight j s
unfolding find_free_slot
sessions_of-write_session j slot s w opens free =
    rw
      (
        write_at-writable zero_session w.sessions slot s opens,
        sessions_of-put j 0 slot (records w.sessions) s (ground arith),
      )
      refl

-- The session of user `k`, if there is one, is gone.
pub sessions_of-close_session :
    (j k : ℕ) (w : World)
    → w.sessions.writable ≡ true
    → sessions_of j (records (close_session k w).sessions)
      ≡ sessions_of j (records w.sessions) - (if k == j then 1 else 0)
unfolding close_session find_session_slot
sessions_of-close_session j k w opens = elim (Option-cases (find_session_slot k w)) [
  | inl absent ↦
      let gone = find_session_from-none k 0 (records w.sessions) absent in
      elim (Bool-cases (k == j)) [
        | inr other ↦ rw (absent, close_session, other) (omega arith)
        | inl same ↦
            let at : k ≡ j = ground arith in
            let gone_too : sessions_of j (records w.sessions) ≡ 0 = rw (sym at) gone in
            rw (absent, close_session, same, gone_too) refl
      ]
  | inr (slot, e) ↦
      let (s, there, mine) = find_session_from-some k 0 slot (records w.sessions) (ground arith) in
      let lt = get_elem?-lt (records w.sessions) slot there in
      let inside : ltb slot (length (records w.sessions)) ≡ true = ground arith in
      let less = sessions_of-set j (records w.sessions) slot zero_session there in
      rw
        (
          e,
          close_session,
          write_at-writable zero_session w.sessions slot zero_session opens,
          inside,
        )
        (ground (arith, mine))
]

-- A login, whatever its answer, leaves every user with at most one active session, if that held
-- before.
pub handle_login-OneSessionEach :
    (popen : Bytes → Option Bytes) (client_fd : ℤ) (req : LoginPayload) (out_user : User)
    (w : World)
    → OneSessionEach w
    → OneSessionEach (handle_login popen client_fd req out_user w).0
unfolding finish_login notify_register
handle_login-OneSessionEach popen client_fd req out_user w one =
    handle_login-cases (λ r. OneSessionEach r.0) popen client_fd req out_user w (λ code. one)
      (λ u slot h.
        write_session-OneSessionEach slot (new_session client_fd u w) w h.free h.absent one)

pub handle_logout-OneSessionEach :
    (client_fd : ℤ) (u : User) (w : World)
    → OneSessionEach w
    → OneSessionEach (handle_logout client_fd u w)
unfolding handle_logout notify_unregister
handle_logout-OneSessionEach client_fd u w one = close_session-OneSessionEach u.user_id w one
