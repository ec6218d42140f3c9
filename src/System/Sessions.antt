-- ===== src/System/Sessions.antt =====
-- The sessions of the whole server: whatever the connections and the timer do, in any order.
use online_auction_system.Base.{
  ℕ, refl, Bool, Option, some, none, true, false, Bool-cases, Option-cases, inl, inr, ◌∷◌, [], List,
  if◌then◌else◌, get_elem?, set, ◌∙◌,
}
use online_auction_system.Base.Money.{pos, leb_ℤ}
use online_auction_system.Base.Bytes.{Bytes}
use online_auction_system.Models.{Auction}
use online_auction_system.World.{World}
use online_auction_system.World.FileIo.{read_auction}
use online_auction_system.BidHandler.{is_open}
use online_auction_system.AuctionEngine.{
  timer_close, timer_close_all, timer_round, timer_tick, expired_ids,
}
use online_auction_system.Auth.Sessions.{OneSessionEach}
use online_auction_system.Auth.Presence.{IsPresent, IsPresent-IsLasting}
use online_auction_system.Server.Dispatch.{handle_message}
use online_auction_system.Server.SamePresence.{SamePresence, close_auction_internal-SamePresence}
use online_auction_system.Server.Conversation.{
  IsLasting, OneSessionEach-IsLasting, handle_message-lasts, clean_up-lasts,
}
use online_auction_system.System.{
  System, Event, connect, receive, disconnect, clock, tick, serve_one, step, run,
}

timer_close-SamePresence : (id : ℕ) (w : World) → SamePresence w (timer_close id w)
unfolding timer_close
timer_close-SamePresence id w = elim (Option-cases (read_auction id w)) [
  | inl absent ↦ rw (absent, timer_close) refl
  | inr (a, found) ↦ elim (Bool-cases (is_open a.status)) [
    | inl opened ↦ rw (found, opened, timer_close) (close_auction_internal-SamePresence a w)
    | inr shut ↦ rw (found, shut, timer_close) refl
  ]
]

timer_close_all-SamePresence : (ids : List ℕ) (w : World) → SamePresence w (timer_close_all ids w)
unfolding timer_close_all
timer_close_all-SamePresence [] w = refl
timer_close_all-SamePresence (id ∷ ids) w =
    timer_close_all-SamePresence ids (timer_close id w) ∙ timer_close-SamePresence id w

timer_round-SamePresence :
    (contents : Option (List Auction)) (w : World) → SamePresence w (timer_round contents w)
unfolding timer_round
timer_round-SamePresence none w = refl
timer_round-SamePresence (some all) w = timer_close_all-SamePresence (expired_ids w.now all) w

timer_tick-SamePresence : (w : World) → SamePresence w (timer_tick w)
unfolding timer_tick
timer_tick-SamePresence w = timer_round-SamePresence w.auctions.contents w

module _ {ℓ} {P : World → Type ℓ} {popen : Bytes → Option Bytes} (l : IsLasting popen P) where
  choose-lasts : (b : Bool) (s t : System) → P s.world → P t.world → P (if b then s else t).world
  choose-lasts true s t h h' = h
  choose-lasts false s t h h' = h'

  step-lasts : (e : Event) (s : System) → P s.world → P (step popen e s).world
  unfolding step serve_one
  step-lasts (connect fd) s one = choose-lasts (leb_ℤ fd (pos 0)) s _ one one
  step-lasts (receive i req) s one = elim (Option-cases (get_elem? s.connections i)) [
    | inl absent ↦ rw (absent, step) one
    | inr (c, there) ↦
        let r = handle_message popen req c s.world in
        rw (there, step)
          (choose-lasts c.running record { world = r.0; connections = set s.connections i r.1 } s
            (handle_message-lasts l req c s.world one) one)
  ]
  step-lasts (disconnect i) s one = elim (Option-cases (get_elem? s.connections i)) [
    | inl absent ↦ rw (absent, step) one
    | inr (c, there) ↦ rw (there, step) (clean_up-lasts l c s.world one)
  ]
  step-lasts (clock now) s one = l.on_same refl one
  step-lasts tick s one = l.on_same (timer_tick-SamePresence s.world) one

  pub run-lasts : (es : List Event) (s : System) → P s.world → P (run popen es s).world
  unfolding run
  run-lasts [] s one = one
  run-lasts (e ∷ es) s one = run-lasts es (step popen e s) (step-lasts e s one)

-- Whatever happens on the connections and the timer, in whatever order, no user has two active
-- sessions afterwards, if that held before.
pub run-OneSessionEach :
    (popen : Bytes → Option Bytes) (es : List Event) (s : System)
    → OneSessionEach s.world
    → OneSessionEach (run popen es s).world
run-OneSessionEach popen = run-lasts (OneSessionEach-IsLasting popen)

-- Whatever happens on the connections and the timer, in whatever order: where sessions.dat can be
-- written, no user has two active sessions, and the registry has no more entries of a user than the
-- user has sessions, this holds afterwards.
pub run-IsPresent :
    (popen : Bytes → Option Bytes) (es : List Event) (s : System)
    → IsPresent s.world
    → IsPresent (run popen es s).world
run-IsPresent popen = run-lasts (IsPresent-IsLasting popen)
