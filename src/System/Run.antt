-- ===== src/System/Run.antt =====
-- The whole server over any sequence of events: messages on any number of connections, logins and
-- disconnections, and the timer, in any order.
use online_auction_system.Base.{
  ℕ, ◌≡◌, refl, Bool, Option, some, true, false, Bool-cases, Option-cases, inl, inr, ◌∷◌, [], List,
  if◌then◌else◌, All, All-append, All-set, All-imp, All-get, get_elem?, set,
}
use online_auction_system.Base.Money.{ℤ, pos, leb_ℤ}
use online_auction_system.Base.Bytes.{Bytes}
use online_auction_system.World.{World}
use online_auction_system.Server.Dispatch.{Connection, clean_up, handle_message, Request}
use online_auction_system.System.{
  System, Event, connect, receive, disconnect, clock, tick, fresh_connection, ended, serve_one,
  step, run,
}
use online_auction_system.System.Keeps.{InOrder, Keeps, Keeps-files, Keeps-trans}
use online_auction_system.System.History.{Evolves, Follows, FollowsDispute}
use online_auction_system.System.Closing.{timer_tick-Keeps}
use online_auction_system.System.Quiet.{SameFiles-Keeps, clean_up-SameFiles}
use online_auction_system.System.Service.{
  HasRoom, IsKnown, IsTimely, IsKnown-stays, handle_message-Serves,
}

-- The data files are in order, and every connection that is logged in speaks for a user on file.
pub record IsSound (s : System) : Type 0 where
  pub in_order : InOrder s.world
  pub known : All (IsKnown s.world) s.connections

-- What an event needs of the state in which it happens: room for one more record, and, for a change
-- of password, that the connection's copy of the user has the wallet that is on file.
abbrev pub IsFit : Event → System → Type 0
IsFit (receive i req) s =
    HasRoom s.world
    × ((c : Connection) → get_elem? s.connections i ≡ some c → IsTimely s.world c req)
IsFit _ s = Unit

-- A step that keeps the files in order, with the connections it leaves.
still-IsKnown :
    (s : System) {w : World}
    → Keeps s.world w
    → All (IsKnown s.world) s.connections
    → All (IsKnown w) s.connections
still-IsKnown s {w} k known =
    All-imp (IsKnown s.world) (IsKnown w) s.connections
      (λ c. IsKnown-stays s.world w c k.users_stay) known

-- From `s` to `s'` the files go on as the handlers keep them, and the connections stay known.
pub record GoesOn (s s' : System) : Type 0 where
  pub keeps : Keeps s.world s'.world
  pub known : All (IsKnown s'.world) s'.connections

abbrev GoesOn-refl : (s : System) → IsSound s → GoesOn s s
GoesOn-refl s h = record { keeps = Keeps-files h.in_order refl refl refl; known = h.known }

choose-GoesOn :
    {s : System} (b : Bool) (t u : System) → GoesOn s t → GoesOn s u → GoesOn s (if b then t else u)
choose-GoesOn true t u h h' = h
choose-GoesOn false t u h h' = h'

module _ (popen : Bytes → Option Bytes) where
  -- Every event along the run is fit for the state in which it happens.
  abbrev pub AllFit : List Event → System → Type 0
  AllFit [] s = Unit
  AllFit (e ∷ es) s = IsFit e s × AllFit es (step popen e s)

  receive-GoesOn :
      (i : ℕ) (req : Request) (s : System)
      → IsSound s
      → IsFit (receive i req) s
      → GoesOn s (step popen (receive i req) s)
  unfolding step serve_one
  receive-GoesOn i req s h (room, timely) = elim (Option-cases (get_elem? s.connections i)) [
    | inl absent ↦ rw (absent, step) (GoesOn-refl s h)
    | inr (c, there) ↦
        let known = All-get (IsKnown s.world) s.connections i h.known there in
        let (k, still) =
          handle_message-Serves popen req c s.world h.in_order room known (timely c there) in
        let r = handle_message popen req c s.world in
        rw (there, step)
          (choose-GoesOn c.running record { world = r.0; connections = set s.connections i r.1 } s
            record {
              keeps = k;
              known = All-set (IsKnown r.0) s.connections i r.1 (still-IsKnown s k h.known) still;
            }
            (GoesOn-refl s h))
  ]

  disconnect-GoesOn : (i : ℕ) (s : System) → IsSound s → GoesOn s (step popen (disconnect i) s)
  unfolding step
  disconnect-GoesOn i s h = elim (Option-cases (get_elem? s.connections i)) [
    | inl absent ↦ rw (absent, step) (GoesOn-refl s h)
    | inr (c, there) ↦
        let k = SameFiles-Keeps (clean_up-SameFiles popen c s.world) h.in_order in
        rw (there, step)
          record {
            keeps = k;
            known =
                All-set (IsKnown (clean_up popen c s.world)) s.connections i (ended c)
                  (still-IsKnown s k h.known) (inl refl);
          }
  ]

  connect-GoesOn : (fd : ℤ) (s : System) → IsSound s → GoesOn s (step popen (connect fd) s)
  unfolding step
  connect-GoesOn fd s h = elim (Bool-cases (leb_ℤ fd (pos 0))) [
    | inl bad ↦ rw bad (GoesOn-refl s h)
    | inr good ↦ rw good record {
      keeps = Keeps-files h.in_order refl refl refl;
      known =
          All-append (IsKnown s.world) s.connections (fresh_connection fd ∷ []) h.known
            (inl refl, tt);
    }
  ]

  step-GoesOn : (e : Event) (s : System) → IsSound s → IsFit e s → GoesOn s (step popen e s)
  unfolding step
  step-GoesOn (connect fd) s h fit = connect-GoesOn fd s h
  step-GoesOn (receive i req) s h fit = receive-GoesOn i req s h fit
  step-GoesOn (disconnect i) s h fit = disconnect-GoesOn i s h
  step-GoesOn (clock now) s h fit = record {
    keeps = Keeps-files h.in_order refl refl refl;
    known = h.known;
  }
  step-GoesOn tick s h fit =
      let k = timer_tick-Keeps h.in_order in record { keeps = k; known = still-IsKnown s k h.known }

  pub step-IsSound : (e : Event) (s : System) → IsSound s → IsFit e s → IsSound (step popen e s)
  step-IsSound e s h fit =
      let g = step-GoesOn e s h fit in record { in_order = g.keeps.in_order; known = g.known }

  run-GoesOn : (es : List Event) (s : System) → IsSound s → AllFit es s → GoesOn s (run popen es s)
  unfolding run
  run-GoesOn [] s h fit = GoesOn-refl s h
  run-GoesOn (e ∷ es) s h fit =
      let first = step-GoesOn e s h fit.0 in
      let rest = run-GoesOn es (step popen e s) (step-IsSound e s h fit.0) fit.1 in
      record { keeps = Keeps-trans first.keeps rest.keeps; known = rest.known }

  -- Where the files are in order and every connection that is logged in speaks for a user on file,
  -- this still holds after any sequence of events, each one a single step and with amounts that are
  -- numbers, if each event is fit for the state in which it happens: ids have room for one more record, and a password is changed only while the connection's
  -- copy of the user has the wallet that is on file.
  pub run-IsSound :
      (es : List Event) (s : System) → IsSound s → AllFit es s → IsSound (run popen es s)
  run-IsSound es s h fit =
      let g = run-GoesOn es s h fit in record { in_order = g.keeps.in_order; known = g.known }

  -- Where the files are in order and every connection that is logged in speaks for a user on file,
  -- after any sequence of events, each one a single step, with amounts that are numbers, and fit for the
  -- state in which it happens (ids have room for one more record, and a password is changed only while
  -- the connection's copy of the user has the wallet that is on file): every auction is still on file, with the same seller, prices asked and end, and a price that has not
  -- fallen, and once it is not open, its winner and price stay, and it never opens again; and every
  -- dispute is still on file, about the same auction, by the same user and for the same reason, and
  -- once it is decided, it stays as it is.
  pub run-Follows :
      (es : List Event) (s : System)
      → IsSound s
      → AllFit es s
      → let w' = (run popen es s).world in
        Evolves Follows s.world.auctions w'.auctions
        × Evolves FollowsDispute s.world.disputes w'.disputes
  run-Follows es s h fit =
      let k = (run-GoesOn es s h fit).keeps in (k.auctions_go_on, k.disputes_go_on)
