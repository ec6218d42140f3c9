-- ===== src/System.antt =====
-- The whole server: the shared state, and the connections that its workers serve (server/server.c),
-- beside the timer (server/auction_engine.c). Every handler is one step; in which order the
-- connections and the timer take their steps is the environment's choice.
pub mod History
pub mod Keeps
pub mod Trade
pub mod Bids
pub mod Closing
pub mod Reopen
pub mod Refund
pub mod Outcry
pub mod Disputes
pub mod Accounts
pub mod Quiet
pub mod Service
pub mod Money
pub mod Unpaid
pub mod Run
pub mod Conserve
pub mod Pool
pub mod Sessions
use online_auction_system.Base.{
  ℕ, zero, suc, ◌≡◌, Bool, true, false, Option, none, some, List, [], ◌∷◌, ◌++◌, get_elem?, set,
  if◌then◌else◌,
}
use online_auction_system.Base.Money.{ℤ, pos, leb_ℤ}
use online_auction_system.Base.Bytes.{Bytes}
use online_auction_system.Models.{User, zero_user}
use online_auction_system.World.{World}
use online_auction_system.AuctionEngine.{timer_tick}
use online_auction_system.Server.Dispatch.{Request, Connection, handle_message, clean_up}

pub record System : Type 0 where
  pub world : World
  pub connections : List Connection

-- What may happen next: a worker takes a connection, a message arrives on connection `i`, connection
-- `i` ends, the clock moves, or the timer wakes up.
pub data Event : Type 0 where
  connect : (client_fd : ℤ) → Event
  receive : (i : ℕ) → Request → Event
  disconnect : (i : ℕ) → Event
  clock : (now : ℕ) → Event
  tick : Event

-- The variables of `handle_client` at its start.
abbrev pub fresh_connection : ℤ → Connection
fresh_connection client_fd = record {
  client_fd = client_fd;
  current_user = zero_user;
  authenticated = false;
  running = true;
}

-- A connection that has ended takes part in nothing more.
abbrev pub ended : Connection → Connection
ended c = record c { authenticated = false; running = false }

module _ (popen : Bytes → Option Bytes) where
  -- What `handle_client` does at an event of one of its connections.
  unfoldable pub serve_one : Request → ℕ → Connection → System → System
  serve_one req i c s =
      let r = handle_message popen req c s.world in
      if c.running then record { world = r.0; connections = set s.connections i r.1 } else s

  unfoldable pub step : Event → System → System
  unfolding serve_one
  step (connect client_fd) s =
      if leb_ℤ client_fd (pos 0)
      then s
      else record s { connections = s.connections ++ (fresh_connection client_fd ∷ []) }
  step (receive i req) s = elim (get_elem? s.connections i) [
    | none ↦ s
    | some c ↦ serve_one req i c s
  ]
  step (disconnect i) s = elim (get_elem? s.connections i) [
    | none ↦ s
    | some c ↦ record {
      world = clean_up popen c s.world;
      connections = set s.connections i (ended c);
    }
  ]
  step (clock now) s = record s { world = record s.world { now = now } }
  step tick s = record s { world = timer_tick s.world }

  unfoldable pub run : List Event → System → System
  run [] s = s
  run (e ∷ es) s = run es (step e s)
