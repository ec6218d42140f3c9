-- ===== src/System/Pool.antt =====
-- The main thread and the worker threads of server/server.c around the connections: `accept` puts a
-- socket into the work queue, an idle worker takes the oldest one and serves it until it ends.
pub mod Clients
pub mod Order
use online_auction_system.Base.{
  ℕ, suc, ◌-◌, Bool, true, false, Option, none, some, List, [], ◌∷◌, ◌==◌, ◌||◌, if◌then◌else◌,
  get_elem?,
}
use online_auction_system.Base.Money.{ℤ, pos, leb_ℤ, ltb_ℤ}
use online_auction_system.Base.Bytes.{Bytes}
use online_auction_system.World.{World}
use online_auction_system.Server.Dispatch.{Connection}
use online_auction_system.Server.WorkQueue.{
  WorkQueue, init_work_queue, enqueue_client, dequeue_client,
}
use online_auction_system.System.{System, Event, connect, receive, disconnect, clock, tick, step}

abbrev pub thread_pool_size : ℕ
thread_pool_size = 8

-- `idle` workers wait in `dequeue_client`.
pub record Pool : Type 0 where
  pub queue : WorkQueue
  pub idle : ℕ
  pub system : System

-- What may happen next: an event, where `connect` is `accept` returning, or a worker's turn.
pub data Turn : Type 0 where
  happens : Event → Turn
  takes : Turn

-- After `init_work_queue` and `init_thread_pool`.
abbrev pub start_pool : World → Pool
start_pool w = record {
  queue = init_work_queue;
  idle = thread_pool_size;
  system = record { world = w; connections = [] };
}

-- A worker has not yet come to the end of `handle_client`.
abbrev pub is_live : Connection → Bool
is_live c = c.running || c.authenticated

-- One turn of the loop of `main`, for what `accept` returned.
unfoldable pub accept_client : ℤ → Pool → Pool
accept_client client_fd s =
    if ltb_ℤ client_fd (pos 0) then s else record s { queue = (enqueue_client client_fd s.queue).0 }

module _ (popen : Bytes → Option Bytes) where
  -- A worker has the socket from `dequeue_client`; `handle_client` returns at once if it is not
  -- positive.
  abbrev pub start_client : ℤ → WorkQueue → Pool → Pool
  start_client client_fd queue s = record s {
    queue = queue;
    idle = if leb_ℤ client_fd (pos 0) then s.idle else s.idle - 1;
    system = step popen (connect client_fd) s.system;
  }

  -- An idle worker's turn in the loop of `worker_thread`.
  unfoldable pub worker_thread : Pool → Pool
  worker_thread s = if s.idle == 0 then s else elim (dequeue_client s.queue) [
    | none ↦ s
    | some (client_fd, queue) ↦ start_client client_fd queue s
  ]

  -- The end of a connection: its worker goes back to the loop.
  unfoldable pub end_client : ℕ → Pool → Pool
  end_client i s = elim (get_elem? s.system.connections i) [
    | none ↦ s
    | some c ↦
        if is_live c
        then record s { idle = suc s.idle; system = step popen (disconnect i) s.system }
        else s
  ]

  unfoldable pub turn : Turn → Pool → Pool
  turn takes s = worker_thread s
  turn (happens (connect client_fd)) s = accept_client client_fd s
  turn (happens (disconnect i)) s = end_client i s
  turn (happens (receive i req)) s = record s { system = step popen (receive i req) s.system }
  turn (happens (clock now)) s = record s { system = step popen (clock now) s.system }
  turn (happens tick) s = record s { system = step popen tick s.system }

  unfoldable pub run_pool : List Turn → Pool → Pool
  run_pool [] s = s
  run_pool (t ∷ ts) s = run_pool ts (turn t s)
