-- ===== src/System/Pool/Order.antt =====
-- The order in which the workers of server/server.c serve the connections, and how many at a time.
use online_auction_system.Base.{
  ◌+◌, ◌≡◌, ◌⊎◌, ◌∙◌, refl, sym, ap, Bool, true, false, Option, none, some, List, [], ◌∷◌, ◌++◌,
  arith, ◌==◌, if◌then◌else◌, filter, length, Bool-cases, Option-cases, inl, inr, append_assoc,
  append-nil,
}
use online_auction_system.Base.Money.{ℤ, pos, leb_ℤ, ltb_ℤ}
use online_auction_system.Base.Bytes.{Bytes}
use online_auction_system.World.{World}
use online_auction_system.Server.WorkQueue.{
  WorkQueue, work_queue_size, enqueue_client, dequeue_client,
}
use online_auction_system.Server.WorkQueue.Refine.{
  IsValid, queued, pop, view, init_work_queue-IsValid, enqueue_client-IsValid, enqueue_client-push,
  dequeue_client-IsValid, dequeue_client-pop,
}
use online_auction_system.System.{connect, receive, disconnect, clock, tick, fresh_connection, step}
use online_auction_system.System.Pool.{
  Pool, Turn, happens, takes, start_pool, thread_pool_size, accept_client, start_client,
  worker_thread, turn, run_pool,
}
use online_auction_system.System.Pool.Clients.{
  live, fds, clients, is_served, IsStaffed, Goes, live-append, fds-append, filter-append, same-Goes,
  system-Goes, receive-Same, end_client-Goes,
}

-- The sockets that a turn adds to the ones that are or will be served: what `accept` returned, where
-- it is a socket and the work queue has taken it.
abbrev pub admits : Turn → Pool → List ℤ
admits (happens (connect fd)) s =
    if (enqueue_client fd s.queue).1 then filter is_served (fd ∷ []) else []
admits _ s = []

choose_nil : (b : Bool) → let no_fds : List ℤ = [] in (if b then no_fds else no_fds) ≡ no_fds
choose_nil true = refl
choose_nil false = refl

-- The queue after `enqueue_client`, by what it returned.
queued-enqueue_client :
    (fd : ℤ) {wq : WorkQueue}
    → IsValid wq
    → filter is_served (queued (enqueue_client fd wq).0)
      ≡ filter is_served (queued wq)
        ++ (if (enqueue_client fd wq).1 then filter is_served (fd ∷ []) else [])
queued-enqueue_client fd {wq} v =
    let same = enqueue_client-push fd v in
    elim (Bool-cases (length (queued wq) == work_queue_size)) [
      | inl full ↦
          let pushed : (queued (enqueue_client fd wq).0, (enqueue_client fd wq).1)
              ≡ (queued wq, false) =
            rw full at same in
          rw (ap (λ r. r.0) pushed, ap (λ r. r.1) pushed)
            (sym (append-nil (filter is_served (queued wq))))
      | inr room ↦
          let pushed : (queued (enqueue_client fd wq).0, (enqueue_client fd wq).1)
              ≡ (queued wq ++ (fd ∷ []), true) =
            rw room at same in
          rw (ap (λ r. r.0) pushed, ap (λ r. r.1) pushed) (filter-append (queued wq) fd)
    ]

accept_client-Goes :
    (fd : ℤ) {s : Pool}
    → IsStaffed s
    → Goes (admits (happens (connect fd)) s) s (accept_client fd s)
unfolding accept_client
accept_client-Goes fd {s} h = elim (Bool-cases (ltb_ℤ fd (pos 0))) [
  | inl failed ↦
      let unserved : is_served fd ≡ false = ground arith in
      rw (failed, unserved, choose_nil (enqueue_client fd s.queue).1) (same-Goes h)
  | inr socket ↦
      rw (socket, accept_client)
        record {
          staffed = record { valid = enqueue_client-IsValid fd h.valid; workers = h.workers };
          in_order =
              ap (λ q. fds s.system.connections ++ q) (queued-enqueue_client fd h.valid)
              ∙ sym (
                  append_assoc (fds s.system.connections) (filter is_served (queued s.queue))
                    (admits (happens (connect fd)) s));
        }
]

pop-none : (q : List ℤ) → pop q ≡ none → q ≡ []
pop-none [] e = refl
pop-none (x ∷ q) e = cc

pop-some : (q : List ℤ) {fd : ℤ} {rest : List ℤ} → pop q ≡ some (fd, rest) → q ≡ fd ∷ rest
pop-some [] e = cc
pop-some (x ∷ q) e = cc

-- What waited before `dequeue_client`: the socket that it hands out, and then the others.
dequeue_client-queued :
    (wq : WorkQueue) {queue : WorkQueue} {fd : ℤ}
    → dequeue_client wq ≡ some (fd, queue)
    → queued wq ≡ fd ∷ queued queue
dequeue_client-queued wq out = pop-some (queued wq) (sym (dequeue_client-pop wq) ∙ ap view out)

module _ (popen : Bytes → Option Bytes) where
  start_client-Goes :
      (fd : ℤ) (queue : WorkQueue) {s : Pool}
      → (s.idle == 0) ≡ false
      → dequeue_client s.queue ≡ some (fd, queue)
      → IsStaffed s
      → Goes [] s (start_client popen fd queue s)
  unfolding step
  start_client-Goes fd queue {s} free out h =
      let waits = dequeue_client-queued s.queue out in
      let valid = dequeue_client-IsValid h.valid out in
      let c = fresh_connection fd in
      let counted = live-append s.system.connections c in
      let workers = h.workers in
      elim (Bool-cases (leb_ℤ fd (pos 0))) [
        | inl unserved ↦ rw (unserved) record {
          staffed = record { valid = valid; workers = workers };
          in_order =
              ap (λ q. fds s.system.connections ++ q) (sym (rw (waits, unserved) refl))
              ∙ sym (append-nil (clients s));
        }
        | inr served ↦ rw (served) record {
          staffed = record { valid = valid; workers = ground arith };
          in_order =
              ap (λ q. q ++ filter is_served (queued queue)) (fds-append s.system.connections c)
              ∙ append_assoc (fds s.system.connections) (fd ∷ []) (filter is_served (queued queue))
              ∙ ap (λ q. fds s.system.connections ++ q) (sym (rw (waits, served) refl))
              ∙ sym (append-nil (clients s));
        }
      ]

  worker_thread-Goes : {s : Pool} → IsStaffed s → Goes [] s (worker_thread popen s)
  unfolding worker_thread
  worker_thread-Goes {s} h = elim (Bool-cases (s.idle == 0)) [
    | inl busy ↦ rw (busy, worker_thread) (same-Goes h)
    | inr free ↦ elim (Option-cases (dequeue_client s.queue)) [
      | inl empty ↦ rw (free, empty, worker_thread) (same-Goes h)
      | inr ((fd, queue), out) ↦
          rw (free, out, worker_thread) (start_client-Goes fd queue free out h)
    ]
  ]

  turn-Goes : (t : Turn) {s : Pool} → IsStaffed s → Goes (admits t s) s (turn popen t s)
  unfolding turn step
  turn-Goes takes h = worker_thread-Goes h
  turn-Goes (happens (connect fd)) h = accept_client-Goes fd h
  turn-Goes (happens (disconnect i)) h = end_client-Goes popen i h
  turn-Goes (happens (receive i req)) {s} h = system-Goes (receive-Same popen i req s.system) h
  turn-Goes (happens (clock now)) h = system-Goes (record { same_fds = refl; same_live = refl }) h
  turn-Goes (happens tick) h = system-Goes (record { same_fds = refl; same_live = refl }) h

  -- What the turns of a run add, in order.
  abbrev pub all_admitted : List Turn → Pool → List ℤ
  all_admitted [] s = []
  all_admitted (t ∷ ts) s = admits t s ++ all_admitted ts (turn popen t s)

  run_pool-Goes :
      (ts : List Turn) {s : Pool} → IsStaffed s → Goes (all_admitted ts s) s (run_pool popen ts s)
  unfolding run_pool
  run_pool-Goes [] h = same-Goes h
  run_pool-Goes (t ∷ ts) {s} h =
      let first = turn-Goes t h in
      let rest = run_pool-Goes ts first.staffed in
      record {
        staffed = rest.staffed;
        in_order =
            rest.in_order
            ∙ ap (λ q. q ++ all_admitted ts (turn popen t s)) first.in_order
            ∙ append_assoc (clients s) (admits t s) (all_admitted ts (turn popen t s));
      }

start_pool-IsStaffed : (w : World) → IsStaffed (start_pool w)
unfolding live
start_pool-IsStaffed w = record { valid = init_work_queue-IsValid.0; workers = refl }

-- A worker's turn takes one of the waiting sockets, unless all workers are busy or none waits.
abbrev pub Advances : (Bytes → Option Bytes) → Pool → Type 0
Advances popen s =
    (s.idle ≡ 0)
    ⊎ (queued s.queue ≡ [])
    ⊎ (length (queued (worker_thread popen s).queue) + 1 ≡ length (queued s.queue))

worker_thread-Advances : (popen : Bytes → Option Bytes) (s : Pool) → Advances popen s
unfolding worker_thread
worker_thread-Advances popen s = elim (Bool-cases (s.idle == 0)) [
  | inl busy ↦ inl (ground arith)
  | inr free ↦ elim (Option-cases (dequeue_client s.queue)) [
    | inl empty ↦
        inr (inl (pop-none (queued s.queue) (sym (dequeue_client-pop s.queue) ∙ ap view empty)))
    | inr ((fd, queue), out) ↦
        inr (inr (rw (free, out, worker_thread, dequeue_client-queued s.queue out) (omega arith)))
  ]
]

-- From the start of the server, whatever happens in whatever order: the sockets that `accept` returned
-- and the work queue took are served in this order, none twice and none left out, first the ones that
-- workers have taken and then the ones that wait; each of the eight workers is idle or serves one
-- connection; and a worker's next turn takes one more of the waiting sockets, unless all workers are
-- busy or none waits.
pub run_pool_in_order :
    (popen : Bytes → Option Bytes) (ts : List Turn) (w : World)
    → let s = run_pool popen ts (start_pool w) in
      (clients s ≡ all_admitted popen ts (start_pool w))
      × (live s.system.connections + s.idle ≡ thread_pool_size)
      × Advances popen s
run_pool_in_order popen ts w =
    let whole = run_pool-Goes popen ts (start_pool-IsStaffed w) in
    (
      whole.in_order
          ∙ ap (λ q. filter is_served q ++ all_admitted popen ts (start_pool w))
              init_work_queue-IsValid.1,
      whole.staffed.workers,
      worker_thread-Advances popen (run_pool popen ts (start_pool w)),
    )
