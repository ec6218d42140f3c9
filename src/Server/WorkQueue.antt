-- ===== src/Server/WorkQueue.antt =====
-- The work queue of server/server.c: a circular buffer of client sockets. The mutex makes each call
-- one step; a worker that finds the queue empty waits, which is the `none` of `dequeue_client`.
pub mod Refine
use online_auction_system.Base.{
  ℕ, ◌+◌, ◌-◌, ◌%◌, Bool, true, false, Option, none, some, List, ◌==◌, if◌then◌else◌, get_elem?,
  set, replicate,
}
use online_auction_system.Base.Money.{ℤ, negsuc}

abbrev pub work_queue_size : ℕ
work_queue_size = 64

pub record WorkQueue : Type 0 where
  pub fds : List ℤ
  pub front : ℕ
  pub rear : ℕ
  pub count : ℕ
  pub ready : Bool

unfoldable pub init_work_queue : WorkQueue
init_work_queue = record {
  fds = replicate work_queue_size (negsuc 0);
  front = 0;
  rear = 0;
  count = 0;
  ready = false;
}

-- The queue after the call, and whether it returned 0 (a full queue closes the socket, -1).
unfoldable pub enqueue_client : ℤ → WorkQueue → WorkQueue × Bool
enqueue_client fd wq = if wq.count == work_queue_size then (wq, false) else (
  record wq {
    fds = set wq.fds wq.rear fd;
    rear = (wq.rear + 1) % work_queue_size;
    count = wq.count + 1;
    ready = true;
  },
  true,
)

-- `none` while the worker waits; the socket is read at `front`, -1 if that is out of range.
unfoldable pub dequeue_client : WorkQueue → Option (ℤ × WorkQueue)
dequeue_client wq =
    if wq.count == 0
    then none
    else some (
      elim (get_elem? wq.fds wq.front) [ some fd ↦ fd | none ↦ negsuc 0 ],
      record wq { front = (wq.front + 1) % work_queue_size; count = wq.count - 1 },
    )
