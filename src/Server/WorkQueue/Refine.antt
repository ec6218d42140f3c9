-- ===== src/Server/WorkQueue/Refine.antt =====
-- The circular buffer of server/server.c is a first-in first-out queue of at most 64 sockets.
use mathlib.Core.Path.{ap₂}
use native.Mathlib.Numerals.{add-one}
use online_auction_system.Base.{
  ℕ, zero, suc, ◌+◌, ◌%◌, ◌≤◌, ◌<◌, ◌≡◌, ◌≢◌, refl, ap, Bool, true, false, Option, none, some, List,
  [], ◌∷◌, ◌++◌, arith, ◌==◌, if◌then◌else◌, length, get_elem?, set, length-set, get_elem?-set_self,
  get_elem?-set_ne, length-replicate, Bool-cases, inl, inr, Option-cases, ◌-◌,
}
use online_auction_system.Base.Money.{ℤ, negsuc}
use online_auction_system.Server.WorkQueue.{
  WorkQueue, work_queue_size, init_work_queue, enqueue_client, dequeue_client,
}

-- A bounded queue of sockets, the oldest first.
abbrev pub push : ℤ → List ℤ → List ℤ × Bool
push fd q = if length q == work_queue_size then (q, false) else (q ++ (fd ∷ []), true)

abbrev pub pop : List ℤ → Option (ℤ × List ℤ)
pop [] = none
pop (fd ∷ q) = some (fd, q)

-- The socket at an index of the array, -1 out of range.
abbrev pub fd_at : List ℤ → ℕ → ℤ
fd_at fds i = elim (get_elem? fds i) [ some fd ↦ fd | none ↦ negsuc 0 ]

-- The `n` sockets that wait from index `i` on, round the end of the array.
abbrev pub waiting : List ℤ → ℕ → ℕ → List ℤ
waiting fds i zero = []
waiting fds i (suc n) = fd_at fds i ∷ waiting fds ((i + 1) % work_queue_size) n

abbrev pub queued : WorkQueue → List ℤ
queued wq = waiting wq.fds wq.front wq.count

pub record IsValid (wq : WorkQueue) : Type 0 where
  pub size : length wq.fds ≡ work_queue_size
  pub front_in : wq.front < work_queue_size
  pub count_in : wq.count ≤ work_queue_size
  pub rear_after : wq.rear ≡ (wq.front + wq.count) % work_queue_size

length-waiting : (fds : List ℤ) (i n : ℕ) → length (waiting fds i n) ≡ n
length-waiting fds i zero = refl
length-waiting fds i (suc n) = ap suc (length-waiting fds ((i + 1) % work_queue_size) n)

fd_at-set_self : (fds : List ℤ) (i : ℕ) (fd : ℤ) → i < length fds → fd_at (set fds i fd) i ≡ fd
fd_at-set_self fds i fd h = rw (get_elem?-set_self fds i fd h, fd_at) refl

fd_at-set_ne : (fds : List ℤ) (i j : ℕ) (fd : ℤ) → i ≢ j → fd_at (set fds i fd) j ≡ fd_at fds j
fd_at-set_ne fds i j fd h = rw (get_elem?-set_ne fds i j fd h, fd_at) refl

-- Storing a socket behind the waiting ones appends it.
waiting-set :
    (fds : List ℤ) (fd : ℤ) (n i j : ℕ)
    → length fds ≡ work_queue_size
    → i < work_queue_size
    → n < work_queue_size
    → j ≡ (i + n) % work_queue_size
    → waiting (set fds j fd) i (suc n) ≡ waiting fds i n ++ (fd ∷ [])
waiting-set fds fd zero i j s hi hn e =
    let same : j ≡ i = omega arith in
    rw (same) (ap (λ x. x ∷ []) (fd_at-set_self fds i fd (omega arith)))
waiting-set fds fd (suc n) i j s hi hn e =
    let other : j ≢ i = omega arith in
    ap₂ ◌∷◌ (fd_at-set_ne fds j i fd other) (
      waiting-set fds fd n ((i + 1) % work_queue_size) j s (omega arith) (omega arith)
        (omega arith))

pub init_work_queue-IsValid : IsValid init_work_queue × (queued init_work_queue ≡ [])
unfolding init_work_queue
init_work_queue-IsValid = (omega (arith, length-replicate work_queue_size (negsuc 0)), refl)

pub enqueue_client-IsValid :
    (fd : ℤ) {wq : WorkQueue} → IsValid wq → IsValid (enqueue_client fd wq).0
unfolding enqueue_client
enqueue_client-IsValid fd {wq} v = ground (arith, length-set wq.fds wq.rear fd)

pub dequeue_client-IsValid :
    {wq wq' : WorkQueue} {fd : ℤ} → IsValid wq → dequeue_client wq ≡ some (fd, wq') → IsValid wq'
unfolding dequeue_client
dequeue_client-IsValid v e = ground arith

pub enqueue_client-push :
    (fd : ℤ) {wq : WorkQueue}
    → IsValid wq
    → let (wq', ok) = enqueue_client fd wq in (queued wq', ok) ≡ push fd (queued wq)
unfolding enqueue_client
enqueue_client-push fd {wq} v = elim (Bool-cases (wq.count == work_queue_size)) [
  | inl full ↦ rw (full, length-waiting wq.fds wq.front wq.count, full) refl
  | inr room ↦
      let behind =
        waiting-set wq.fds fd wq.count wq.front wq.rear v.size v.front_in (ground arith)
          v.rear_after in
      rw (room, length-waiting wq.fds wq.front wq.count, room, add-one) (ap (λ q. (q, true)) behind)
]

-- The oldest socket, and the rest.
pop-waiting :
    (fds : List ℤ) (i n : ℕ)
    → pop (waiting fds i n) ≡ (
        if n == 0
        then none
        else some (fd_at fds i, waiting fds ((i + 1) % work_queue_size) (n - 1)))
pop-waiting fds i zero = refl
pop-waiting fds i (suc n) = ground arith

abbrev pub view : Option (ℤ × WorkQueue) → Option (ℤ × List ℤ)
view none = none
view (some (fd, wq)) = some (fd, queued wq)

pub dequeue_client-pop : (wq : WorkQueue) → view (dequeue_client wq) ≡ pop (queued wq)
unfolding dequeue_client
dequeue_client-pop wq =
    rw (pop-waiting wq.fds wq.front wq.count)
      (elim (Bool-cases (wq.count == 0)) [ inl empty ↦ rw empty refl | inr busy ↦ rw busy refl ])

-- What happens to the queue: the main thread accepts a connection, or a worker asks for one.
pub data Event : Type 0 where
  accepted : ℤ → Event
  asked : Event

-- What the caller sees: whether the connection was queued, the socket handed out, or a wait.
pub data Reply : Type 0 where
  queued_it : Bool → Reply
  handed : ℤ → Reply
  waits : Reply

abbrev pub hand {ℓ} : {Q : Type ℓ} → Q → Option (ℤ × Q) → Reply × Q
hand q none = (waits, q)
hand q (some (fd, q')) = (handed fd, q')

unfoldable pub run : WorkQueue → List Event → List Reply
run wq [] = []
run wq (accepted fd ∷ es) = let (wq', ok) = enqueue_client fd wq in queued_it ok ∷ run wq' es
run wq (asked ∷ es) = let (r, wq') = hand wq (dequeue_client wq) in r ∷ run wq' es

unfoldable pub run_queue : List ℤ → List Event → List Reply
run_queue q [] = []
run_queue q (accepted fd ∷ es) = let (q', ok) = push fd q in queued_it ok ∷ run_queue q' es
run_queue q (asked ∷ es) = let (r, q') = hand q (pop q) in r ∷ run_queue q' es

hand_refines :
    {wq : WorkQueue}
    → IsValid wq
    → let (r, wq') = hand wq (dequeue_client wq) in
      IsValid wq' × ((r, queued wq') ≡ hand (queued wq) (pop (queued wq)))
hand_refines {wq} v = elim (Option-cases (dequeue_client wq)) [
  | inl idle ↦ rw (← dequeue_client-pop wq, idle) (v, refl)
  | inr ((fd, wq'), e) ↦ rw (← dequeue_client-pop wq, e) (dequeue_client-IsValid v e, refl)
]

run_refines : (es : List Event) {wq : WorkQueue} → IsValid wq → run wq es ≡ run_queue (queued wq) es
unfolding run run_queue
run_refines [] v = refl
run_refines (accepted fd ∷ es) v =
    rw (run_refines es (enqueue_client-IsValid fd v), ← enqueue_client-push fd v) refl
run_refines (asked ∷ es) v = let h = hand_refines v in rw (run_refines es h.0, ← h.1) refl

-- From its initial state the work queue gives the same answers, to every sequence of connections
-- and of workers' requests, as a first-in first-out queue of at most 64 sockets.
pub work_queue_refines : (es : List Event) → run init_work_queue es ≡ run_queue [] es
work_queue_refines es =
    let (valid, empty) = init_work_queue-IsValid in rw (← empty) (run_refines es valid)
