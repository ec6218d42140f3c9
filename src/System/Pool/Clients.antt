-- ===== src/System/Pool/Clients.antt =====
-- The connections that the workers of server/server.c serve: their order, and how many there are.
use online_auction_system.Base.{
  ℕ, zero, suc, ◌+◌, ◌≡◌, ◌∙◌, refl, sym, ap, Bool, true, false, not, Option, some, List, [], ◌∷◌,
  ◌++◌, map, arith, ◌&&◌, if◌then◌else◌, get_elem?, set, filter, Bool-cases, Option-cases, inl, inr,
  append-nil,
}
use online_auction_system.Base.Money.{ℤ, pos, leb_ℤ}
use online_auction_system.Base.Bytes.{Bytes}
use online_auction_system.World.{World}
use online_auction_system.Server.Dispatch.{
  Request, Connection, is_login, permits, serve, handle_message,
}
use online_auction_system.Server.WorkQueue.Refine.{IsValid, queued}
use online_auction_system.System.{System, receive, disconnect, ended, serve_one, step}
use online_auction_system.System.Pool.{Pool, thread_pool_size, is_live, end_client}

abbrev weight : Connection → ℕ
weight c = if is_live c then 1 else 0

-- How many connections are being served.
unfoldable pub live : List Connection → ℕ
live [] = 0
live (c ∷ cs) = weight c + live cs

pub live-append :
    (cs : List Connection) (c : Connection) → live (cs ++ (c ∷ [])) ≡ live cs + weight c
unfolding live
live-append [] c = omega arith
live-append (x ∷ cs) c = omega (arith, live-append cs c)

live-set :
    (cs : List Connection) (i : ℕ) (c' : Connection) {c : Connection}
    → get_elem? cs i ≡ some c
    → live (set cs i c') + weight c ≡ live cs + weight c'
unfolding live
live-set [] i c' e = cc
live-set (x ∷ cs) zero c' {c} e = let q : x ≡ c = cc in rw q (omega arith)
live-set (x ∷ cs) (suc i) c' e = omega (arith, live-set cs i c' e)

abbrev pub fds : List Connection → List ℤ
fds cs = map (λ c. c.client_fd) cs

pub fds-append :
    (cs : List Connection) (c : Connection) → fds (cs ++ (c ∷ [])) ≡ fds cs ++ (c.client_fd ∷ [])
fds-append [] c = refl
fds-append (x ∷ cs) c = ap (λ q. x.client_fd ∷ q) (fds-append cs c)

fds-set :
    (cs : List Connection) (i : ℕ) (c' : Connection) {c : Connection}
    → get_elem? cs i ≡ some c
    → c'.client_fd ≡ c.client_fd
    → fds (set cs i c') ≡ fds cs
fds-set [] i c' e same = cc
fds-set (x ∷ cs) zero c' {c} e same = let q : x ≡ c = cc in rw (same, q) refl
fds-set (x ∷ cs) (suc i) c' e same = ap (λ q. x.client_fd ∷ q) (fds-set cs i c' e same)

-- A socket that `handle_client` serves.
abbrev pub is_served : ℤ → Bool
is_served fd = not (leb_ℤ fd (pos 0))

-- The connections in the order in which workers took them, and then the sockets that wait.
abbrev pub clients : Pool → List ℤ
clients s = fds s.system.connections ++ filter is_served (queued s.queue)

pub filter-append :
    (xs : List ℤ) (x : ℤ)
    → filter is_served (xs ++ (x ∷ []))
      ≡ filter is_served xs ++ (if is_served x then x ∷ [] else [])
filter-append [] x = refl
filter-append (y ∷ xs) x = elim (Bool-cases (is_served y)) [
  | inl served ↦ rw (served, filter-append xs x) refl
  | inr passed ↦ rw (passed, filter-append xs x) refl
]

-- The queue holds a circular buffer, and each of the eight workers is idle or serves a connection.
pub record IsStaffed (s : Pool) : Type 0 where
  pub valid : IsValid s.queue
  pub workers : live s.system.connections + s.idle ≡ thread_pool_size

-- A message changes neither the socket of a connection nor, before its end, that it is served.
pub record Stays (c c' : Connection) : Type 0 where
  pub same_fd : c'.client_fd ≡ c.client_fd
  pub still_live : is_live c' ≡ true

-- What the connections have in common before and after a step.
pub record Same (cs cs' : List Connection) : Type 0 where
  pub same_fds : fds cs' ≡ fds cs
  pub same_live : live cs' ≡ live cs

-- Each turn adds at the end of `clients` what it admits, and keeps the workers together.
pub record Goes (new : List ℤ) (s s' : Pool) : Type 0 where
  pub staffed : IsStaffed s'
  pub in_order : clients s' ≡ clients s ++ new

pub same-Goes : {s : Pool} → IsStaffed s → Goes [] s s
same-Goes {s} h = record { staffed = h; in_order = sym (append-nil (clients s)) }

pub system-Goes :
    {s : Pool} {t : System}
    → Same s.system.connections t.connections
    → IsStaffed s
    → Goes [] s (record s { system = t })
system-Goes {s} {t} same h = record {
  staffed = record { valid = h.valid; workers = rw same.same_live h.workers };
  in_order =
      ap (λ q. q ++ filter is_served (queued s.queue)) same.same_fds ∙ sym (append-nil (clients s));
}

module _ (popen : Bytes → Option Bytes) where
  serve-Stays :
      (req : Request) (c : Connection) (w : World)
      → c.running ≡ true
      → (not c.authenticated && not (is_login req)) ≡ false
      → Stays c (serve popen req c w).1
  unfolding serve
  serve-Stays (Request.login req) c w runs known = record {
    same_fd = refl;
    still_live = ground arith;
  }
  serve-Stays Request.logout c w runs known = record { same_fd = refl; still_live = ground arith }
  serve-Stays (Request.change_pass req) c w runs known = record {
    same_fd = refl;
    still_live = ground arith;
  }
  serve-Stays (Request.deposit req) c w runs known = record {
    same_fd = refl;
    still_live = ground arith;
  }
  serve-Stays _ c w runs known = record { same_fd = refl; still_live = ground arith }

  handle_message-Stays :
      (req : Request) (c : Connection) (w : World)
      → c.running ≡ true
      → Stays c (handle_message popen req c w).1
  unfolding handle_message
  handle_message-Stays req c w runs =
      let stays : Stays c c = record { same_fd = refl; still_live = ground arith } in
      elim (Bool-cases (not c.authenticated && not (is_login req))) [
        | inl stranger ↦ rw stranger stays
        | inr known ↦ elim (Bool-cases (permits req c.current_user.role)) [
          | inr denied ↦ rw (known, denied) stays
          | inl allowed ↦ rw (known, allowed) (serve-Stays req c w runs known)
        ]
      ]

  choose-Same :
      (b : Bool) (s t : System)
      → (b ≡ true → Same s.connections t.connections)
      → Same s.connections (if b then t else s).connections
  choose-Same true s t h = h refl
  choose-Same false s t h = record { same_fds = refl; same_live = refl }

  message-Same :
      (i : ℕ) (req : Request) (s : System) {c : Connection}
      → get_elem? s.connections i ≡ some c
      → c.running ≡ true
      → Same s.connections (set s.connections i (handle_message popen req c s.world).1)
  message-Same i req s {c} there runs =
      let stays = handle_message-Stays req c s.world runs in
      let c' = (handle_message popen req c s.world).1 in
      let counted = live-set s.connections i c' there in
      record {
        same_fds = fds-set s.connections i c' there stays.same_fd;
        same_live = ground (arith, stays.still_live);
      }

  pub receive-Same :
      (i : ℕ) (req : Request) (s : System)
      → Same s.connections (step popen (receive i req) s).connections
  unfolding step serve_one
  receive-Same i req s = elim (Option-cases (get_elem? s.connections i)) [
    | inl absent ↦ rw (absent, step) record { same_fds = refl; same_live = refl }
    | inr (c, there) ↦
        let r = handle_message popen req c s.world in
        rw (there, step)
          (choose-Same c.running s record { world = r.0; connections = set s.connections i r.1 }
            (message-Same i req s there))
  ]

  disconnect-connections :
      (i : ℕ) (s : System) {c : Connection}
      → get_elem? s.connections i ≡ some c
      → (step popen (disconnect i) s).connections ≡ set s.connections i (ended c)
  unfolding step
  disconnect-connections i s there = rw (there, step) refl

  pub end_client-Goes : (i : ℕ) {s : Pool} → IsStaffed s → Goes [] s (end_client popen i s)
  unfolding end_client
  end_client-Goes i {s} h = elim (Option-cases (get_elem? s.system.connections i)) [
    | inl absent ↦ rw (absent, end_client) (same-Goes h)
    | inr (c, there) ↦ elim (Bool-cases (is_live c)) [
      | inr over ↦ rw (there, end_client, over) (same-Goes h)
      | inl alive ↦
          let counted = live-set s.system.connections i (ended c) there in
          let over = disconnect-connections i s.system there in
          let workers = h.workers in
          rw (there, end_client, alive)
            record {
              staffed = record { valid = h.valid; workers = rw over (ground arith) };
              in_order =
                  ap (λ q. fds q ++ filter is_served (queued s.queue)) over
                  ∙ ap (λ q. q ++ filter is_served (queued s.queue))
                      (fds-set s.system.connections i (ended c) there refl)
                  ∙ sym (append-nil (clients s));
            }
    ]
  ]
