-- ===== src/Client/Listener.antt =====
-- The loop of `listener_thread` of client/client.c: it prints notifications, and leaves the session of
-- the main thread alone.
use online_auction_system.Base.{
  ◌≡◌, ◌∙◌, refl, Bool, true, false, Option, none, some, List, [], ◌∷◌, if◌then◌else◌, arith,
}
use online_auction_system.Client.{Platform, Reply, Terminal, notify, listen}

module _ (p : Platform) where
  -- The turns of the loop, each by what `select` and `trylock` found: `none` when nothing arrives in
  -- time, or else whether `req_lock` is free.
  unfoldable pub listener_thread : List (Option Bool) → Terminal → Terminal
  listener_thread [] t = t
  listener_thread (none ∷ turns) t =
      let rest = listener_thread turns t in if t.logged_in then rest else t
  listener_thread (some lock_free ∷ turns) t =
      let r = listen p lock_free t in
      let rest = listener_thread turns r.0 in if t.logged_in then (if r.1 then rest else r.0) else t

-- The keyboard, the requests sent and the user are as before.
pub record Undisturbed (t t' : Terminal) : Type 0 where
  pub same_stdin : t'.stdin ≡ t.stdin
  pub same_sent : t'.sent ≡ t.sent
  pub same_me : t'.me ≡ t.me
  pub same_logged_in : t'.logged_in ≡ t.logged_in

Undisturbed-refl : (t : Terminal) → Undisturbed t t
Undisturbed-refl t = record {
  same_stdin = refl;
  same_sent = refl;
  same_me = refl;
  same_logged_in = refl;
}

Undisturbed-trans : {t u v : Terminal} → Undisturbed t u → Undisturbed u v → Undisturbed t v
Undisturbed-trans h k = record {
  same_stdin = k.same_stdin ∙ h.same_stdin;
  same_sent = k.same_sent ∙ h.same_sent;
  same_me = k.same_me ∙ h.same_me;
  same_logged_in = k.same_logged_in ∙ h.same_logged_in;
}

notify-Undisturbed : (p : Platform) (r : Reply) (t : Terminal) → Undisturbed t (notify p r t)
unfolding notify
notify-Undisturbed p r t = record {
  same_stdin = ground arith;
  same_sent = ground arith;
  same_me = ground arith;
  same_logged_in = ground arith;
}

-- One turn with the lock, by what is arriving.
take-Undisturbed :
    (p : Platform) (t : Terminal) (arriving : List (Option Reply))
    → t.arriving ≡ arriving
    → Undisturbed t (listen p true t).0
unfolding listen
take-Undisturbed p t [] e =
    rw (e, listen)
      record { same_stdin = refl; same_sent = refl; same_me = refl; same_logged_in = refl }
take-Undisturbed p t (none ∷ rest) e =
    rw (e, listen)
      record { same_stdin = refl; same_sent = refl; same_me = refl; same_logged_in = refl }
take-Undisturbed p t (some r ∷ rest) e =
    let k = notify-Undisturbed p r (record t { arriving = rest }) in
    rw (e, listen)
      record {
        same_stdin = k.same_stdin;
        same_sent = k.same_sent;
        same_me = k.same_me;
        same_logged_in = k.same_logged_in;
      }

listen-Undisturbed : (p : Platform) (b : Bool) (t : Terminal) → Undisturbed t (listen p b t).0
unfolding listen
listen-Undisturbed p false t = Undisturbed-refl t
listen-Undisturbed p true t = take-Undisturbed p t t.arriving refl

choose-Undisturbed :
    (b : Bool) {t u v : Terminal}
    → Undisturbed t u
    → Undisturbed t v
    → Undisturbed t (if b then u else v)
choose-Undisturbed true h k = h
choose-Undisturbed false h k = k

pub listener_thread-Undisturbed :
    (p : Platform) (turns : List (Option Bool)) (t : Terminal)
    → Undisturbed t (listener_thread p turns t)
unfolding listener_thread
listener_thread-Undisturbed p [] t = Undisturbed-refl t
listener_thread-Undisturbed p (none ∷ turns) t =
    choose-Undisturbed t.logged_in (listener_thread-Undisturbed p turns t) (Undisturbed-refl t)
listener_thread-Undisturbed p (some lock_free ∷ turns) t =
    let r = listen p lock_free t in
    let k = listen-Undisturbed p lock_free t in
    choose-Undisturbed t.logged_in
      (choose-Undisturbed r.1 (Undisturbed-trans k (listener_thread-Undisturbed p turns r.0)) k)
      (Undisturbed-refl t)
