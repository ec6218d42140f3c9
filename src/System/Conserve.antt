-- ===== src/System/Conserve.antt =====
-- The money in all wallets over a run of the whole server.
use online_auction_system.Base.{
  ◌≡◌, ◌∙◌, refl, Bool, Option, true, false, not, arith, Bool-cases, Option-cases, inl, inr, [],
  ◌∷◌, List, if◌then◌else◌, ◌&&◌, All, All-get, get_elem?, set,
}
use online_auction_system.Base.Money.{pos, leb_ℤ}
use online_auction_system.Base.Bytes.{Bytes}
use online_auction_system.World.{World}
use online_auction_system.Server.Dispatch.{
  Request, Connection, is_login, permits, serve, handle_message, clean_up,
}
use online_auction_system.Ledger.Timer.{handle_close_auction-KeepsMoney, timer_tick-KeepsMoney}
use online_auction_system.System.{
  System, Event, connect, receive, disconnect, clock, tick, serve_one, step, run,
}
use online_auction_system.System.Keeps.{InOrder}
use online_auction_system.System.Accounts.{IsUserId}
use online_auction_system.System.Quiet.{
  clean_up-SameFiles, handle_view_auctions-SameFiles, handle_view_disputes-SameFiles,
  handle_view_feedback-SameFiles, handle_list_users-SameFiles, handle_view_my_bids-SameFiles,
  handle_view_balance-SameFiles, handle_submit_feedback-SameFiles, handle_logout-SameFiles,
}
use online_auction_system.System.Service.{HasRoom, IsKnown, IsTimely}
use online_auction_system.System.Money.{
  money, SameMoney, SameMoney-files, handle_place_bid-SameMoney,
}
use online_auction_system.System.Unpaid.{
  KeepsMoney-SameMoney, handle_toggle_account-SameMoney, handle_change_role-SameMoney,
  handle_file_dispute-SameMoney, handle_create_auction-SameMoney, handle_change_password-SameMoney,
  handle_add_user-SameMoney, handle_login-SameMoney,
}
use online_auction_system.System.Run.{IsSound, IsFit, AllFit, step-IsSound}

-- A deposit brings money in, and a ruling on a dispute may refund.
abbrev pub moves_money : Request → Bool
moves_money (Request.deposit _) = true
moves_money (Request.resolve_dispute _) = true
moves_money _ = false

abbrev pub brings_money : Event → Bool
brings_money (receive i req) = moves_money req
brings_money _ = false

module _ (popen : Bytes → Option Bytes) where
  serve-SameMoney :
      (req : Request) (c : Connection) (w : World)
      → moves_money req ≡ false
      → InOrder w
      → HasRoom w
      → IsUserId c.current_user.user_id w
      → IsTimely w c req
      → SameMoney w (serve popen req c w).0
  unfolding serve
  serve-SameMoney (Request.file_dispute req) c w still o room id timely =
      handle_file_dispute-SameMoney c.client_fd req c.current_user o.books.users_ready
  serve-SameMoney (Request.login req) c w still o room id timely =
      handle_login-SameMoney popen c.client_fd req c.current_user w o
  serve-SameMoney Request.logout c w still o room id timely =
      SameMoney-files (handle_logout-SameFiles c.client_fd c.current_user w).0 o.books.users_ready
  serve-SameMoney (Request.change_pass req) c w still o room id timely =
      handle_change_password-SameMoney popen c.client_fd req c.current_user w o.books.users_ready id
        timely
  serve-SameMoney Request.view_auctions c w still o room id timely =
      SameMoney-files (handle_view_auctions-SameFiles c.client_fd w).0 o.books.users_ready
  serve-SameMoney (Request.place_bid req) c w still o room id timely =
      handle_place_bid-SameMoney c.client_fd req c.current_user o.books.users_ready
  serve-SameMoney Request.view_balance c w still o room id timely =
      SameMoney-files (handle_view_balance-SameFiles c.client_fd w c.current_user).0
        o.books.users_ready
  serve-SameMoney (Request.deposit req) c w still o room id timely = absurd cc
  serve-SameMoney Request.view_my_bids c w still o room id timely =
      SameMoney-files (handle_view_my_bids-SameFiles c.client_fd w c.current_user).0
        o.books.users_ready
  serve-SameMoney (Request.submit_feedback req) c w still o room id timely =
      SameMoney-files (handle_submit_feedback-SameFiles c.client_fd w req c.current_user).0
        o.books.users_ready
  serve-SameMoney (Request.create_auction req) c w still o room id timely =
      handle_create_auction-SameMoney c.client_fd req c.current_user o.books.users_ready
  serve-SameMoney (Request.close_auction a) c w still o room id timely =
      KeepsMoney-SameMoney (handle_close_auction-KeepsMoney c.client_fd a c.current_user o.books)
  serve-SameMoney Request.view_disputes c w still o room id timely =
      SameMoney-files (handle_view_disputes-SameFiles c.client_fd w).0 o.books.users_ready
  serve-SameMoney (Request.resolve_dispute req) c w still o room id timely = absurd cc
  serve-SameMoney Request.view_feedback c w still o room id timely =
      SameMoney-files (handle_view_feedback-SameFiles c.client_fd w).0 o.books.users_ready
  serve-SameMoney (Request.toggle_account req) c w still o room id timely =
      handle_toggle_account-SameMoney c.client_fd req c.current_user o.books.users_ready
  serve-SameMoney (Request.add_user req) c w still o room id timely =
      handle_add_user-SameMoney popen c.client_fd req o.books.users_ready room.users
  serve-SameMoney Request.list_users c w still o room id timely =
      SameMoney-files (handle_list_users-SameFiles c.client_fd w).0 o.books.users_ready
  serve-SameMoney (Request.change_role req) c w still o room id timely =
      handle_change_role-SameMoney c.client_fd req o.books.users_ready
  serve-SameMoney Request.other c w still o room id timely =
      SameMoney-files refl o.books.users_ready

  stranger_SameMoney :
      (req : Request) (c : Connection) (w : World)
      → InOrder w
      → is_login req ≡ true
      → SameMoney w (serve popen req c w).0
  unfolding serve
  stranger_SameMoney (Request.login req) c w o e =
      handle_login-SameMoney popen c.client_fd req c.current_user w o
  stranger_SameMoney _ c w o e = absurd cc

  handle_message-SameMoney :
      (req : Request) (c : Connection) (w : World)
      → moves_money req ≡ false
      → InOrder w
      → HasRoom w
      → IsKnown w c
      → IsTimely w c req
      → SameMoney w (handle_message popen req c w).0
  unfolding handle_message
  handle_message-SameMoney req c w still o room known timely =
      elim (Bool-cases (not c.authenticated && not (is_login req))) [
        | inl stranger ↦ rw stranger (SameMoney-files refl o.books.users_ready)
        | inr fine ↦ elim (Bool-cases (permits req c.current_user.role)) [
          | inr denied ↦ rw (fine, denied) (SameMoney-files refl o.books.users_ready)
          | inl allowed ↦
              rw (fine, allowed)
                (elim known [
                  | inr id ↦ serve-SameMoney req c w still o room id timely
                  | inl out ↦ stranger_SameMoney req c w o (ground arith)
                ])
        ]
      ]

  choose_money :
      (x : World) (b : Bool) (s t : System)
      → money s.world ≡ money x
      → money t.world ≡ money x
      → money (if b then s else t).world ≡ money x
  choose_money x true s t h k = h
  choose_money x false s t h k = k

  money-step :
      (e : Event) (s : System)
      → brings_money e ≡ false
      → IsSound s
      → IsFit e s
      → money (step popen e s).world ≡ money s.world
  unfolding step serve_one
  money-step (connect fd) s still h fit = choose_money s.world (leb_ℤ fd (pos 0)) s _ refl refl
  money-step (receive i req) s still h (room, timely) =
      elim (Option-cases (get_elem? s.connections i)) [
        | inl absent ↦ rw (absent, step) refl
        | inr (c, there) ↦
            let known = All-get (IsKnown s.world) s.connections i h.known there in
            let r = handle_message popen req c s.world in
            rw (there, step)
              (choose_money s.world c.running
                record { world = r.0; connections = set s.connections i r.1 } s
                (handle_message-SameMoney req c s.world still h.in_order room known
                  (timely c there)).same
                refl)
      ]
  money-step (disconnect i) s still h fit = elim (Option-cases (get_elem? s.connections i)) [
    | inl absent ↦ rw (absent, step) refl
    | inr (c, there) ↦
        rw (there, step)
          (SameMoney-files {w' = clean_up popen c s.world} (clean_up-SameFiles popen c s.world).0
            h.in_order.books.users_ready).same
  ]
  money-step (clock now) s still h fit = refl
  money-step tick s still h fit = (timer_tick-KeepsMoney h.in_order.books).total

  -- Where the whole server is sound, and every event is a single step, with amounts that are numbers,
  -- and fit for its state (ids have room for one more record, and a password is changed only while the
  -- connection's copy of the user has the wallet that is on file), and no event is a deposit or a ruling
  -- on a dispute, the money in all wallets together is the same after the events as before:
  -- bids, settlements, released holds, logins and changes of accounts only move it.
  pub money-run :
      (es : List Event) (s : System)
      → IsSound s
      → AllFit popen es s
      → All (λ e. brings_money e ≡ false) es
      → money (run popen es s).world ≡ money s.world
  unfolding run
  money-run [] s h fit still = refl
  money-run (e ∷ es) s h fit still =
      money-run es (step popen e s) (step-IsSound popen e s h fit.0) fit.1 still.1
      ∙ money-step e s still.0 h fit.0
