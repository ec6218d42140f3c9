-- ===== src/Server/Conversation.antt =====
-- A conversation with a client (`handle_client` of server/server.c) keeps what the handlers keep of
-- sessions.dat and of the registry: only login, logout and the clean-up touch them.
use online_auction_system.Base.{
  ℕ, refl, Option, Bool, true, false, not, List, [], ◌∷◌, Bool-cases, inl, inr, ◌&&◌, ◌==◌,
  if◌then◌else◌, ap,
}
use online_auction_system.Base.Money.{ℤ, pos, leb_ℤ}
use online_auction_system.Base.Bytes.{Bytes}
use online_auction_system.Models.{User}
use online_auction_system.World.{World}
use online_auction_system.Notify.{notify_unregister}
use online_auction_system.Auth.{LoginPayload, handle_login, handle_logout, close_session}
use online_auction_system.Auth.Sessions.{
  OneSessionEach, handle_login-OneSessionEach, close_session-OneSessionEach,
}
use online_auction_system.Server.Dispatch.{
  Request, Connection, is_login, permits, serve, handle_message, converse, clean_up, handle_client,
}
use online_auction_system.Server.SamePresence.{
  SamePresence, handle_view_auctions-SamePresence, handle_view_my_bids-SamePresence,
  handle_view_balance-SamePresence, handle_view_disputes-SamePresence,
  handle_view_feedback-SamePresence, handle_list_users-SamePresence,
  handle_submit_feedback-SamePresence, handle_create_auction-SamePresence,
  handle_deposit-SamePresence, handle_toggle_account-SamePresence, handle_change_role-SamePresence,
  handle_file_dispute-SamePresence, handle_place_bid-SamePresence,
  handle_close_auction-SamePresence, handle_resolve_dispute-SamePresence,
  handle_add_user-SamePresence, handle_change_password-SamePresence,
}

-- What the functions that touch sessions.dat and the registry must keep of a property `P`.
pub record IsLasting {ℓ} (popen : Bytes → Option Bytes) (P : World → Type ℓ) : Type ℓ where
  pub on_same : {w w' : World} → SamePresence w w' → P w → P w'
  pub on_login :
      (fd : ℤ) (req : LoginPayload) (out_user : User) (w : World)
      → P w
      → P (handle_login popen fd req out_user w).0
  pub on_end : (k : ℕ) (w : World) → P w → P (notify_unregister k (close_session k w))

pub OneSessionEach-IsLasting : (popen : Bytes → Option Bytes) → IsLasting popen OneSessionEach
unfolding notify_unregister
OneSessionEach-IsLasting popen = record {
  on_same = λ {w} {w'} same one k. rw (ap (λ v. v.sessions) same) (one k);
  on_login = handle_login-OneSessionEach popen;
  on_end = close_session-OneSessionEach;
}

module _ {ℓ} {P : World → Type ℓ} {popen : Bytes → Option Bytes} (l : IsLasting popen P) where
  choose-lasts : (b : Bool) (r s : World × Connection) → P r.0 → P s.0 → P (if b then r else s).0
  choose-lasts true r s p q = p
  choose-lasts false r s p q = q

  handle_logout-lasts : (fd : ℤ) (u : User) (w : World) → P w → P (handle_logout fd u w)
  unfolding handle_logout
  handle_logout-lasts fd u w one = l.on_same refl (l.on_end u.user_id w one)

  serve-lasts : (req : Request) (c : Connection) (w : World) → P w → P (serve popen req c w).0
  unfolding serve
  serve-lasts (Request.file_dispute req) c w =
      l.on_same (handle_file_dispute-SamePresence c.client_fd w req c.current_user)
  serve-lasts (Request.login req) c w = l.on_login c.client_fd req c.current_user w
  serve-lasts Request.logout c w = handle_logout-lasts c.client_fd c.current_user w
  serve-lasts Request.view_auctions c w =
      l.on_same (handle_view_auctions-SamePresence c.client_fd w)
  serve-lasts Request.view_balance c w =
      l.on_same (handle_view_balance-SamePresence c.client_fd w c.current_user)
  serve-lasts Request.view_my_bids c w =
      l.on_same (handle_view_my_bids-SamePresence c.client_fd w c.current_user)
  serve-lasts (Request.change_pass req) c w =
      l.on_same (handle_change_password-SamePresence c.client_fd w popen req c.current_user)
  serve-lasts (Request.place_bid req) c w =
      l.on_same (handle_place_bid-SamePresence c.client_fd w req c.current_user)
  serve-lasts (Request.deposit req) c w =
      l.on_same (handle_deposit-SamePresence c.client_fd w req c.current_user)
  serve-lasts (Request.submit_feedback req) c w =
      l.on_same (handle_submit_feedback-SamePresence c.client_fd w req c.current_user)
  serve-lasts (Request.create_auction req) c w =
      l.on_same (handle_create_auction-SamePresence c.client_fd w req c.current_user)
  serve-lasts (Request.close_auction id) c w =
      l.on_same (handle_close_auction-SamePresence c.client_fd w id c.current_user)
  serve-lasts Request.view_disputes c w =
      l.on_same (handle_view_disputes-SamePresence c.client_fd w)
  serve-lasts Request.view_feedback c w =
      l.on_same (handle_view_feedback-SamePresence c.client_fd w)
  serve-lasts Request.list_users c w = l.on_same (handle_list_users-SamePresence c.client_fd w)
  serve-lasts (Request.resolve_dispute req) c w =
      l.on_same (handle_resolve_dispute-SamePresence c.client_fd w req c.current_user)
  serve-lasts (Request.toggle_account req) c w =
      l.on_same (handle_toggle_account-SamePresence c.client_fd w req c.current_user)
  serve-lasts (Request.add_user req) c w =
      l.on_same (handle_add_user-SamePresence c.client_fd w popen req)
  serve-lasts (Request.change_role req) c w =
      l.on_same (handle_change_role-SamePresence c.client_fd w req)
  serve-lasts Request.other c w = l.on_same refl

  pub handle_message-lasts :
      (req : Request) (c : Connection) (w : World) → P w → P (handle_message popen req c w).0
  unfolding handle_message
  handle_message-lasts req c w one = elim (Bool-cases (not c.authenticated && not (is_login req))) [
    | inl stranger ↦ rw stranger (l.on_same refl one)
    | inr known ↦ elim (Bool-cases (permits req c.current_user.role)) [
      | inl allowed ↦ rw (known, allowed) (serve-lasts req c w one)
      | inr denied ↦ rw (known, denied) (l.on_same refl one)
    ]
  ]

  converse-lasts :
      (reqs : List Request) (c : Connection) (w : World) → P w → P (converse popen reqs c w).0
  unfolding converse
  converse-lasts [] c w one = one
  converse-lasts (req ∷ reqs) c w one =
      choose-lasts c.running _ (w, c) (converse-lasts reqs _ _ (handle_message-lasts req c w one))
        one

  pub clean_up-lasts : (c : Connection) (w : World) → P w → P (clean_up popen c w)
  unfolding clean_up
  clean_up-lasts c w one =
      elim (Bool-cases (c.authenticated && not (c.current_user.user_id == 0))) [
        | inl still_in ↦ rw still_in (l.on_end c.current_user.user_id w one)
        | inr out ↦ rw out one
      ]

  handle_client-lasts :
      (client_fd : ℤ) (reqs : List Request) (w : World)
      → P w
      → P (handle_client popen client_fd reqs w)
  unfolding handle_client
  handle_client-lasts client_fd reqs w one = elim (Bool-cases (leb_ℤ client_fd (pos 0))) [
    | inl bad ↦ rw bad one
    | inr good ↦ rw good (clean_up-lasts _ _ (converse-lasts reqs _ w one))
  ]

-- Whatever messages a client sends until it disconnects, in whatever order, every user has at most
-- one active session afterwards, if that held before.
pub handle_client-OneSessionEach :
    (popen : Bytes → Option Bytes) (client_fd : ℤ) (reqs : List Request) (w : World)
    → OneSessionEach w
    → OneSessionEach (handle_client popen client_fd reqs w)
handle_client-OneSessionEach popen = handle_client-lasts (OneSessionEach-IsLasting popen)
