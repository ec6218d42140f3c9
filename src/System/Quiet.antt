-- ===== src/System/Quiet.antt =====
-- users.dat, auctions.dat and disputes.dat under the requests that only list (server/bid_handler.c,
-- server/dispute.c, server/admin.c), feedback, and the end of a connection (server/server.c).
use online_auction_system.Base.{ℕ, ◌≡◌, refl, not, arith, Bool-cases, inl, inr, ◌&&◌, ◌==◌, Option}
use online_auction_system.Base.Money.{ℤ}
use online_auction_system.Base.Bytes.{Bytes}
use online_auction_system.Models.{User}
use online_auction_system.World.{World}
use online_auction_system.Notify.{notify_unregister}
use online_auction_system.Wallet.{handle_view_balance}
use online_auction_system.BidHandler.{
  handle_view_auctions, handle_view_my_bids, FeedbackPayload, handle_submit_feedback,
}
use online_auction_system.Dispute.{handle_view_disputes, handle_view_feedback}
use online_auction_system.Admin.{handle_list_users}
use online_auction_system.Auth.{close_session, handle_logout}
use online_auction_system.Server.Dispatch.{Connection, clean_up}
use online_auction_system.System.Keeps.{InOrder, Keeps, Keeps-files}

-- None of the three files differs.
abbrev pub SameFiles : World → World → Type 0
SameFiles w w' = (w'.users ≡ w.users) × (w'.auctions ≡ w.auctions) × (w'.disputes ≡ w.disputes)

pub SameFiles-Keeps : {w w' : World} → SameFiles w w' → InOrder w → Keeps w w'
SameFiles-Keeps (users, auctions, disputes) o = Keeps-files o users auctions disputes

module _ (fd : ℤ) (w : World) where
  pub handle_view_auctions-SameFiles : SameFiles w (handle_view_auctions fd w)
  unfolding handle_view_auctions
  handle_view_auctions-SameFiles = ground arith

  pub handle_view_disputes-SameFiles : SameFiles w (handle_view_disputes fd w)
  unfolding handle_view_disputes
  handle_view_disputes-SameFiles = ground arith

  pub handle_view_feedback-SameFiles : SameFiles w (handle_view_feedback fd w)
  unfolding handle_view_feedback
  handle_view_feedback-SameFiles = ground arith

  pub handle_list_users-SameFiles : SameFiles w (handle_list_users fd w)
  unfolding handle_list_users
  handle_list_users-SameFiles = ground arith

  pub handle_view_my_bids-SameFiles : (u : User) → SameFiles w (handle_view_my_bids fd u w)
  unfolding handle_view_my_bids
  handle_view_my_bids-SameFiles u = ground arith

  pub handle_view_balance-SameFiles : (u : User) → SameFiles w (handle_view_balance fd u w)
  unfolding handle_view_balance
  handle_view_balance-SameFiles u = ground arith

  pub handle_submit_feedback-SameFiles :
      (req : FeedbackPayload) (u : User) → SameFiles w (handle_submit_feedback fd req u w)
  unfolding handle_submit_feedback
  handle_submit_feedback-SameFiles req u = ground arith

pub close_session-SameFiles : (k : ℕ) (w : World) → SameFiles w (close_session k w)
unfolding close_session
close_session-SameFiles k w = ground arith

pub handle_logout-SameFiles : (fd : ℤ) (u : User) (w : World) → SameFiles w (handle_logout fd u w)
unfolding handle_logout notify_unregister
handle_logout-SameFiles fd u w = close_session-SameFiles u.user_id w

pub clean_up-SameFiles :
    (popen : Bytes → Option Bytes) (c : Connection) (w : World) → SameFiles w (clean_up popen c w)
unfolding clean_up notify_unregister
clean_up-SameFiles popen c w =
    elim (Bool-cases (c.authenticated && not (c.current_user.user_id == 0))) [
      | inl still_in ↦ rw still_in (close_session-SameFiles c.current_user.user_id w)
      | inr out ↦ rw out (refl, refl, refl)
    ]
