-- ===== src/Dispute.antt =====
-- server/dispute.c: filing, viewing and resolving disputes, viewing feedback, toggling accounts.
use online_auction_system.Base.{
  ℕ, ◌-◌, Bool, true, false, Option, none, some, not, leb, if◌then◌else◌,
}
use online_auction_system.Base.Money.{ℤ, neg, leb_ℤ}
use online_auction_system.Base.Bytes.{Bytes, strncpy}
use online_auction_system.Models.{
  role_value, User, Auction, AuctionStatus, auction_closed, auction_disputed, AccountStatus,
  Dispute, DisputeStatus, dispute_open, dispute_resolved, Feedback, zero_dispute, max_desc, err_ok,
  err_not_found, err_auction_closed, err_internal, err_permission, resolve_dispute_resp,
  view_disputes_resp, view_feedback_resp, toggle_account_resp,
}
use online_auction_system.Store.Scan.{collect, rewrite_file}
use online_auction_system.World.{
  World, LogLine, no_payload, user_payload, dispute_payload, disputes_payload, feedbacks_payload,
}
use online_auction_system.World.FileIo.{
  read_auction, write_auction, read_user, write_user, read_dispute, write_dispute, next_dispute_id,
  log_txn,
}
use online_auction_system.Notify.{send_msg}
use online_auction_system.Wallet.{credit_wallet}

-- `status == AUCTION_CLOSED`
abbrev pub is_closed : AuctionStatus → Bool
is_closed auction_closed = true
is_closed _ = false

-- `status == DISPUTE_OPEN`
abbrev pub is_pending : DisputeStatus → Bool
is_pending dispute_open = true
is_pending _ = false

-- `new_status == DISPUTE_RESOLVED`
abbrev pub is_resolved : DisputeStatus → Bool
is_resolved dispute_resolved = true
is_resolved _ = false

pub record FileDisputePayload : Type 0 where
  pub auction_id : ℕ
  pub reason : Bytes

-- The record that `handle_file_dispute` fills in.
abbrev pub new_dispute : FileDisputePayload → User → World → Dispute
new_dispute req u w = record zero_dispute {
  dispute_id = next_dispute_id w;
  auction_id = req.auction_id;
  raised_by_user_id = u.user_id;
  resolved_by_user_id = 0;
  status = dispute_open;
  raised_at = w.now;
  resolved_at = 0;
  reason = strncpy zero_dispute.reason req.reason (max_desc - 1);
}

-- The answers carry the type of the answers to `MSG_RESOLVE_DISPUTE_REQ`, as in the source.
unfoldable pub handle_file_dispute : ℤ → FileDisputePayload → User → World → World
handle_file_dispute client_fd req u w = elim (read_auction req.auction_id w) [
  | none ↦ send_msg client_fd resolve_dispute_resp err_not_found no_payload w
  | some a ↦
      if not (is_closed a.status)
      then send_msg client_fd resolve_dispute_resp err_auction_closed no_payload w
      else let d = new_dispute req u w in
        let r = write_dispute d w in
        let w2 = (write_auction (record a { status = auction_disputed }) r.0).0 in
        if r.1
        then log_txn (LogLine.file_dispute d.dispute_id d.auction_id u.user_id)
            (send_msg client_fd resolve_dispute_resp err_ok (dispute_payload d) w2)
        else send_msg client_fd resolve_dispute_resp err_internal no_payload r.0
]

unfoldable pub handle_view_disputes : ℤ → World → World
handle_view_disputes client_fd w = elim w.disputes.contents [
  | none ↦ send_msg client_fd view_disputes_resp err_ok no_payload w
  | some all ↦
      send_msg client_fd view_disputes_resp err_ok
        (disputes_payload (collect (λ d. is_pending d.status) 128 all)) w
]

pub record ResolveDisputePayload : Type 0 where
  pub dispute_id : ℕ
  pub new_status : DisputeStatus
  pub resolution : Bytes

-- The debit of the seller, for what `read_user(a.seller_id, &seller)` gave.
unfoldable pub debit_seller : Auction → Option User → World → World
debit_seller a none w = w
debit_seller a (some seller) w =
    if leb_ℤ a.current_bid seller.wallet_balance
    then (credit_wallet a.seller_id (neg a.current_bid) w).0
    else log_txn LogLine.refund_anomaly w

-- The branch for `DISPUTE_RESOLVED`.
unfoldable pub refund : Dispute → Auction → World → World
unfolding debit_seller
refund d a w =
    let w1 =
      log_txn
        (LogLine.wal_refund d.dispute_id a.auction_id a.highest_bidder_id a.seller_id a.current_bid)
        w in
    let w2 = (credit_wallet a.highest_bidder_id a.current_bid w1).0 in
    debit_seller a (read_user a.seller_id w2) w2

-- The dispute as it is written back.
abbrev pub ruled : ResolveDisputePayload → User → World → Dispute → Dispute
ruled req moderator w d = record d {
  status = req.new_status;
  resolved_by_user_id = moderator.user_id;
  resolved_at = w.now;
  resolution = strncpy d.resolution req.resolution (max_desc - 1);
}

-- What follows the write of the ruled dispute `d`, for what `read_auction` gave.
unfoldable pub carry_out : ℤ → User → Dispute → Option Auction → World → World
carry_out client_fd moderator d none w =
    send_msg client_fd resolve_dispute_resp err_internal no_payload w
carry_out client_fd moderator d (some a) w =
    let w1 =
      if is_resolved d.status
      then refund d a w
      else (write_auction (record a { status = auction_closed }) w).0 in
    log_txn (LogLine.resolve_dispute d.dispute_id d.status moderator.user_id)
      (send_msg client_fd resolve_dispute_resp err_ok (dispute_payload d) w1)

unfoldable pub handle_resolve_dispute : ℤ → ResolveDisputePayload → User → World → World
handle_resolve_dispute client_fd req moderator w =
    if is_pending req.new_status
    then send_msg client_fd resolve_dispute_resp err_internal no_payload w
    else elim (read_dispute req.dispute_id w) [
      | none ↦ send_msg client_fd resolve_dispute_resp err_not_found no_payload w
      | some d ↦
          if not (is_pending d.status)
          then send_msg client_fd resolve_dispute_resp err_internal no_payload w
          else let d' = ruled req moderator w d in
            let w1 = (write_dispute d' w).0 in
            carry_out client_fd moderator d' (read_auction d'.auction_id w1) w1
    ]

abbrev pub is_unreviewed : Feedback → Bool
is_unreviewed f = not f.reviewed

abbrev pub mark_reviewed : Feedback → Feedback
mark_reviewed f = record f { reviewed = true }

unfoldable pub handle_view_feedback : ℤ → World → World
handle_view_feedback client_fd w = elim w.feedback.contents [
  | none ↦ send_msg client_fd view_feedback_resp err_ok no_payload w
  | some all ↦
      send_msg client_fd view_feedback_resp err_ok
        (feedbacks_payload (collect is_unreviewed 256 all))
        (record w { feedback = rewrite_file is_unreviewed mark_reviewed w.feedback })
]

pub record ToggleAccountPayload : Type 0 where
  pub target_user_id : ℕ
  pub new_status : AccountStatus

unfoldable pub handle_toggle_account : ℤ → ToggleAccountPayload → User → World → World
handle_toggle_account client_fd req moderator w = elim (read_user req.target_user_id w) [
  | none ↦ send_msg client_fd toggle_account_resp err_not_found no_payload w
  | some target ↦
      if leb (role_value moderator.role) (role_value target.role)
      then send_msg client_fd toggle_account_resp err_permission no_payload w
      else let target' : User = record target { status = req.new_status } in
        log_txn (LogLine.toggle_account target'.user_id target'.status moderator.user_id) (
          send_msg client_fd toggle_account_resp err_ok (user_payload target')
            (write_user target' w).0)
]
