-- ===== src/System/Refund.antt =====
-- What a refund (server/dispute.c) does to the money in all wallets.
use online_auction_system.Base.{◌≡◌, ◌∙◌, ap, some, false, arith, ◌==◌, if◌then◌else◌}
use online_auction_system.Base.Money.{pos, ◌+ℤ◌, ◌≤ℤ◌, ◌<ℤ◌, leb_ℤ, +ℤ_cancel_right, money_laws}
use online_auction_system.Models.{User, Auction, Dispute}
use online_auction_system.Store.{records, slot_of}
use online_auction_system.Store.Laws.{read_at-get}
use online_auction_system.World.{World, LogLine}
use online_auction_system.World.FileIo.{read_user, log_txn}
use online_auction_system.Wallet.Sound.{IsSoundUser}
use online_auction_system.Wallet.Effect.{
  UsersReady, with_user, moved, credit_wallet_lem, read_user-with_user,
}
use online_auction_system.Dispute.{debit_seller, refund}
use online_auction_system.Ledger.Sums.{total_balance-set}
use online_auction_system.System.Money.{money}

-- When a dispute is decided for the complaint and the seller's balance does not cover the price, the
-- winner is paid all the same: the money in all wallets grows by the price.
pub refund_mints :
    (d : Dispute) (a : Auction) {w : World} {winner seller : User}
    → UsersReady w
    → read_user a.highest_bidder_id w ≡ some winner
    → IsSoundUser winner
    → read_user a.seller_id w ≡ some seller
    → (slot_of a.seller_id == slot_of a.highest_bidder_id) ≡ false
    → pos 0 ≤ℤ a.current_bid
    → seller.wallet_balance <ℤ a.current_bid
    → money (refund d a w) ≡ money w +ℤ a.current_bid
unfolding refund debit_seller
refund_mints d a {w} {winner} {seller} ready found sound known apart nonneg short =
    let k = a.highest_bidder_id in
    let w1 =
      log_txn
        (LogLine.wal_refund d.dispute_id a.auction_id a.highest_bidder_id a.seller_id a.current_bid)
        w in
    let ready1 : UsersReady w1 = record { keyed = ready.keyed; writable = ready.writable } in
    let winner' = moved winner a.current_bid (pos 0) in
    let credited =
      credit_wallet_lem {w = w1} ready1 k {u = winner} found a.current_bid sound
        (omega (money_laws, sound, nonneg)) in
    let seen = read_user-with_user {w = w1} ready1 k {u = winner} found winner' a.seller_id in
    let uncovered : leb_ℤ a.current_bid seller.wallet_balance ≡ false = ground (arith, short) in
    let sum =
      total_balance-set (records w.users) (slot_of k) winner'
        (read_at-get w.users (slot_of k) found) in
    let grown : money (with_user k winner' w1) ≡ money w +ℤ a.current_bid =
      +ℤ_cancel_right (money w) _ winner.wallet_balance a.current_bid sum in
    let seller_known =
      seen ∙ ap (λ b. if b then some winner' else read_user a.seller_id w) apart ∙ known in
    rw (credited, seller_known, refund, debit_seller, uncovered) grown
