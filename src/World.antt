-- ===== src/World.antt =====
-- The state that the server's threads share: the data files (common/file_io.h), the notification
-- registry (server/notify.c), the messages handed to the sockets, and the clock. A handler runs at
-- one reading of the clock.
pub mod FileIo
use online_auction_system.Base.{ℕ, Bool, List}
use online_auction_system.Base.Money.{ℤ}
use online_auction_system.Base.Bytes.{Bytes}
use online_auction_system.Models.{
  Amount, User, Auction, Bid, Session, Feedback, Dispute, Role, AccountStatus, DisputeStatus,
  MessageType, ErrorCode,
}
use online_auction_system.Store.{File}

-- The lines of txn.log, without their time stamps; one constructor for each format string.
pub data LogLine : Type 0 where
  hold release settle credit : (user_id : ℕ) → (amount : Amount) → LogLine
  bid : (auction_id bidder_id : ℕ) → (amount : Amount) → LogLine
  create_auction : (auction_id seller_id end_time : ℕ) → (item_name : Bytes) → LogLine
  close_auction : (auction_id user_id : ℕ) → LogLine
  timer_close : (auction_id : ℕ) → LogLine
  wal_settle : (auction_id winner_id seller_id : ℕ) → (amount : Amount) → LogLine
  wal_refund : (dispute_id auction_id winner_id seller_id : ℕ) → (amount : Amount) → LogLine
  refund_anomaly : LogLine
  file_dispute : (dispute_id auction_id user_id : ℕ) → LogLine
  resolve_dispute : (dispute_id : ℕ) → (status : DisputeStatus) → (moderator_id : ℕ) → LogLine
  toggle_account : (user_id : ℕ) → (status : AccountStatus) → (moderator_id : ℕ) → LogLine
  login : (user_id : ℕ) → (username : Bytes) → LogLine
  logout change_pass soft_delete modify_user : (user_id : ℕ) → LogLine
  add_user : (user_id : ℕ) → (username : Bytes) → (role : Role) → LogLine
  change_role : (user_id : ℕ) → (old_role new_role : Role) → LogLine

-- What follows a message header.
pub data Payload : Type 0 where
  no_payload : Payload
  user_payload : User → Payload
  users_payload : List User → Payload
  auction_payload : Auction → Payload
  auctions_payload : List Auction → Payload
  bid_payload : Bid → Payload
  bids_payload : List Bid → Payload
  dispute_payload : Dispute → Payload
  disputes_payload : List Dispute → Payload
  feedbacks_payload : List Feedback → Payload
  outbid_payload : (auction_id : ℕ) → (new_highest_bid : Amount) → Payload
  won_payload : (auction_id : ℕ) → (winning_amount : Amount) → Payload
  closed_payload : (auction_id : ℕ) → Payload

pub record Message : Type 0 where
  pub fd : ℤ
  pub type : MessageType
  pub status : ErrorCode
  pub payload : Payload

pub record RegistryEntry : Type 0 where
  pub user_id : ℕ
  pub client_fd : ℤ
  pub active : Bool

pub record World : Type 0 where
  pub users : File User
  pub auctions : File Auction
  pub bids : File Bid
  pub sessions : File Session
  pub feedback : File Feedback
  pub disputes : File Dispute
  pub txn_log : File LogLine
  pub registry : List RegistryEntry
  -- newest first
  pub sent : List Message
  pub now : ℕ
