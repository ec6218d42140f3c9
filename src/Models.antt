-- ===== src/Models.antt =====
-- common/models.h: the records of the data files, the enumerations, the message types and the error
-- codes. An `uint32_t` id is a number below 2^32 (`u32`), a `time_t` a number of seconds, a `double`
-- an amount, an `int` flag a Bool, a `char` array the list of all its bytes.
use online_auction_system.Base.{ℕ, ◌+◌, ◌^◌, ◌%◌, Bool, false}
use online_auction_system.Base.Money.{ℤ, pos}
use online_auction_system.Base.Bytes.{Bytes, zeroed}

abbrev pub max_username : ℕ
max_username = 32

abbrev pub max_password : ℕ
max_password = 64

abbrev pub max_name : ℕ
max_name = 64

abbrev pub max_desc : ℕ
max_desc = 256

abbrev pub max_item_name : ℕ
max_item_name = 64

abbrev pub max_feedback : ℕ
max_feedback = 256

abbrev pub max_sessions : ℕ
max_sessions = 64

-- An amount of money: an exact number, where the code has a `double`.
abbrev pub Amount : Type 0
Amount = ℤ

-- A number stored in an `uint32_t`.
abbrev pub u32 : ℕ → ℕ
u32 n = n % 2 ^ 32

pub data Role : Type 0 where
  role_bidder role_auctioneer role_moderator role_admin : Role
  -- a number above the enumerators, by how much it exceeds 4: the payloads bring any
  role_other : ℕ → Role

-- The value of the enumerator, for the comparisons `role >= ROLE_MODERATOR`.
abbrev pub role_value : Role → ℕ
role_value role_bidder = 0
role_value role_auctioneer = 1
role_value role_moderator = 2
role_value role_admin = 3
role_value (role_other n) = 4 + n

pub data AccountStatus : Type 0 where
  account_active account_inactive account_banned : AccountStatus

pub data AuctionStatus : Type 0 where
  auction_pending auction_open auction_closed auction_disputed auction_cancelled : AuctionStatus

pub data DisputeStatus : Type 0 where
  dispute_open dispute_resolved dispute_rejected : DisputeStatus

pub record User : Type 0 where
  pub user_id : ℕ
  pub username : Bytes
  pub password : Bytes
  pub full_name : Bytes
  pub role : Role
  pub status : AccountStatus
  pub wallet_balance : Amount
  pub wallet_hold : Amount
  pub created_at : ℕ
  pub last_login : ℕ
  pub is_deleted : Bool

pub record Auction : Type 0 where
  pub auction_id : ℕ
  pub item_name : Bytes
  pub description : Bytes
  pub seller_id : ℕ
  pub start_price : Amount
  pub reserve_price : Amount
  pub current_bid : Amount
  pub highest_bidder_id : ℕ
  pub status : AuctionStatus
  pub start_time : ℕ
  pub end_time : ℕ
  pub bid_count : ℕ
  pub is_deleted : Bool

pub record Bid : Type 0 where
  pub bid_id : ℕ
  pub auction_id : ℕ
  pub bidder_id : ℕ
  pub amount : Amount
  pub placed_at : ℕ
  pub is_winning : Bool

pub record Session : Type 0 where
  pub user_id : ℕ
  pub client_fd : ℤ
  pub login_time : ℕ
  pub is_active : Bool

pub record Feedback : Type 0 where
  pub feedback_id : ℕ
  pub from_user_id : ℕ
  pub about_auction_id : ℕ
  pub message : Bytes
  pub submitted_at : ℕ
  pub reviewed : Bool

pub record Dispute : Type 0 where
  pub dispute_id : ℕ
  pub auction_id : ℕ
  pub raised_by_user_id : ℕ
  pub resolved_by_user_id : ℕ
  pub reason : Bytes
  pub resolution : Bytes
  pub status : DisputeStatus
  pub raised_at : ℕ
  pub resolved_at : ℕ

-- A record of zero bytes: what `memset` leaves, and what reads back from a hole in a file.
abbrev pub zero_user : User
zero_user = record {
  user_id = 0;
  username = zeroed max_username;
  password = zeroed max_password;
  full_name = zeroed max_name;
  role = role_bidder;
  status = account_active;
  wallet_balance = pos 0;
  wallet_hold = pos 0;
  created_at = 0;
  last_login = 0;
  is_deleted = false;
}

abbrev pub zero_auction : Auction
zero_auction = record {
  auction_id = 0;
  item_name = zeroed max_item_name;
  description = zeroed max_desc;
  seller_id = 0;
  start_price = pos 0;
  reserve_price = pos 0;
  current_bid = pos 0;
  highest_bidder_id = 0;
  status = auction_pending;
  start_time = 0;
  end_time = 0;
  bid_count = 0;
  is_deleted = false;
}

abbrev pub zero_session : Session
zero_session = record { user_id = 0; client_fd = pos 0; login_time = 0; is_active = false }

abbrev pub zero_dispute : Dispute
zero_dispute = record {
  dispute_id = 0;
  auction_id = 0;
  raised_by_user_id = 0;
  resolved_by_user_id = 0;
  reason = zeroed max_desc;
  resolution = zeroed max_desc;
  status = dispute_open;
  raised_at = 0;
  resolved_at = 0;
}

pub data MessageType : Type 0 where
  login_req login_resp logout_req logout_resp change_pass_req change_pass_resp : MessageType
  view_auctions_req view_auctions_resp place_bid_req place_bid_resp : MessageType
  view_balance_req view_balance_resp deposit_req deposit_resp : MessageType
  view_my_bids_req view_my_bids_resp submit_feedback_req submit_feedback_resp : MessageType
  file_dispute_req file_dispute_resp create_auction_req create_auction_resp : MessageType
  close_auction_req close_auction_resp view_disputes_req view_disputes_resp : MessageType
  resolve_dispute_req resolve_dispute_resp view_feedback_req view_feedback_resp : MessageType
  toggle_account_req toggle_account_resp add_user_req add_user_resp : MessageType
  list_users_req list_users_resp change_role_req change_role_resp : MessageType
  notify_outbid_msg notify_auction_won_msg notify_auction_closed_msg error_msg : MessageType

pub data ErrorCode : Type 0 where
  err_ok err_auth_fail err_already_logged err_permission err_not_found : ErrorCode
  err_bid_too_low err_insufficient err_auction_closed err_account_banned err_internal : ErrorCode
