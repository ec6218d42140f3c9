-- ===== src/Client.antt =====
-- client/client.c: the terminal program. The keyboard is the bytes still to be typed, the socket the
-- messages still to arrive, where `none` is a `recv_msg` that fails. Prompts, headings and rules are
-- left out of what is printed; a notice names the line that the code prints.
pub mod Requests
pub mod Bidder
pub mod Staff
pub mod Admins
pub mod Menus
pub mod Socket
pub mod Steps
pub mod Allowed
pub mod Agree
pub mod Mixup
pub mod Listener
use online_auction_system.Base.{
  ℕ, zero, suc, ◌+◌, ◌-◌, ◌^◌, ◌%◌, ◌≡◌, Bool, true, false, Option, none, some, List, [], ◌∷◌, ◌++◌,
  ◌==◌, if◌then◌else◌, length, drop,
}
use online_auction_system.Base.Money.{ℤ, pos, negsuc}
use online_auction_system.Base.Bytes.{Bytes, zeroed}
use online_auction_system.Models.{
  Amount, User, Auction, Bid, Dispute, Feedback, Role, AccountStatus, ErrorCode, MessageType,
  notify_outbid_msg, notify_auction_won_msg, notify_auction_closed_msg,
}
use online_auction_system.World.{
  Payload, no_payload, user_payload, users_payload, auction_payload, auctions_payload, bids_payload,
  disputes_payload, feedbacks_payload, outbid_payload, won_payload, closed_payload,
}
use online_auction_system.Hash.{newline, fgets}
use online_auction_system.Server.Dispatch.{Request}

-- What the program takes from the C library and the compiler: `atoi` and `atof`, what an array of
-- some size or a failed `recv_msg` leaves in a local variable that nobody has written, and how the
-- bytes of a payload read as a record or as an array of records.
pub record Platform : Type 0 where
  pub atoi : Bytes → ℤ
  pub atof : Bytes → Amount
  pub stack : ℕ → Bytes
  pub stale_status : ErrorCode
  pub stale_payload : Payload
  pub as_user : Payload → User
  pub as_auction : Payload → Auction
  pub as_users : Payload → List User
  pub as_auctions : Payload → List Auction
  pub as_bids : Payload → List Bid
  pub as_disputes : Payload → List Dispute
  pub as_feedbacks : Payload → List Feedback
  pub as_outbid : Payload → ℕ × Amount
  pub as_won : Payload → ℕ × Amount
  pub as_closed : Payload → ℕ
  pub as_user-user_payload : (u : User) → as_user (user_payload u) ≡ u

-- A message from the server, without its length, which is that of the payload.
pub record Reply : Type 0 where
  pub type : MessageType
  pub status : ErrorCode
  pub payload : Payload

-- A role is sent as the number that was typed.
pub record AddUserForm : Type 0 where
  pub username : Bytes
  pub password : Bytes
  pub full_name : Bytes
  pub role : ℤ

pub record ChangeRoleForm : Type 0 where
  pub target_user_id : ℕ
  pub new_role : ℤ

-- What goes to the server.
pub data Sent : Type 0 where
  plain : Request → Sent
  add_user_form : AddUserForm → Sent
  change_role_form : ChangeRoleForm → Sent

-- The lines that are printed.
pub data Notice : Type 0 where
  welcome : (full_name : Bytes) → Role → Notice
  goodbye : (full_name : Bytes) → Notice
  invalid_credentials already_logged_in account_inactive login_failed : Notice
  passwords_differ password_changed wrong_password : Notice
  auction_row :
      (auction_id : ℕ) → (item_name : Bytes) → (current_bid : Amount) → (end_time : ℕ) → Notice
  no_open_auctions no_bids no_open_disputes no_unreviewed_feedback no_users : Notice
  bid_placed bid_too_low insufficient_balance auction_not_open : Notice
  error_code : ErrorCode → Notice
  balance_line : (balance hold available : Amount) → Notice
  invalid_amount : Notice
  new_balance : Amount → Notice
  bid_row : (bid_id auction_id : ℕ) → Amount → (placed_at : ℕ) → (is_winning : Bool) → Notice
  feedback_submitted dispute_filed auction_not_found auction_not_closed error_line failed : Notice
  auction_created : (auction_id : ℕ) → Notice
  auction_settled not_your_auction already_closed : Notice
  dispute_row : (dispute_id auction_id raised_by_user_id : ℕ) → (reason : Bytes) → Notice
  dispute_resolved_line : Notice
  feedback_row : (feedback_id about_auction_id from_user_id : ℕ) → (message : Bytes) → Notice
  status_updated cannot_modify_higher_rank : Notice
  user_created : (username : Bytes) → (user_id : ℕ) → Notice
  username_may_exist role_updated cannot_demote_last_admin : Notice
  user_row : (user_id : ℕ) → (username full_name : Bytes) → Role → AccountStatus → Amount → Notice
  outbid_notice won_notice : (auction_id : ℕ) → Amount → Notice
  closed_notice : (auction_id : ℕ) → Notice
  invalid_choice : Notice

-- The static variables, and the input and output; `sent` and `shown` are newest first.
pub record Terminal : Type 0 where
  pub stdin : Bytes
  pub arriving : List (Option Reply)
  pub me : User
  pub logged_in : Bool
  pub sent : List Sent
  pub shown : List Notice

abbrev pub print : Notice → Terminal → Terminal
print n t = record t { shown = n ∷ t.shown }

-- `(uint32_t)` of an `int`
abbrev pub to_u32 : ℤ → ℕ
to_u32 (pos n) = n % 2 ^ 32
to_u32 (negsuc n) = 2 ^ 32 - 1 - n % 2 ^ 32

-- `c == n` for a number that was typed
abbrev pub is_choice : ℤ → ℕ → Bool
is_choice (pos c) n = c == n
is_choice _ n = false

-- `buf[strcspn(buf, "\n")] = '\0'`
unfoldable pub cut_newline : Bytes → Bytes
cut_newline [] = []
cut_newline (c ∷ s) = if c == 0 then c ∷ s else (if c == newline then 0 ∷ s else c ∷ cut_newline s)

-- What `read_line` leaves in a buffer of `size` bytes that held `buf`; nothing new at the end of input.
unfoldable pub read_line : (size : ℕ) → (buf : Bytes) → Terminal → Bytes × Terminal
unfolding cut_newline
read_line size buf t =
    let line = fgets (size - 1) t.stdin in
    if length line == 0 then (buf, t) else (
      cut_newline (line ++ (0 ∷ drop (length line + 1) buf)),
      record t { stdin = drop (length line) t.stdin },
    )

-- A request and its answer, under `req_lock`.
abbrev pub exchange : Sent → Terminal → Terminal × Option Reply
exchange s t = elim t.arriving [
  | [] ↦ (record t { sent = s ∷ t.sent }, none)
  | r ∷ rest ↦ (record t { sent = s ∷ t.sent; arriving = rest }, r)
]

module _ (p : Platform) where
  -- `char b[64]` is not initialised.
  unfoldable pub read_double : Terminal → Amount × Terminal
  read_double t = let r = read_line 64 (p.stack 64) t in (p.atof r.0, r.1)

  unfoldable pub read_int : Terminal → ℤ × Terminal
  read_int t = let r = read_line 32 (p.stack 32) t in (p.atoi r.0, r.1)

  -- `hdr.status` and `buf` after a `recv_msg`.
  abbrev pub status_of : Option Reply → ErrorCode
  status_of none = p.stale_status
  status_of (some r) = r.status

  abbrev pub payload_of : Option Reply → Payload
  payload_of none = p.stale_payload
  payload_of (some r) = r.payload

  -- The `switch` of `listener_thread`.
  unfoldable pub notify : Reply → Terminal → Terminal
  notify r t = elim r.type [
    | notify_outbid_msg ↦
        print (Notice.outbid_notice (p.as_outbid r.payload).0 (p.as_outbid r.payload).1) t
    | notify_auction_won_msg ↦
        print (Notice.won_notice (p.as_won r.payload).0 (p.as_won r.payload).1) t
    | notify_auction_closed_msg ↦ print (Notice.closed_notice (p.as_closed r.payload)) t
    | _ ↦ t
  ]

  -- One turn of the loop of `listener_thread`, once the socket is readable: whether `req_lock` is
  -- free is the other thread's doing. The second component is whether the loop goes on.
  unfoldable pub listen : (lock_free : Bool) → Terminal → Terminal × Bool
  unfolding notify
  listen false t = (t, true)
  listen true t = elim t.arriving [
    | [] ↦ (t, false)
    | none ∷ rest ↦ (record t { arriving = rest }, false)
    | some r ∷ rest ↦ (notify r (record t { arriving = rest }), true)
  ]
