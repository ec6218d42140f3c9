-- ===== src/World/FileIo.antt =====
-- common/file_io.h: the functions on each data file. A read that returns -1 is `none`; a write gives
-- the state after it and whether it returned 0. The mutexes make each call one step.
use online_auction_system.Base.{
  ℕ, ◌+◌, Bool, Option, none, some, List, [], ◌∷◌, ◌&&◌, not, ltb, ◌==◌, if◌then◌else◌,
}
use online_auction_system.Base.Bytes.{Bytes, strncmp_eq}
use online_auction_system.Models.{
  User, Auction, Bid, Session, Feedback, Dispute, zero_user, zero_auction, zero_session,
  zero_dispute, max_username, max_sessions,
}
use online_auction_system.Store.{slot_of, records, read_at, write_at, append_record, next_id}
use online_auction_system.World.{World, LogLine}

abbrev pub write_user : User → World → World × Bool
write_user u w =
    let r = write_at zero_user w.users (slot_of u.user_id) u in (record w { users = r.0 }, r.1)

abbrev pub read_user : ℕ → World → Option User
read_user user_id w = read_at w.users (slot_of user_id)

-- The loop of `find_user_by_username` over the records.
unfoldable pub find_username : Bytes → List User → Option User
find_username name [] = none
find_username name (u ∷ us) =
    if not u.is_deleted && strncmp_eq u.username name max_username
    then some u
    else find_username name us

unfoldable pub find_user_by_username : Bytes → World → Option User
unfolding find_username
find_user_by_username name w = find_username name (records w.users)

abbrev pub next_user_id : World → ℕ
next_user_id w = next_id w.users

abbrev pub write_auction : Auction → World → World × Bool
write_auction a w =
    let r = write_at zero_auction w.auctions (slot_of a.auction_id) a in
    (record w { auctions = r.0 }, r.1)

abbrev pub read_auction : ℕ → World → Option Auction
read_auction auction_id w = read_at w.auctions (slot_of auction_id)

abbrev pub next_auction_id : World → ℕ
next_auction_id w = next_id w.auctions

abbrev pub append_bid : Bid → World → World × Bool
append_bid b w = let r = append_record w.bids b in (record w { bids = r.0 }, r.1)

abbrev pub next_bid_id : World → ℕ
next_bid_id w = next_id w.bids

abbrev pub write_session : ℕ → Session → World → World × Bool
write_session slot s w =
    let r = write_at zero_session w.sessions slot s in (record w { sessions = r.0 }, r.1)

-- The loop of `find_session_slot`, at slot number `slot`.
unfoldable pub find_session_from : ℕ → ℕ → List Session → Option ℕ
find_session_from user_id slot [] = none
find_session_from user_id slot (s ∷ ss) =
    if s.is_active && s.user_id == user_id
    then some slot
    else find_session_from user_id (slot + 1) ss

unfoldable pub find_session_slot : ℕ → World → Option ℕ
find_session_slot user_id w = find_session_from user_id 0 (records w.sessions)

-- The loop of `find_free_slot` at slot number `slot`, with its result: an inactive slot, or the one
-- after the last record if that is below `max_sessions`.
unfoldable pub find_free_from : ℕ → List Session → Option ℕ
find_free_from slot [] = if ltb slot max_sessions then some slot else none
find_free_from slot (s ∷ ss) =
    let rest = find_free_from (slot + 1) ss in
    if ltb slot max_sessions then (if s.is_active then rest else some slot) else none

-- Slot 0 if sessions.dat cannot be opened for writing.
unfoldable pub find_free_slot : World → Option ℕ
find_free_slot w = if w.sessions.writable then find_free_from 0 (records w.sessions) else some 0

-- A log that cannot be opened is left as it is.
abbrev pub log_txn : LogLine → World → World
log_txn line w = record w { txn_log = (append_record w.txn_log line).0 }

abbrev pub append_feedback : Feedback → World → World × Bool
append_feedback f w = let r = append_record w.feedback f in (record w { feedback = r.0 }, r.1)

abbrev pub write_dispute : Dispute → World → World × Bool
write_dispute d w =
    let r = write_at zero_dispute w.disputes (slot_of d.dispute_id) d in
    (record w { disputes = r.0 }, r.1)

abbrev pub read_dispute : ℕ → World → Option Dispute
read_dispute dispute_id w = read_at w.disputes (slot_of dispute_id)

abbrev pub next_dispute_id : World → ℕ
next_dispute_id w = next_id w.disputes
