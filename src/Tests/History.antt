-- ===== src/Tests/History.antt =====
-- What lasts over an evening at the small auction house, and where the code goes astray.
use online_auction_system.Base.{◌≡◌, refl, true, some, arith, List, [], ◌∷◌}
use online_auction_system.Base.Money.{pos, ◌+ℤ◌}
use online_auction_system.Models.{
  Auction, Dispute, role_bidder, zero_dispute, zero_user, auction_closed,
}
use online_auction_system.Store.{read_at, write_at, next_id}
use online_auction_system.World.FileIo.{
  find_user_by_username, find_username, find_session_slot, find_free_slot, find_session_from,
  find_free_from, read_auction,
}
use online_auction_system.Notify.{notify_register, register}
use online_auction_system.Hash.{sha256_hex, fgets, strip_newline}
use online_auction_system.Admin.{AddUserPayload, handle_add_user}
use online_auction_system.Auth.{handle_login, open_session, finish_login}
use online_auction_system.Auth.Newcomer.{handle_add_user-handle_login}
use online_auction_system.BidHandler.{PlaceBidPayload, with_bid, accept_bid, is_open}
use online_auction_system.AuctionEngine.{closed, close_auction_internal}
use online_auction_system.Dispute.{refund}
use online_auction_system.Server.Dispatch.{Request, handle_message, serve}
use online_auction_system.System.{
  Event, connect, receive, disconnect, clock, tick, run, serve_one, step,
}
use online_auction_system.System.History.{Evolves, Follows, FollowsDispute}
use online_auction_system.System.Money.{money}
use online_auction_system.System.Refund.{refund_mints}
use online_auction_system.System.Reopen.{accept_bid_reopens}
use online_auction_system.System.Conserve.{money-run}
use online_auction_system.System.Run.{AllFit, run-Follows}
use online_auction_system.Tests.House.{
  house, seller, ann, bob, vase, house-AuctionsReady, house-UsersReady,
}
use online_auction_system.Tests.Whole.{
  seven, open_house, open_house-IsSound, evening, evening-AllFit,
}

run-Follows_example :
    let w' = (run seven evening open_house).world in
    Evolves Follows house.auctions w'.auctions × Evolves FollowsDispute house.disputes w'.disputes
run-Follows_example = run-Follows seven evening open_house open_house-IsSound evening-AllFit

-- Bob logs in and bids in time, and the auction ends.
abbrev short_evening : List Event
short_evening =
    connect (pos 9)
    ∷ (receive 0 (Request.login (record { username = 3 ∷ []; password = 5 ∷ [] }))
        ∷ (clock 20
            ∷ (receive 0 (Request.place_bid (record { auction_id = 1; amount = pos 70 }))
                ∷ (clock 60 ∷ (tick ∷ (disconnect 0 ∷ []))))))

short_evening-AllFit : AllFit seven short_evening open_house
unfolding step serve_one handle_message serve handle_login find_user_by_username find_username
    sha256_hex open_session find_session_slot find_free_slot finish_login notify_register
    find_session_from find_free_from register fgets strip_newline write_at
short_evening-AllFit = (
  tt,
  (
    (record { users = omega arith; auctions = omega arith; disputes = omega arith }, λ c e. tt),
    (
      tt,
      (
        (record { users = omega arith; auctions = omega arith; disputes = omega arith }, λ c e. tt),
        (tt, (tt, (tt, tt))),
      ),
    ),
  ),
)

money-run_example : money (run seven short_evening open_house).world ≡ money house
money-run_example =
    money-run seven short_evening open_house open_house-IsSound short_evening-AllFit
      (refl, (refl, (refl, (refl, (refl, (refl, (refl, tt)))))))

-- A bid of 50 while the timer closes the auction.
abbrev bid_in_time : PlaceBidPayload
bid_in_time = record { auction_id = 1; amount = pos 50 }

accept_bid_reopens_example :
    let w1 = close_auction_internal vase house in
    (read_auction 1 w1 ≡ some (closed vase))
    × (read_auction 1 (accept_bid (pos 9) bid_in_time bob vase w1)
        ≡ some (with_bid bid_in_time bob vase))
    × (is_open (with_bid bid_in_time bob vase).status ≡ true)
unfolding read_at
accept_bid_reopens_example =
    accept_bid_reopens (pos 9) bid_in_time bob house-AuctionsReady
      (record { found = refl; opened = refl; beats = omega arith })

-- A sale at 30, of which the seller has spent 25.
abbrev sold : Auction
sold = record vase { status = auction_closed }

abbrev complaint : Dispute
complaint = record zero_dispute { dispute_id = 1; auction_id = 1; raised_by_user_id = 2 }

refund_mints_example : money (refund complaint sold house) ≡ money house +ℤ pos 30
unfolding read_at
refund_mints_example =
    refund_mints complaint sold {w = house} {winner = ann} {seller = seller} house-UsersReady refl
      (omega arith, omega arith) refl refl (omega arith) (omega arith)

abbrev add_zoe : AddUserPayload
add_zoe = record { username = 5 ∷ []; password = 6 ∷ []; full_name = []; role = role_bidder }

handle_add_user-handle_login_example :
    let r =
      handle_login seven
        (pos 9)
        (record { username = 5 ∷ []; password = 6 ∷ [] })
        zero_user
        (handle_add_user seven (pos 7) add_zoe house) in
    (r.2 ≡ true) × (r.1.user_id ≡ 4) × (r.1.role ≡ role_bidder)
unfolding find_user_by_username find_username find_session_slot find_free_slot find_session_from
    find_free_from next_id
handle_add_user-handle_login_example =
    handle_add_user-handle_login seven (pos 7) add_zoe house seven (pos 9) zero_user
      house-UsersReady (omega arith) refl (omega arith) (omega arith) refl refl refl
