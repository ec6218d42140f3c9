-- ===== src/Tests/Evening.antt =====
-- The work queue, the workers, the registry and a round of bids at the small auction house.
use online_auction_system.Base.{ℕ, ◌+◌, ◌≡◌, refl, true, false, some, arith, List, [], ◌∷◌}
use online_auction_system.Base.Money.{pos}
use online_auction_system.Models.{Auction, User, notify_outbid_msg, err_ok, zero_user}
use online_auction_system.Store.{read_at}
use online_auction_system.World.{World, outbid_payload}
use online_auction_system.World.FileIo.{
  find_user_by_username, find_username, find_session_slot, find_free_slot, find_session_from,
  find_free_from,
}
use online_auction_system.Notify.{send_msg, push_notification}
use online_auction_system.Notify.Registry.{entries_of, has_free}
use online_auction_system.Hash.{sha256_hex, fgets, strip_newline}
use online_auction_system.Auth.{
  LoginPayload, handle_login, open_session, finish_login, handle_logout,
}
use online_auction_system.Auth.Presence.{IsPresent}
use online_auction_system.Auth.Reach.{handle_login-push_notification}
use online_auction_system.Auth.Sessions.{sessions_of}
use online_auction_system.BidHandler.{is_open}
use online_auction_system.Server.Dispatch.{Request, Connection, handle_message, clean_up}
use online_auction_system.Server.Leak.{failed_login_leaves_session}
use online_auction_system.System.{connect, receive, disconnect, run}
use online_auction_system.Doubles.Numbers.{locked_message-number}
use online_auction_system.System.Outcry.{Offer, Bidding, over, next, place, standing, Bidding-best}
use online_auction_system.System.Pool.{Turn, happens, takes, start_pool, thread_pool_size, run_pool}
use online_auction_system.System.Pool.Order.{Advances, all_admitted, run_pool_in_order}
use online_auction_system.System.Pool.Clients.{clients, live}
use online_auction_system.System.Sessions.{run-IsPresent}
use online_auction_system.Tests.Accounts.{house-OneSessionEach, bob_logs_in}
use online_auction_system.Tests.House.{house, ann, bob, vase, house-AuctionsReady}
use online_auction_system.Tests.Whole.{seven, open_house, evening}

-- Two connections arrive, a worker takes the first, which then ends.
abbrev arrivals : List Turn
arrivals =
    happens (connect (pos 8))
    ∷ (happens (connect (pos 9))
        ∷ (takes
            ∷ (happens (receive 0 (Request.login bob_logs_in)) ∷ (happens (disconnect 0) ∷ []))))

run_pool_in_order_example :
    let s = run_pool seven arrivals (start_pool house) in
    (clients s ≡ all_admitted seven arrivals (start_pool house))
    × (live s.system.connections + s.idle ≡ thread_pool_size)
    × Advances seven s
run_pool_in_order_example = run_pool_in_order seven arrivals house

house-IsPresent : IsPresent house
unfolding entries_of sessions_of
house-IsPresent = record { writable = refl; one = house-OneSessionEach; listed = λ k. ground arith }

run-IsPresent_example : IsPresent (run seven evening open_house).world
run-IsPresent_example = run-IsPresent seven evening open_house house-IsPresent

handle_login-push_notification_example :
    let r = handle_login seven (pos 9) bob_logs_in zero_user house in
    let w' = handle_logout (pos 9) r.1 r.0 in
    (push_notification r.1.user_id notify_outbid_msg (outbid_payload 1 (pos 50)) r.0
      ≡ send_msg (pos 9) notify_outbid_msg err_ok (outbid_payload 1 (pos 50)) r.0)
    × (push_notification r.1.user_id notify_outbid_msg (outbid_payload 1 (pos 50)) w' ≡ w')
unfolding has_free handle_login find_user_by_username find_username sha256_hex open_session
    find_session_slot find_free_slot find_session_from find_free_from finish_login fgets
    strip_newline
handle_login-push_notification_example =
    handle_login-push_notification seven (pos 9) bob_logs_in zero_user house-IsPresent refl
      (omega arith) refl notify_outbid_msg (outbid_payload 1 (pos 50))

-- Ann is logged in, and her connection sends a wrong password.
abbrev connection_of_ann : Connection
connection_of_ann = record {
  client_fd = pos 8;
  current_user = ann;
  authenticated = true;
  running = true;
}

abbrev ann_logs_in : LoginPayload
ann_logs_in = record { username = 2 ∷ []; password = 5 ∷ [] }

abbrev nobody_logs_in : LoginPayload
nobody_logs_in = record { username = 77 ∷ []; password = 5 ∷ [] }

failed_login_leaves_session_example :
    let r = handle_message seven (Request.login nobody_logs_in) connection_of_ann house in
    let w' = clean_up seven r.1 r.0 in
    (find_session_slot 2 w' ≡ some 0)
    × ((handle_login seven (pos 9) ann_logs_in zero_user w').2 ≡ false)
unfolding handle_login find_user_by_username find_username find_session_slot find_session_from
failed_login_leaves_session_example =
    failed_login_leaves_session seven nobody_logs_in connection_of_ann house refl refl (pos 9)
      ann_logs_in zero_user {u = ann} refl refl

abbrev offer_of : User → ℕ → Offer
offer_of u amount = record {
  client_fd = pos 9;
  req = record { auction_id = 1; amount = pos amount };
  bidder = u;
}

abbrev offers : List Offer
offers = offer_of bob 40 ∷ (offer_of ann 60 ∷ (offer_of bob 60 ∷ []))

abbrev after_offers : World
after_offers = place (offer_of bob 60) (place (offer_of ann 60) (place (offer_of bob 40) house))

round_of_offers : Bidding after_offers offers house
round_of_offers = next (offer_of bob 40) _ (locked_message-number _ _ _ _) (
    next (offer_of ann 60) _ (locked_message-number _ _ _ _)
      (next (offer_of bob 60) _ (locked_message-number _ _ _ _) over))

Bidding-best_example :
    (a' : Auction) × (read_at after_offers.auctions 0 ≡ some a')
    × (is_open a'.status ≡ true)
    × (standing a' ≡ (pos 60, 2))
unfolding read_at
Bidding-best_example = Bidding-best 0 {a = vase} round_of_offers house-AuctionsReady refl refl
