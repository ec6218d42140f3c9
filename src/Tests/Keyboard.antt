-- ===== src/Tests/Keyboard.antt =====
-- The terminal program on a short input, and the theorems applied to it.
use online_auction_system.Base.{
  ◌≡◌, refl, true, Option, none, some, List, [], ◌∷◌, ◌==◌, arith, All, if◌then◌else◌,
}
use online_auction_system.Base.Money.{ℤ, pos}
use online_auction_system.Base.Bytes.{Bytes}
use online_auction_system.Models.{
  User, role_bidder, zero_user, zero_auction, err_ok, err_auth_fail, err_not_found, login_resp,
}
use online_auction_system.World.{World, Message, Payload, user_payload, no_payload}
use online_auction_system.Client.{Platform, Reply, Notice, Terminal}
use online_auction_system.Client.Menus.{menu}
use online_auction_system.Client.Steps.{IsAllowed}
use online_auction_system.Client.Allowed.{menu-IsAllowed}
use online_auction_system.Client.Agree.{reply_of}
use online_auction_system.Tests.House.{house, bob}
use online_auction_system.Store.{read_at}
use online_auction_system.Notify.{register, lookup_fd, notify_outbid}
use online_auction_system.BidHandler.{PlaceBidPayload, place_bid_peek, handle_place_bid}
use online_auction_system.Client.Bidder.{bidder_place_bid}
use online_auction_system.Client.Mixup.{outbid, refusal, notification_taken_for_answer}

abbrev user_in : Payload → User
user_in (user_payload u) = u
user_in _ = zero_user

-- The number of a one-digit line.
abbrev digit : Bytes → ℤ
digit [] = pos 0
digit (c ∷ s) = if c == 49 then pos 1 else pos 9

abbrev small_platform : Platform
small_platform = record {
  atoi = digit;
  atof = digit;
  stack = λ n. [];
  stale_status = err_ok;
  stale_payload = no_payload;
  as_user = user_in;
  as_auction = λ x. zero_auction;
  as_users = λ x. [];
  as_auctions = λ x. [];
  as_bids = λ x. [];
  as_disputes = λ x. [];
  as_feedbacks = λ x. [];
  as_outbid = λ x. (0, pos 0);
  as_won = λ x. (0, pos 0);
  as_closed = λ x. 0;
  as_user-user_payload = λ u. refl;
}

abbrev terminal : Bytes → List (Option Reply) → Terminal
terminal stdin arriving = record {
  stdin = stdin;
  arriving = arriving;
  me = zero_user;
  logged_in = true;
  sent = [];
  shown = [];
}

-- The auctions, then the logout.
abbrev short_input : Terminal
short_input = terminal (49 ∷ (10 ∷ (57 ∷ (10 ∷ [])))) (none ∷ (none ∷ []))

menu-IsAllowed_example :
    All (IsAllowed role_bidder) (menu small_platform 5 role_bidder short_input).sent
menu-IsAllowed_example = menu-IsAllowed small_platform 5 role_bidder short_input tt

-- A name that nobody has.
abbrev denied : Message
denied = record { fd = pos 9; type = login_resp; status = err_auth_fail; payload = no_payload }

abbrev stranger : Terminal
stranger = terminal (120 ∷ (10 ∷ (121 ∷ (10 ∷ [])))) (some (reply_of denied) ∷ [])

abbrev no_shell : Bytes → Option Bytes
no_shell cmd = none

-- The second bidder is registered, is told of a higher bid, and bids 9 for an auction that is not there.
abbrev listening_house : World
listening_house = record house { registry = register 3 (pos 9) house.registry }

abbrev bid_on_nothing : PlaceBidPayload
bid_on_nothing = record { auction_id = 9; amount = pos 9 }

abbrev hasty : Terminal
hasty = terminal (57 ∷ (10 ∷ (57 ∷ (10 ∷ [])))) (
    some (reply_of (outbid (pos 9) 1 (pos 50)))
    ∷ (some (reply_of (refusal (pos 9) err_not_found)) ∷ []))

notification_taken_for_answer_example :
    ((handle_place_bid (pos 9) bid_on_nothing bob (notify_outbid 3 1 (pos 50) listening_house)).sent
      ≡ refusal (pos 9) err_not_found ∷ (outbid (pos 9) 1 (pos 50) ∷ []))
    × ((bidder_place_bid small_platform hasty).shown ≡ Notice.bid_placed ∷ [])
    × ((bidder_place_bid small_platform hasty).arriving
        ≡ some (reply_of (refusal (pos 9) err_not_found)) ∷ [])
unfolding lookup_fd register place_bid_peek read_at
notification_taken_for_answer_example =
    notification_taken_for_answer small_platform hasty [] 3 1 (pos 50) (pos 9) bid_on_nothing bob
      listening_house (omega arith) refl refl refl
