-- ===== src/Tests/Whole.antt =====
-- The whole server on the small auction house, and its first administrator.
use online_auction_system.Base.{◌≡◌, refl, true, some, none, Option, arith, List, [], ◌∷◌}
use online_auction_system.Base.Money.{pos, ◌+ℤ◌}
use online_auction_system.Base.Bytes.{Bytes}
use online_auction_system.Models.{role_admin, zero_user}
use online_auction_system.Store.{read_at, write_at}
use online_auction_system.World.{World}
use online_auction_system.World.FileIo.{
  find_user_by_username, find_username, find_session_slot, find_free_slot, find_session_from,
  find_free_from,
}
use online_auction_system.Notify.{notify_register, register}
use online_auction_system.Wallet.{handle_deposit, credit_wallet, delta_user, apply_wallet_delta}
use online_auction_system.Hash.{bytes, sha256_hex, fgets, strip_newline}
use online_auction_system.Admin.LastAdmin.{HasAdmin}
use online_auction_system.Auth.{handle_login, open_session, finish_login}
use online_auction_system.Auth.Sessions.{OneSessionEach}
use online_auction_system.Server.Dispatch.{Request, handle_message, serve}
use online_auction_system.System.{
  System, Event, connect, receive, disconnect, clock, tick, run, serve_one, step,
}
use online_auction_system.System.Keeps.{InOrder}
use online_auction_system.System.Run.{IsSound, AllFit, run-IsSound}
use online_auction_system.System.Sessions.{run-OneSessionEach}
use online_auction_system.Seed.{
  IsBlank, admin_password, seed_admin, seed_admin-InOrder, seed_admin-handle_login,
}
use online_auction_system.Tests.Accounts.{house-OneSessionEach}
use online_auction_system.Tests.House.{house, house-BooksMatch, file}

-- A shell that prints the digest that the users of the house have.
abbrev pub seven : Bytes → Option Bytes
seven cmd = some (7 ∷ [])

abbrev pub open_house : System
open_house = record { world = house; connections = [] }

house-InOrder : InOrder house
house-InOrder = record {
  books = house-BooksMatch;
  disputes_keyed = (tt, omega arith);
  disputes_writable = refl;
  disputes_shut = tt;
}

pub open_house-IsSound : IsSound open_house
open_house-IsSound = record { in_order = house-InOrder; known = tt }

-- Bob logs in, pays in, and bids in time; then the auction ends.
abbrev pub evening : List Event
evening =
    connect (pos 9)
    ∷ (receive 0 (Request.login (record { username = 3 ∷ []; password = 5 ∷ [] }))
        ∷ (receive 0 (Request.deposit (record { amount = pos 20 }))
            ∷ (clock 20
                ∷ (receive 0 (Request.place_bid (record { auction_id = 1; amount = pos 90 }))
                    ∷ (clock 60 ∷ (tick ∷ (disconnect 0 ∷ [])))))))

pub evening-AllFit : AllFit seven evening open_house
unfolding step serve_one handle_message serve handle_login find_user_by_username find_username
    sha256_hex open_session find_session_slot find_free_slot finish_login notify_register
    handle_deposit credit_wallet delta_user apply_wallet_delta find_session_from find_free_from
    register read_at write_at ◌+ℤ◌ fgets strip_newline
evening-AllFit = (
  tt,
  (
    (record { users = omega arith; auctions = omega arith; disputes = omega arith }, λ c e. tt),
    (
      (record { users = omega arith; auctions = omega arith; disputes = omega arith }, λ c e. tt),
      (
        tt,
        (
          (
            record { users = omega arith; auctions = omega arith; disputes = omega arith },
            λ c e. tt,
          ),
          (tt, (tt, (tt, tt))),
        ),
      ),
    ),
  ),
)

run-IsSound_example : IsSound (run seven evening open_house)
run-IsSound_example = run-IsSound seven evening open_house open_house-IsSound evening-AllFit

run-OneSessionEach_example : OneSessionEach (run seven evening open_house).world
run-OneSessionEach_example = run-OneSessionEach seven evening open_house house-OneSessionEach

abbrev blank : World
blank = record house {
  users = record { contents = none; writable = true };
  auctions = file [];
  sessions = file [];
}

blank-IsBlank : IsBlank blank
blank-IsBlank = record {
  users_writable = refl;
  auctions_writable = refl;
  no_auctions = refl;
  disputes_writable = refl;
  no_disputes = refl;
}

seed_admin-InOrder_example :
    InOrder (seed_admin seven blank).0
    × HasAdmin (seed_admin seven blank).0
    × ((seed_admin seven blank).1 ≡ 0)
seed_admin-InOrder_example = seed_admin-InOrder seven blank blank-IsBlank

seed_admin-handle_login_example :
    let r =
      handle_login seven
        (pos 9)
        (record { username = bytes "admin"; password = admin_password })
        zero_user
        (seed_admin seven blank).0 in
    (r.2 ≡ true) × (r.1.user_id ≡ 1) × (r.1.role ≡ role_admin)
seed_admin-handle_login_example =
    seed_admin-handle_login seven blank (pos 9) zero_user blank-IsBlank refl refl
