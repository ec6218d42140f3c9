-- ===== src/Tests/House.antt =====
-- An auction house with an administrator who sells, two bidders, an open auction with a bid of 30 on
-- it, and a session.
use online_auction_system.Base.{
  ℕ, zero, suc, ◌≡◌, refl, true, some, arith, List, [], ◌∷◌, get_elem?,
}
use online_auction_system.Base.Money.{pos, ◌+ℤ◌}
use online_auction_system.Models.{
  User, Auction, Role, role_admin, role_bidder, auction_open, zero_user, zero_auction,
}
use online_auction_system.Store.{File, records}
use online_auction_system.Store.Laws.{read_at-get}
use online_auction_system.World.{World}
use online_auction_system.Notify.{empty_registry}
use online_auction_system.Wallet.Effect.{UsersReady}
use online_auction_system.Wallet.Sound.{WalletsSound}
use online_auction_system.Ledger.{BooksMatch, AuctionsReady, held}

abbrev pub user : ℕ → Role → ℕ → ℕ → User
user k r balance hold = record zero_user {
  user_id = k;
  username = k ∷ [];
  password = 7 ∷ [];
  role = r;
  wallet_balance = pos balance;
  wallet_hold = pos hold;
}

abbrev pub seller : User
seller = user 1 role_admin 5 0

abbrev pub ann : User
ann = user 2 role_bidder 100 30

abbrev pub bob : User
bob = user 3 role_bidder 80 0

abbrev pub vase : Auction
vase = record zero_auction {
  auction_id = 1;
  seller_id = 1;
  start_price = pos 10;
  reserve_price = pos 20;
  current_bid = pos 30;
  highest_bidder_id = 2;
  status = auction_open;
  end_time = 50;
  bid_count = 1;
}

abbrev pub file : {A : Type 0} → List A → File A
file xs = record { contents = some xs; writable = true }

abbrev pub house : World
house = record {
  users = file (seller ∷ ann ∷ bob ∷ []);
  auctions = file (vase ∷ []);
  bids = file [];
  sessions =
      file (record { user_id = 2; client_fd = pos 8; login_time = 1; is_active = true } ∷ []);
  feedback = file [];
  disputes = file [];
  txn_log = file [];
  registry = empty_registry;
  sent = [];
  now = 60;
}

pub house-UsersReady : UsersReady house
house-UsersReady = record { keyed = ((refl, (refl, (refl, tt))), omega arith); writable = refl }

pub house-AuctionsReady : AuctionsReady house
house-AuctionsReady = record { keyed = ((refl, tt), omega arith); writable = refl }

pub house-WalletsSound : WalletsSound house
house-WalletsSound =
    ((omega arith, omega arith), ((omega arith, omega arith), ((omega arith, omega arith), tt)))

same_hold : {v u : User} → some v ≡ some u → u.wallet_hold ≡ v.wallet_hold
same_hold e = cc

house-holds :
    (i : ℕ) (u : User)
    → get_elem? (records house.users) i ≡ some u
    → u.wallet_hold ≡ held (suc i) (records house.auctions)
unfolding held ◌+ℤ◌
house-holds zero u e = same_hold e
house-holds (suc zero) u e = same_hold e
house-holds (suc (suc zero)) u e = same_hold e
house-holds (suc (suc (suc i))) u e = absurd cc

pub house-BooksMatch : BooksMatch house
house-BooksMatch = record {
  users_ready = house-UsersReady;
  auctions_ready = house-AuctionsReady;
  sound = house-WalletsSound;
  sane = ((omega arith, omega arith, omega arith, omega arith), tt);
  holds = λ i u e. house-holds i u (read_at-get house.users i e);
}

-- The same house before anybody has bid.
abbrev pub new_house : World
new_house = record house {
  users = file (seller ∷ (user 2 role_bidder 100 0 ∷ (bob ∷ [])));
  auctions = file (record vase { current_bid = pos 10; highest_bidder_id = 0; bid_count = 0 } ∷ []);
}

pub new_house-AuctionsReady : AuctionsReady new_house
new_house-AuctionsReady = record { keyed = ((refl, tt), omega arith); writable = refl }
