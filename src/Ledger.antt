-- ===== src/Ledger.antt =====
-- The books of the auction house across users.dat and auctions.dat: what wallet.c freezes is what
-- the open auctions of bid_handler.c and auction_engine.c have as highest bids.
pub mod Sums
pub mod Shift
pub mod Update
pub mod Bid
pub mod Close
pub mod Timer
pub mod Expiry
pub mod Unbacked
pub mod Users
pub mod Entry
use online_auction_system.Base.{
  ℕ, suc, ◌+◌, ◌≤◌, ◌≡◌, Bool, true, some, All, ◌&&◌, ◌==◌, if◌then◌else◌, length, List, [], ◌∷◌,
}
use online_auction_system.Base.Money.{ℤ, pos, ◌+ℤ◌, ◌≤ℤ◌}
use online_auction_system.Models.{Amount, User, Auction}
use online_auction_system.Store.{File, records, read_at}
use online_auction_system.Store.Laws.{IsKeyed}
use online_auction_system.World.{World}
use online_auction_system.Wallet.Sound.{WalletsSound}
use online_auction_system.Wallet.Effect.{UsersReady}
use online_auction_system.BidHandler.{is_open}

abbrev pub auction_key : Auction → ℕ
auction_key a = a.auction_id

-- auctions.dat holds auction i + 1 in record i, and can be written.
pub record AuctionsReady (w : World) : Type 0 where
  pub keyed : IsKeyed auction_key w.auctions
  pub writable : w.auctions.writable ≡ true

-- What an auction freezes in the wallet of user `k`.
abbrev pub claim_on : ℕ → Auction → Amount
claim_on k a = if is_open a.status && a.highest_bidder_id == k then a.current_bid else pos 0

-- The sum of the highest bids of `k` over the open auctions.
unfoldable pub held : ℕ → List Auction → Amount
held k [] = pos 0
held k (a ∷ xs) = claim_on k a +ℤ held k xs

-- An auction's price is not negative, its highest bidder, if any, is one of `n` users, and so is its
-- seller.
abbrev pub IsSaneAuction : ℕ → Auction → Type 0
IsSaneAuction n a =
    (pos 0 ≤ℤ a.current_bid) × (a.highest_bidder_id ≤ n) × (1 ≤ a.seller_id) × (a.seller_id ≤ n)

-- Every user's hold is the sum of the user's highest bids on open auctions.
pub record BooksMatch (w : World) : Type 0 where
  pub users_ready : UsersReady w
  pub auctions_ready : AuctionsReady w
  pub sound : WalletsSound w
  pub sane : All (IsSaneAuction (length (records w.users))) (records w.auctions)
  pub holds :
      (i : ℕ) (u : User)
      → read_at w.users i ≡ some u
      → u.wallet_hold ≡ held (suc i) (records w.auctions)

-- All the money in the wallets.
unfoldable pub total_balance : List User → Amount
total_balance [] = pos 0
total_balance (u ∷ us) = u.wallet_balance +ℤ total_balance us
