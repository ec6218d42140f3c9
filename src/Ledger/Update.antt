-- ===== src/Ledger/Update.antt =====
-- The books still match after the wallets moved and one auction was rewritten, if every hold moved
-- by as much as the auction's claim on it.
use online_auction_system.Base.{ℕ, suc, ◌≡◌, refl, some, All-set, length, set, ◌∙◌}
use online_auction_system.Base.Money.{◌+ℤ◌, +ℤ_balance}
use online_auction_system.Models.{Amount, Auction}
use online_auction_system.Store.{records, read_at, replaced}
use online_auction_system.Store.Laws.{replaced-IsKeyed, read_at-get}
use online_auction_system.World.{World}
use online_auction_system.Ledger.{auction_key, claim_on, held, IsSaneAuction, BooksMatch}
use online_auction_system.Ledger.Sums.{held-set}
use online_auction_system.Ledger.Shift.{Shift}

-- The other files do not matter.
pub BooksMatch-files :
    {w w' : World} → w'.users ≡ w.users → w'.auctions ≡ w.auctions → BooksMatch w → BooksMatch w'
BooksMatch-files eu ea m = record {
  users_ready = record {
    keyed = rw eu m.users_ready.keyed;
    writable = rw eu m.users_ready.writable;
  };
  auctions_ready = record {
    keyed = rw ea m.auctions_ready.keyed;
    writable = rw ea m.auctions_ready.writable;
  };
  sound = rw eu m.sound;
  sane = rw (eu, ea) m.sane;
  holds = rw (eu, ea) m.holds;
}

pub BooksMatch-update :
    {w w' : World} {t : Amount} {b h : ℕ → Amount} (s : ℕ) (a a' : Auction)
    → BooksMatch w
    → Shift w w' t b h
    → read_at w.auctions s ≡ some a
    → a'.auction_id ≡ a.auction_id
    → IsSaneAuction (length (records w.users)) a'
    → ((i : ℕ) → h i +ℤ claim_on (suc i) a ≡ claim_on (suc i) a')
    → BooksMatch (record w' { auctions = replaced w'.auctions s a' })
BooksMatch-update {w} {w'} {h = h} s a a' m v found same sane moves = rw v.same_auctions (record {
  users_ready = record { keyed = v.ready.keyed; writable = v.ready.writable };
  auctions_ready = record {
    keyed = replaced-IsKeyed auction_key w.auctions s a' m.auctions_ready.keyed found same;
    writable = m.auctions_ready.writable;
  };
  sound = v.sound;
  sane =
      rw v.size
        (All-set (IsSaneAuction (length (records w.users))) (records w.auctions) s a' m.sane sane);
  holds = λ i u' e.
      let (u, e0, _, moved) = v.back i u' e in
      moved
      ∙ rw (m.holds i u e0) (
          +ℤ_balance (held (suc i) (records w.auctions))
            (held (suc i) (set (records w.auctions) s a')) (claim_on (suc i) a)
            (claim_on (suc i) a') (h i)
            (held-set (suc i) (records w.auctions) s a' (read_at-get w.auctions s found))
            (moves i));
})

-- The same where the auction is written first.
pub BooksMatch-update_first :
    {w w' : World} {t : Amount} {b h : ℕ → Amount} (s : ℕ) (a a' : Auction)
    → BooksMatch w
    → read_at w.auctions s ≡ some a
    → a'.auction_id ≡ a.auction_id
    → IsSaneAuction (length (records w.users)) a'
    → ((i : ℕ) → h i +ℤ claim_on (suc i) a ≡ claim_on (suc i) a')
    → Shift (record w { auctions = replaced w.auctions s a' }) w' t b h
    → BooksMatch w'
BooksMatch-update_first {w} {w'} s a a' m found same sane moves v =
    BooksMatch-files refl v.same_auctions (
      BooksMatch-update {w' = record w' { auctions = w.auctions }} s a a' m
        (record {
          ready = record { keyed = v.ready.keyed; writable = v.ready.writable };
          sound = v.sound;
          size = v.size;
          same_auctions = refl;
          total = v.total;
          back = v.back;
        })
        found same sane moves)
