-- ===== src/Ledger/Timer.antt =====
-- Closing by hand and by the timer (server/auction_engine.c): every request to close and every round
-- of the timer keeps the books and the sum of all balances.
use online_auction_system.Base.{
  ℕ, ◌≡◌, refl, Option, some, none, not, List, [], ◌∷◌, ◌∙◌, Option-cases, Bool-cases, inl, inr,
  ◌&&◌, ◌==◌,
}
use online_auction_system.Base.Money.{ℤ}
use online_auction_system.Models.{User, Auction}
use online_auction_system.Store.{records, slot_of}
use online_auction_system.World.{World}
use online_auction_system.World.FileIo.{read_auction}
use online_auction_system.BidHandler.{is_open}
use online_auction_system.AuctionEngine.{
  handle_close_auction, is_admin, timer_close, timer_close_all, timer_tick, timer_round,
  expired_ids,
}
use online_auction_system.Ledger.{BooksMatch, total_balance}
use online_auction_system.Ledger.Update.{BooksMatch-files}
use online_auction_system.Ledger.Close.{close_auction_internal-BooksMatch}

-- From `w` to `w'` the books stay right and no money is created or lost.
pub record KeepsMoney (w w' : World) : Type 0 where
  pub books : BooksMatch w'
  pub total : total_balance (records w'.users) ≡ total_balance (records w.users)

pub KeepsMoney-trans : {w w' w'' : World} → KeepsMoney w w' → KeepsMoney w' w'' → KeepsMoney w w''
KeepsMoney-trans p q = record { books = q.books; total = q.total ∙ p.total }

-- Where users.dat and auctions.dat stay as they are.
pub KeepsMoney-files :
    {w w' : World} → w'.users ≡ w.users → w'.auctions ≡ w.auctions → BooksMatch w → KeepsMoney w w'
KeepsMoney-files eu ea m = record { books = BooksMatch-files eu ea m; total = rw eu refl }

-- A request to close keeps the books and the money, whoever asks and however it ends.
pub handle_close_auction-KeepsMoney :
    (fd : ℤ) (id : ℕ) (u : User) {w : World}
    → BooksMatch w
    → KeepsMoney w (handle_close_auction fd id u w)
unfolding handle_close_auction
handle_close_auction-KeepsMoney fd id u {w} m = elim (Option-cases (read_auction id w)) [
  | inl absent ↦ rw (absent, handle_close_auction) (KeepsMoney-files refl refl m)
  | inr (a, found) ↦ elim (Bool-cases (not (a.seller_id == u.user_id) && not (is_admin u.role))) [
    | inl denied ↦ rw (found, denied, handle_close_auction) (KeepsMoney-files refl refl m)
    | inr allowed ↦ elim (Bool-cases (is_open a.status)) [
      | inr shut ↦ rw (found, allowed, shut, handle_close_auction) (KeepsMoney-files refl refl m)
      | inl opened ↦
          let k = close_auction_internal-BooksMatch (slot_of id) m found opened in
          rw (found, allowed, opened, handle_close_auction)
            (record { books = BooksMatch-files refl refl k.0; total = k.1 })
    ]
  ]
]

pub timer_close-KeepsMoney : (id : ℕ) {w : World} → BooksMatch w → KeepsMoney w (timer_close id w)
unfolding timer_close
timer_close-KeepsMoney id {w} m = elim (Option-cases (read_auction id w)) [
  | inl absent ↦ rw (absent, timer_close) (KeepsMoney-files refl refl m)
  | inr (a, found) ↦ elim (Bool-cases (is_open a.status)) [
    | inr shut ↦ rw (found, shut, timer_close) (KeepsMoney-files refl refl m)
    | inl opened ↦
        let k = close_auction_internal-BooksMatch (slot_of id) m found opened in
        rw (found, opened, timer_close)
          (record { books = BooksMatch-files refl refl k.0; total = k.1 })
  ]
]

timer_close_all-KeepsMoney :
    (ids : List ℕ) {w : World} → BooksMatch w → KeepsMoney w (timer_close_all ids w)
unfolding timer_close_all
timer_close_all-KeepsMoney [] m = KeepsMoney-files refl refl m
timer_close_all-KeepsMoney (id ∷ ids) m =
    let first = timer_close-KeepsMoney id m in
    KeepsMoney-trans first (timer_close_all-KeepsMoney ids first.books)

timer_round-KeepsMoney :
    (contents : Option (List Auction)) {w : World}
    → BooksMatch w
    → KeepsMoney w (timer_round contents w)
unfolding timer_round
timer_round-KeepsMoney none m = KeepsMoney-files refl refl m
timer_round-KeepsMoney (some all) {w} m = timer_close_all-KeepsMoney (expired_ids w.now all) m

-- A round of the timer keeps the books and the sum of all balances, whatever it closes.
pub timer_tick-KeepsMoney : {w : World} → BooksMatch w → KeepsMoney w (timer_tick w)
unfolding timer_tick
timer_tick-KeepsMoney {w} m = timer_round-KeepsMoney w.auctions.contents m
