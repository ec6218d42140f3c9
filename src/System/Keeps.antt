-- ===== src/System/Keeps.antt =====
-- The order of the data files that the handlers are to keep: the books, and no dispute about an open
-- auction.
use online_auction_system.Base.{ℕ, ◌≤◌, ◌≡◌, true, false, arith, inl, inr, length, All, All-imp}
use online_auction_system.Models.{Auction, Dispute}
use online_auction_system.Store.{File, records, slot_of}
use online_auction_system.Store.Laws.{IsKeyed}
use online_auction_system.World.{World}
use online_auction_system.BidHandler.{is_open}
use online_auction_system.Ledger.{BooksMatch}
use online_auction_system.Ledger.Update.{BooksMatch-files}
use online_auction_system.Ledger.Expiry.{IsShut}
use online_auction_system.System.History.{
  Evolves, Evolves-trans, Evolves-same, Follows, Follows-refl, Follows-trans, FollowsDispute,
  FollowsDispute-refl, FollowsDispute-trans,
}

abbrev pub dispute_key : Dispute → ℕ
dispute_key d = d.dispute_id

-- The auction of a dispute is on file, and not open.
abbrev pub IsAboutShut : File Auction → Dispute → Type 0
IsAboutShut f d = IsShut (slot_of d.auction_id) f

-- The data files of money are in order: the books match, and disputes.dat can be written, holds
-- dispute i + 1 in record i, and has no dispute about an open auction.
pub record InOrder (w : World) : Type 0 where
  pub books : BooksMatch w
  pub disputes_keyed : IsKeyed dispute_key w.disputes
  pub disputes_writable : w.disputes.writable ≡ true
  pub disputes_shut : All (IsAboutShut w.auctions) (records w.disputes)

-- From `w` to `w'` the files stay in order, no user goes away, and auctions and disputes only go on.
pub record Keeps (w w' : World) : Type 0 where
  pub in_order : InOrder w'
  pub users_stay : length (records w.users) ≤ length (records w'.users)
  pub auctions_go_on : Evolves Follows w.auctions w'.auctions
  pub disputes_go_on : Evolves FollowsDispute w.disputes w'.disputes

-- No shut auction opens from `f` to `f'`.
abbrev StaysShut : File Auction → File Auction → Type 0
StaysShut f f' = (i : ℕ) → IsShut i f → IsShut i f'

Evolves-StaysShut : {f f' : File Auction} → Evolves Follows f f' → StaysShut f f'
Evolves-StaysShut e i (a, there, shut) =
    let (a', there', follows) = e.later i a there in
    let over : is_open a'.status ≡ false = elim follows.outcome [
      | inl opened ↦ absurd (ground arith)
      | inr settled ↦ settled.over
    ] in
    (a', there', over)

pub Keeps-trans : {w w' w'' : World} → Keeps w w' → Keeps w' w'' → Keeps w w''
Keeps-trans p q = record {
  in_order = q.in_order;
  users_stay = omega (arith, p.users_stay, q.users_stay);
  auctions_go_on = Evolves-trans Follows-trans p.auctions_go_on q.auctions_go_on;
  disputes_go_on = Evolves-trans FollowsDispute-trans p.disputes_go_on q.disputes_go_on;
}

-- Where disputes.dat stays as it is.
pub Keeps-books :
    {w w' : World}
    → InOrder w
    → BooksMatch w'
    → length (records w.users) ≤ length (records w'.users)
    → w'.disputes ≡ w.disputes
    → Evolves Follows w.auctions w'.auctions
    → Keeps w w'
Keeps-books {w} {w'} o m grows same goes_on = record {
  in_order = record {
    books = m;
    disputes_keyed = rw same o.disputes_keyed;
    disputes_writable = rw same o.disputes_writable;
    disputes_shut = rw same (
        All-imp (IsAboutShut w.auctions) (IsAboutShut w'.auctions) (records w.disputes)
          (λ d. Evolves-StaysShut goes_on (slot_of d.auction_id)) o.disputes_shut);
  };
  users_stay = grows;
  auctions_go_on = goes_on;
  disputes_go_on = Evolves-same FollowsDispute-refl same;
}

-- Where none of the three files changes.
pub Keeps-files :
    {w w' : World}
    → InOrder w
    → w'.users ≡ w.users
    → w'.auctions ≡ w.auctions
    → w'.disputes ≡ w.disputes
    → Keeps w w'
Keeps-files o eu ea ed =
    Keeps-books o (BooksMatch-files eu ea o.books) (rw eu (omega arith)) ed
      (Evolves-same Follows-refl ea)

-- What follows leaves the three files alone.
pub Keeps-then :
    {w w' w'' : World}
    → Keeps w w'
    → w''.users ≡ w'.users
    → w''.auctions ≡ w'.auctions
    → w''.disputes ≡ w'.disputes
    → Keeps w w''
Keeps-then k eu ea ed = Keeps-trans k (Keeps-files k.in_order eu ea ed)
