-- ===== src/System/Disputes.antt =====
-- The order of the files when a dispute is filed or resolved (server/dispute.c).
use online_auction_system.Base.{
  ℕ, suc, ◌+◌, ◌^◌, ◌<◌, ◌≡◌, refl, ap, sym, subst, Option, some, none, true, false, arith,
  Bool-cases, Option-cases, inl, inr, length, [], ◌∷◌, All-get, All-set, All-append,
}
use online_auction_system.Base.Money.{ℤ, neg, ◌+ℤ◌, leb_ℤ}
use online_auction_system.Models.{
  User, Auction, AuctionStatus, auction_closed, auction_disputed, Dispute, zero_auction,
  zero_dispute,
}
use online_auction_system.Store.{records, slot_of}
use online_auction_system.Store.Laws.{
  write_back, write_at-next_id, append-IsKeyed, replaced-IsKeyed, read_at-get,
}
use online_auction_system.World.{World}
use online_auction_system.World.FileIo.{
  read_auction, read_dispute, write_dispute, write_auction, next_dispute_id,
}
use online_auction_system.BidHandler.{is_open}
use online_auction_system.Dispute.{
  is_closed, is_pending, is_resolved, FileDisputePayload, new_dispute, handle_file_dispute,
  ResolveDisputePayload, debit_seller, refund, ruled, carry_out, handle_resolve_dispute,
}
use online_auction_system.Ledger.{auction_key, claim_on, IsSaneAuction}
use online_auction_system.Ledger.Shift.{nothing, Shift-refl}
use online_auction_system.Ledger.Update.{BooksMatch-update, BooksMatch-files}
use online_auction_system.System.History.{
  Evolves-same, Evolves-append, Evolves-replaced, Follows-refl, status-Follows, FollowsDispute,
  FollowsDispute-refl,
}
use online_auction_system.System.Keeps.{
  dispute_key, IsAboutShut, InOrder, Keeps, Keeps-trans, Keeps-books, Keeps-files, Keeps-then,
}
use online_auction_system.System.Trade.{credit_wallet-Keeps}

shut_claims :
    (a a' : Auction) (i : ℕ)
    → is_open a.status ≡ false
    → is_open a'.status ≡ false
    → nothing i +ℤ claim_on (suc i) a ≡ claim_on (suc i) a'
unfolding ◌+ℤ◌
shut_claims a a' i h h' = ground arith

-- A shut auction that is written back with another status that is not open.
write_auction-Keeps :
    {w : World} (id : ℕ) {a : Auction} (status : AuctionStatus)
    → InOrder w
    → read_auction id w ≡ some a
    → is_open a.status ≡ false
    → is_open status ≡ false
    → Keeps w (write_auction (record a { status = status }) w).0
write_auction-Keeps {w} id {a} status o found shut now_shut =
    let a' : Auction = record a { status = status } in
    let m = o.books in
    let s = slot_of id in
    let sane =
      All-get (IsSaneAuction (length (records w.users))) (records w.auctions) s m.sane
        (read_at-get w.auctions s found) in
    let wrote =
      write_back auction_key zero_auction w.auctions s a' {old = a} m.auctions_ready.keyed found
        refl m.auctions_ready.writable in
    let v =
      Shift-refl {w = w} (record { keyed = m.users_ready.keyed; writable = m.users_ready.writable })
        m.sound in
    let books =
      BooksMatch-update s a a' m v found refl sane (λ i. shut_claims a a' i shut now_shut) in
    subst (λ r. Keeps w (record w { auctions = r.0 })) (sym wrote)
      (Keeps-books o books (omega arith) refl (
        Evolves-replaced Follows-refl w.auctions s a' found
          (status-Follows a status (inr now_shut))))

-- One more dispute, about an auction that is shut.
more_disputes-Keeps :
    {w : World} (d : Dispute)
    → InOrder w
    → length (records w.disputes) + 1 < 2 ^ 32
    → d.dispute_id ≡ next_dispute_id w
    → IsAboutShut w.auctions d
    → ((write_dispute d w).1 ≡ true) × Keeps w (write_dispute d w).0
more_disputes-Keeps {w} d o small id about =
    let wrote =
      write_at-next_id dispute_key zero_dispute w.disputes d small id o.disputes_writable in
    (
      ap (λ r. r.1) wrote,
      subst (λ r. Keeps w (record w { disputes = r.0 })) (sym wrote)
          (record {
            in_order = record {
              books = BooksMatch-files refl refl o.books;
              disputes_keyed =
                  append-IsKeyed dispute_key zero_dispute w.disputes d o.disputes_keyed small id;
              disputes_writable = o.disputes_writable;
              disputes_shut =
                  All-append (IsAboutShut w.auctions) (records w.disputes) (d ∷ []) o.disputes_shut
                    (about, tt);
            };
            users_stay = omega arith;
            auctions_go_on = Evolves-same Follows-refl refl;
            disputes_go_on = Evolves-append FollowsDispute-refl w.disputes d;
          }),
    )

pub handle_file_dispute-Keeps :
    (fd : ℤ) (req : FileDisputePayload) (u : User) {w : World}
    → InOrder w
    → length (records w.disputes) + 1 < 2 ^ 32
    → Keeps w (handle_file_dispute fd req u w)
unfolding handle_file_dispute
handle_file_dispute-Keeps fd req u {w} o small =
    elim (Option-cases (read_auction req.auction_id w)) [
      | inl absent ↦ rw (absent, handle_file_dispute) (Keeps-files o refl refl refl)
      | inr (a, found) ↦ elim (Bool-cases (is_closed a.status)) [
        | inr early ↦ rw (found, early, handle_file_dispute) (Keeps-files o refl refl refl)
        | inl over ↦
            let shut : is_open a.status ≡ false = ground arith in
            let d = new_dispute req u w in
            let (wrote, k) = more_disputes-Keeps d o small refl (a, found, shut) in
            let k1 =
              write_auction-Keeps {w = (write_dispute d w).0} req.auction_id auction_disputed
                k.in_order found shut refl in
            rw (found, over, handle_file_dispute, wrote)
              (Keeps-then (Keeps-trans k k1) refl refl refl)
      ]
    ]

debit_seller-Keeps :
    (a : Auction) (seller : Option User) {w : World} → InOrder w → Keeps w (debit_seller a seller w)
unfolding debit_seller
debit_seller-Keeps a none o = Keeps-files o refl refl refl
debit_seller-Keeps a (some seller) {w} o =
    elim (Bool-cases (leb_ℤ a.current_bid seller.wallet_balance)) [
      | inl covered ↦ rw covered (credit_wallet-Keeps a.seller_id (neg a.current_bid) o)
      | inr short ↦ rw short (Keeps-files o refl refl refl)
    ]

refund-Keeps : (d : Dispute) (a : Auction) {w : World} → InOrder w → Keeps w (refund d a w)
unfolding refund
refund-Keeps d a {w} o =
    let k = Keeps-files o refl refl refl in
    let k1 = credit_wallet-Keeps a.highest_bidder_id a.current_bid k.in_order in
    Keeps-trans k (Keeps-trans k1 (debit_seller-Keeps a _ k1.in_order))

carry_out-Keeps :
    (fd : ℤ) (u : User) (d : Dispute) {w : World}
    → InOrder w
    → IsAboutShut w.auctions d
    → Keeps w (carry_out fd u d (read_auction d.auction_id w) w)
unfolding carry_out
carry_out-Keeps fd u d {w} o (a, found, shut) = elim (Bool-cases (is_resolved d.status)) [
  | inl resolved ↦
      let k = refund-Keeps d a o in rw (found, carry_out, resolved) (Keeps-then k refl refl refl)
  | inr rejected ↦
      let k = write_auction-Keeps d.auction_id auction_closed o found shut refl in
      rw (found, carry_out, rejected) (Keeps-then k refl refl refl)
]

-- The ruling is written over the dispute.
write_ruling-Keeps :
    {w : World} (id : ℕ) {d : Dispute} (d' : Dispute)
    → InOrder w
    → read_dispute id w ≡ some d
    → d'.dispute_id ≡ d.dispute_id
    → IsAboutShut w.auctions d'
    → FollowsDispute d d'
    → Keeps w (write_dispute d' w).0
write_ruling-Keeps {w} id {d} d' o found same about follows =
    let s = slot_of id in
    let wrote =
      write_back dispute_key zero_dispute w.disputes s d' {old = d} o.disputes_keyed found same
        o.disputes_writable in
    subst (λ r. Keeps w (record w { disputes = r.0 })) (sym wrote)
      (record {
        in_order = record {
          books = BooksMatch-files refl refl o.books;
          disputes_keyed = replaced-IsKeyed dispute_key w.disputes s d' o.disputes_keyed found same;
          disputes_writable = o.disputes_writable;
          disputes_shut =
              All-set (IsAboutShut w.auctions) (records w.disputes) s d' o.disputes_shut about;
        };
        users_stay = omega arith;
        auctions_go_on = Evolves-same Follows-refl refl;
        disputes_go_on = Evolves-replaced FollowsDispute-refl w.disputes s d' found follows;
      })

pub handle_resolve_dispute-Keeps :
    (fd : ℤ) (req : ResolveDisputePayload) (u : User) {w : World}
    → InOrder w
    → Keeps w (handle_resolve_dispute fd req u w)
unfolding handle_resolve_dispute
handle_resolve_dispute-Keeps fd req u {w} o = elim (Bool-cases (is_pending req.new_status)) [
  | inl undecided ↦ rw (undecided, handle_resolve_dispute) (Keeps-files o refl refl refl)
  | inr decided ↦ elim (Option-cases (read_dispute req.dispute_id w)) [
    | inl absent ↦ rw (decided, absent, handle_resolve_dispute) (Keeps-files o refl refl refl)
    | inr (d, found) ↦ elim (Bool-cases (is_pending d.status)) [
      | inr over ↦ rw (decided, found, over, handle_resolve_dispute) (Keeps-files o refl refl refl)
      | inl pending ↦
          let d' = ruled req u w d in
          let about =
            All-get (IsAboutShut w.auctions) (records w.disputes) (slot_of req.dispute_id)
              o.disputes_shut (read_at-get w.disputes (slot_of req.dispute_id) found) in
          let follows : FollowsDispute d d' = record {
            same_id = refl;
            same_auction = refl;
            same_complainer = refl;
            same_reason = refl;
            ruling = inl pending;
          } in
          let k = write_ruling-Keeps req.dispute_id d' o found refl about follows in
          rw (decided, found, pending, handle_resolve_dispute)
            (Keeps-trans k (carry_out-Keeps fd u d' k.in_order about))
    ]
  ]
]
