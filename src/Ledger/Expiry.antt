-- ===== src/Ledger/Expiry.antt =====
-- A round of the timer (server/auction_engine.c) leaves no expired auction open.
use online_auction_system.Base.{
  ℕ, ◌≤◌, ◌≡◌, refl, some, none, true, false, not, arith, List, [], ◌∷◌, ◌∙◌, sym, subst, ap,
  Option-cases, Bool-cases, inl, inr, ◌⊎◌, ◌&&◌, ◌==◌, length, filter, get_elem?, All, All-imp,
  All-map, All-take, All-filter, All-unmap, All-filter_get, take_all,
}
use online_auction_system.Models.{Auction, zero_auction}
use online_auction_system.Store.{File, records, read_at, slot_of, replaced}
use online_auction_system.Store.Laws.{IsKeyed, read_at-replaced, write_back, slot_of-read}
use online_auction_system.Store.Scan.{collect, collect-eq-take}
use online_auction_system.World.{World}
use online_auction_system.World.FileIo.{read_auction}
use online_auction_system.Notify.Frame.{notify_auction_closed-OnlySends}
use online_auction_system.Wallet.Frame.{
  release_hold-SameElsewhere, settle_payment-SameElsewhere, credit_wallet-SameElsewhere,
}
use online_auction_system.BidHandler.{is_open}
use online_auction_system.AuctionEngine.{
  closed, reserve_met, settle_auction, release_auction, close_auction_internal, is_expired,
  timer_close, timer_close_all, timer_tick, timer_round, expired_ids,
}
use online_auction_system.Ledger.{auction_key, AuctionsReady, BooksMatch}
use online_auction_system.Ledger.Close.{settle_auction-files}
use online_auction_system.Ledger.Timer.{timer_close-KeepsMoney}

settle_auction-auctions : (a : Auction) (w : World) → (settle_auction a w).auctions ≡ w.auctions
settle_auction-auctions a w =
    (settle_auction-files a w).1
    ∙ ap (λ v. v.auctions) (credit_wallet-SameElsewhere a.seller_id a.current_bid _)
    ∙ ap (λ v. v.auctions) (settle_payment-SameElsewhere a.highest_bidder_id a.current_bid _)

release_auction-auctions : (a : Auction) (w : World) → (release_auction a w).auctions ≡ w.auctions
unfolding release_auction
release_auction-auctions a w =
    ap (λ v. v.auctions) (notify_auction_closed-OnlySends a.seller_id a.auction_id _)
    ∙ (elim (Bool-cases (a.highest_bidder_id == 0)) [
      | inl nobody ↦ rw nobody refl
      | inr somebody ↦
          rw somebody
            (ap (λ v. v.auctions) (release_hold-SameElsewhere a.highest_bidder_id a.current_bid w))
    ])

-- Closing writes the closed auction back, and no other auction.
pub close_auction_internal-auctions :
    {w : World} {a : Auction} (s : ℕ)
    → AuctionsReady w
    → read_at w.auctions s ≡ some a
    → (close_auction_internal a w).auctions ≡ replaced w.auctions s (closed a)
unfolding close_auction_internal
close_auction_internal-auctions {w} {a} s ready found =
    let wrote =
      write_back auction_key zero_auction w.auctions s (closed a) {old = a} ready.keyed found refl
        ready.writable in
    rw wrote (elim (Bool-cases (not (a.highest_bidder_id == 0) && reserve_met a)) [
      | inl won ↦ rw won (settle_auction-auctions (closed a) _)
      | inr lost ↦ rw lost (release_auction-auctions (closed a) _)
    ])

-- Record `i` is there.
abbrev pub IsThere : ℕ → File Auction → Type 0
IsThere i f = (a : Auction) × (read_at f i ≡ some a)

-- Record `i` is there, and its auction is not open.
abbrev pub IsShut : ℕ → File Auction → Type 0
IsShut i f = (a : Auction) × (read_at f i ≡ some a) × (is_open a.status ≡ false)

-- Closing the auction of one record shuts it, and no shut one opens.
close-IsShut :
    (f : File Auction) (s i : ℕ) {a : Auction}
    → read_at f s ≡ some a
    → (i ≡ s) ⊎ IsShut i f
    → IsShut i (replaced f s (closed a))
close-IsShut f s i {a} found h = elim (Bool-cases (i == s)) [
  | inl same ↦ (closed a, read_at-replaced f s i (closed a) found ∙ rw same refl, refl)
  | inr other ↦ elim h [
    | inl e ↦ absurd (ground arith)
    | inr (b, there, shut) ↦ (b, read_at-replaced f s i (closed a) found ∙ rw other there, shut)
  ]
]

close-IsThere :
    (f : File Auction) (s i : ℕ) {a : Auction}
    → read_at f s ≡ some a
    → IsThere i f
    → IsThere i (replaced f s (closed a))
close-IsThere f s i {a} found (b, there) = elim (Bool-cases (i == s)) [
  | inl same ↦ (closed a, read_at-replaced f s i (closed a) found ∙ rw same refl)
  | inr other ↦ (b, read_at-replaced f s i (closed a) found ∙ rw other there)
]

-- A property of auctions.dat after `timer_close`, in each of its cases.
timer_close-cases {ℓ} :
    (P : File Auction → Type ℓ) (id : ℕ) (w : World)
    → AuctionsReady w
    → (read_auction id w ≡ none → P w.auctions)
    → ((a : Auction) → read_auction id w ≡ some a → is_open a.status ≡ false → P w.auctions)
    → ((a : Auction) → read_auction id w ≡ some a → P (replaced w.auctions (slot_of id) (closed a)))
    → P (timer_close id w).auctions
unfolding timer_close
timer_close-cases P id w ready absent shut opened = elim (Option-cases (read_auction id w)) [
  | inl e ↦ rw (e, timer_close) (absent e)
  | inr (a, e) ↦ elim (Bool-cases (is_open a.status)) [
    | inl o ↦
        rw (e, o, timer_close, close_auction_internal-auctions (slot_of id) ready e) (opened a e)
    | inr s ↦ rw (e, s, timer_close) (shut a e s)
  ]
]

timer_close-IsShut :
    (id i : ℕ) (w : World)
    → AuctionsReady w
    → IsThere i w.auctions
    → (i ≡ slot_of id) ⊎ IsShut i w.auctions
    → IsShut i (timer_close id w).auctions
timer_close-IsShut id i w ready (b, there) h =
    timer_close-cases (IsShut i) id w ready
      (λ absent. elim h [
        | inl e ↦
            let q : none ≡ some b =
              sym absent ∙ subst (λ j. read_at w.auctions j ≡ some b) e there in
            absurd cc
        | inr k ↦ k
      ])
      (λ a found shut. elim h [ inl e ↦ (a, rw e found, shut) | inr k ↦ k ])
      λ a found. close-IsShut w.auctions (slot_of id) i found h

timer_close-IsThere :
    (id i : ℕ) (w : World)
    → AuctionsReady w
    → IsThere i w.auctions
    → IsThere i (timer_close id w).auctions
timer_close-IsThere id i w ready there =
    timer_close-cases (IsThere i) id w ready (λ absent. there) (λ a found shut. there)
      λ a found. close-IsThere w.auctions (slot_of id) i found there

timer_close_all-keeps_IsShut :
    (ids : List ℕ) (i : ℕ) {w : World}
    → BooksMatch w
    → IsShut i w.auctions
    → IsShut i (timer_close_all ids w).auctions
unfolding timer_close_all
timer_close_all-keeps_IsShut [] i m shut = shut
timer_close_all-keeps_IsShut (id ∷ ids) i {w} m shut =
    timer_close_all-keeps_IsShut ids i (timer_close-KeepsMoney id m).books
      (timer_close-IsShut id i w m.auctions_ready (shut.0, shut.1) (inr shut))

timer_close_all-IsShut :
    (ids : List ℕ) {w : World}
    → BooksMatch w
    → All (λ id. IsThere (slot_of id) w.auctions) ids
    → All (λ id. IsShut (slot_of id) (timer_close_all ids w).auctions) ids
unfolding timer_close_all
timer_close_all-IsShut [] m there = tt
timer_close_all-IsShut (id ∷ ids) {w} m there =
    let m1 = (timer_close-KeepsMoney id m).books in
    let ready = m.auctions_ready in
    (
      timer_close_all-keeps_IsShut ids (slot_of id) m1
          (timer_close-IsShut id (slot_of id) w ready there.0 (inl refl)),
      timer_close_all-IsShut ids m1
          (All-imp _ _ ids (λ j. timer_close-IsThere id (slot_of j) w ready) there.1),
    )

-- The ids of the auctions that a round collects stand in auctions.dat.
expired_ids-IsThere :
    (now : ℕ) (f : File Auction)
    → IsKeyed auction_key f
    → All (λ id. IsThere (slot_of id) f) (expired_ids now (records f))
unfolding read_at
expired_ids-IsThere now f keyed = rw (collect-eq-take (is_expired now) 64 (records f)) (
    All-map _ auction_key _ (
      All-take _ 64 _ (
        All-filter _ (is_expired now) (records f)
          (λ i a found. (a, rw (slot_of-read auction_key f i keyed found) found)))))

-- After a round of the timer at which at most 64 open auctions have expired, none of them is open.
pub timer_tick-IsShut :
    {w : World} {all : List Auction}
    → BooksMatch w
    → w.auctions.contents ≡ some all
    → length (filter (is_expired w.now) all) ≤ 64
    → (i : ℕ) (a : Auction) → get_elem? all i ≡ some a
    → is_expired w.now a ≡ true
    → IsShut i (timer_tick w).auctions
unfolding timer_tick timer_round read_at
timer_tick-IsShut {w} {all} m contents few i a found expired =
    let same : records w.auctions ≡ all = rw contents refl in
    let ids = expired_ids w.now all in
    let w' = timer_close_all ids w in
    let there : All (λ id. IsThere (slot_of id) w.auctions) ids =
      subst (λ xs. All (λ id. IsThere (slot_of id) w.auctions) (expired_ids w.now xs)) same
        (expired_ids-IsThere w.now w.auctions m.auctions_ready.keyed) in
    let shut =
      All-unmap (λ id. IsShut (slot_of id) w'.auctions) auction_key _
        (timer_close_all-IsShut ids m there) in
    let slot =
      slot_of-read auction_key w.auctions i {v = a} m.auctions_ready.keyed (rw same found) in
    let collected : collect (is_expired w.now) 64 all ≡ filter (is_expired w.now) all =
      collect-eq-take (is_expired w.now) 64 all ∙ take_all 64 _ few in
    let mine =
      All-filter_get (λ b. IsShut (slot_of b.auction_id) w'.auctions) (is_expired w.now) all i
        (subst (All (λ b. IsShut (slot_of b.auction_id) w'.auctions)) collected shut) found
        expired in
    subst (λ c. IsShut i (timer_round c w).auctions) (sym contents)
      (subst (λ j. IsShut j w'.auctions) slot mine)
