-- ===== src/System/History.antt =====
-- What becomes of the records of a data file: how auctions.dat and disputes.dat may change in the long
-- run.
use online_auction_system.Base.{
  ℕ, ◌≡◌, ◌∙◌, refl, ap, sym, subst, some, true, false, arith, Bool-cases, inl, inr, ◌⊎◌, ◌==◌,
  length, get_elem?-lt, [], ◌∷◌, ◌++◌,
}
use online_auction_system.Base.Money.{◌≤ℤ◌, ◌<ℤ◌}
use online_auction_system.Models.{Amount, Auction, AuctionStatus, Dispute}
use online_auction_system.Store.{File, records, read_at, replaced}
use online_auction_system.Store.Laws.{read_at-replaced, read_at-append, read_at-get}
use online_auction_system.BidHandler.{is_open}
use online_auction_system.Dispute.{is_pending}

-- Every record of `f` is still there in `f'`, as one that may follow it.
pub record Evolves {A : Type 0} (R : A → A → Type 0) (f f' : File A) : Type 0 where
  pub later : (i : ℕ) (a : A) → read_at f i ≡ some a → (a' : A) × (read_at f' i ≡ some a') × R a a'

module _ {A : Type 0} {R : A → A → Type 0} where
  pub Evolves-trans :
      ((a b c : A) → R a b → R b c → R a c)
      → {f g h : File A} → Evolves R f g
      → Evolves R g h
      → Evolves R f h
  Evolves-trans join p q = record {
    later = λ i a found.
        let (b, there, r) = p.later i a found in
        let (c, there', r') = q.later i b there in (c, there', join a b c r r');
  }

  module _ (same : (a : A) → R a a) where
    pub Evolves-same : {f f' : File A} → f' ≡ f → Evolves R f f'
    Evolves-same e = record { later = λ i a found. (a, rw e found, same a) }

    pub Evolves-replaced :
        (f : File A) (s : ℕ) (v : A) {old : A}
        → read_at f s ≡ some old
        → R old v
        → Evolves R f (replaced f s v)
    Evolves-replaced f s v {old} found r = record { later = go }
      where
        go :
            (i : ℕ) (a : A)
            → read_at f i ≡ some a
            → (a' : A) × (read_at (replaced f s v) i ≡ some a') × R a a'
        go i a there = elim (Bool-cases (i == s)) [
          | inr other ↦ (a, read_at-replaced f s i v found ∙ rw other there, same a)
          | inl here ↦
              let at : i ≡ s = ground arith in
              let q : some a ≡ some old =
                sym there ∙ subst (λ j. read_at f j ≡ some old) (sym at) found in
              let e : old ≡ a = cc in
              (v, read_at-replaced f s i v found ∙ rw here refl, subst (λ x. R x v) e r)
        ]

    pub Evolves-append :
        (f : File A) (v : A) → Evolves R f (record f { contents = some (records f ++ (v ∷ [])) })
    Evolves-append f v = record {
      later = λ i a there.
          let inside = get_elem?-lt (records f) i (read_at-get f i there) in
          let other : (i == length (records f)) ≡ false = ground arith in
          (a, read_at-append (λ x. 0) v f v i ∙ rw other there, same a);
    }

-- The outcome of an auction: it is over, with the same winner and price.
pub record Settled (a a' : Auction) : Type 0 where
  pub over : is_open a'.status ≡ false
  pub same_bidder : a'.highest_bidder_id ≡ a.highest_bidder_id
  pub same_price : a'.current_bid ≡ a.current_bid

-- `a'` may be what has become of the auction `a`: its terms are the same, its price has not fallen, and
-- if it was over, its outcome is the same.
pub record Follows (a a' : Auction) : Type 0 where
  pub same_id : a'.auction_id ≡ a.auction_id
  pub same_seller : a'.seller_id ≡ a.seller_id
  pub same_start_price : a'.start_price ≡ a.start_price
  pub same_reserve : a'.reserve_price ≡ a.reserve_price
  pub same_end : a'.end_time ≡ a.end_time
  pub price_rises : a.current_bid ≤ℤ a'.current_bid
  pub outcome : (is_open a.status ≡ true) ⊎ Settled a a'

-- The same for disputes: who complains of what stays, and a ruling is final.
pub record FollowsDispute (d d' : Dispute) : Type 0 where
  pub same_id : d'.dispute_id ≡ d.dispute_id
  pub same_auction : d'.auction_id ≡ d.auction_id
  pub same_complainer : d'.raised_by_user_id ≡ d.raised_by_user_id
  pub same_reason : d'.reason ≡ d.reason
  pub ruling : (is_pending d.status ≡ true) ⊎ (d' ≡ d)

pub Follows-refl : (a : Auction) → Follows a a
Follows-refl a = record {
  same_id = refl;
  same_seller = refl;
  same_start_price = refl;
  same_reserve = refl;
  same_end = refl;
  price_rises = omega arith;
  outcome = elim (Bool-cases (is_open a.status)) [
    | inl opened ↦ inl opened
    | inr shut ↦ inr (record { over = shut; same_bidder = refl; same_price = refl })
  ];
}

Settled-then : (a b c : Auction) → Settled a b → Follows b c → Settled a c
Settled-then a b c s f = elim f.outcome [
  | inl opened ↦ absurd (ground (arith, s.over))
  | inr t ↦ record {
    over = t.over;
    same_bidder = t.same_bidder ∙ s.same_bidder;
    same_price = t.same_price ∙ s.same_price;
  }
]

pub Follows-trans : (a b c : Auction) → Follows a b → Follows b c → Follows a c
Follows-trans a b c p q = record {
  same_id = q.same_id ∙ p.same_id;
  same_seller = q.same_seller ∙ p.same_seller;
  same_start_price = q.same_start_price ∙ p.same_start_price;
  same_reserve = q.same_reserve ∙ p.same_reserve;
  same_end = q.same_end ∙ p.same_end;
  price_rises = omega (arith, p.price_rises, q.price_rises);
  outcome = elim p.outcome [
    | inl opened ↦ inl opened
    | inr settled ↦ inr (Settled-then a b c settled q)
  ];
}

-- A higher bid on an open auction.
pub bid-Follows :
    (a : Auction) (amount : Amount) (bidder_id count : ℕ)
    → is_open a.status ≡ true
    → a.current_bid <ℤ amount
    → Follows a
        (record a { current_bid = amount; highest_bidder_id = bidder_id; bid_count = count })
bid-Follows a amount bidder_id count opened beats = record {
  same_id = refl;
  same_seller = refl;
  same_start_price = refl;
  same_reserve = refl;
  same_end = refl;
  price_rises = omega (arith, beats);
  outcome = inl opened;
}

-- Another status, where the auction was open or does not open.
pub status-Follows :
    (a : Auction) (status : AuctionStatus)
    → (is_open a.status ≡ true) ⊎ (is_open status ≡ false)
    → Follows a (record a { status = status })
status-Follows a status h = record {
  same_id = refl;
  same_seller = refl;
  same_start_price = refl;
  same_reserve = refl;
  same_end = refl;
  price_rises = omega arith;
  outcome = elim h [
    | inl opened ↦ inl opened
    | inr shut ↦ inr (record { over = shut; same_bidder = refl; same_price = refl })
  ];
}

pub FollowsDispute-refl : (d : Dispute) → FollowsDispute d d
FollowsDispute-refl d = record {
  same_id = refl;
  same_auction = refl;
  same_complainer = refl;
  same_reason = refl;
  ruling = inr refl;
}

pub FollowsDispute-trans :
    (a b c : Dispute) → FollowsDispute a b → FollowsDispute b c → FollowsDispute a c
FollowsDispute-trans a b c p q = record {
  same_id = q.same_id ∙ p.same_id;
  same_auction = q.same_auction ∙ p.same_auction;
  same_complainer = q.same_complainer ∙ p.same_complainer;
  same_reason = q.same_reason ∙ p.same_reason;
  ruling = elim p.ruling [
    | inl pending ↦ inl pending
    | inr same ↦ elim q.ruling [
      | inl pending ↦ inl (ap (λ d. is_pending d.status) (sym same) ∙ pending)
      | inr same' ↦ inr (same' ∙ same)
    ]
  ];
}
