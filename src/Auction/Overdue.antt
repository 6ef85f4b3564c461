-- ===== src/Auction/Overdue.antt =====
-- What a tick of the worker does to the auctions that are over (internal/auction/ports/worker.go).
use mathlib.Core.List.Memᴰ
use molot.Base.{
  ◌≡◌, ◌≢◌, ◌≤◌, ◌<◌, ◌+◌, inl, inr, refl, sym, ap, ◌∙◌, subst, ℕ, zero, suc, true, false, List, [],
  ◌∷◌, count, Memᴰ, arith, some, ok, Result-cases, Bool-cases, ◌==◌, if◌then◌else◌,
}
use molot.Int64
use molot.Store
use molot.Store.{IsIteration}
use molot.Table
use molot.Time.{Time}
use molot.Uuid.{is_nil}
use molot.Auction.Errors.{not_found}
use molot.Auction.Ids.{AuctionId}
use molot.Auction.Status.{listed, closed}
use molot.Auction.Schedule
use molot.Auction.Aggregate
use molot.Auction.Aggregate.{Auction, close_status, unmarshal_from_database}
use molot.Auction.Invariant.{IsValid}
use molot.Auction.Repository
use molot.Auction.Repository.{Auctions, cloned, is_over, due_loop, due_for_closing}
use molot.Auction.Commands.{close_auction, first}
use molot.Auction.Worker.{close_all, tick, closing_candidate_limit}

close_other :
    (k : AuctionId) (t : Time) (m : Auctions) (id : AuctionId)
    → id ≢ k
    → Store.lookup id (close_auction k t m).1 ≡ Store.lookup id m
unfolding close_auction Repository.update
close_other k t m id apart =
    Table.update-lookup_ne not_found cloned k (λ a. first (Aggregate.close a t)) m id apart

-- The next version of a closed auction is stored.
cloned_closed :
    (a b : Auction)
    → IsValid a
    → a.version + 1 < Int64.sign_bit
    → (b.id ≡ a.id) × (b.seller ≡ a.seller) × (b.window ≡ a.window) × (b.version ≡ a.version)
    → b.status ≡ closed
    → (c : Auction) × (cloned b ≡ ok c) × (c.status ≡ closed)
unfolding cloned unmarshal_from_database
cloned_closed a b valid room (same_id, same_seller, same_window, same_version) over =
    let l = valid.listing in
    let s = valid.scheduled in
    let next : Int64.add b.version 1 ≡ a.version + 1 =
      ap (λ v. Int64.add v 1) same_version ∙ Int64.add_eq a.version 1 (omega arith) in
    let fresh : Int64.lt (Int64.add b.version 1) 1 ≡ false =
      ap (λ v. Int64.lt v 1) next
      ∙ Int64.lt_nat (a.version + 1) 1 room (omega arith)
      ∙ ground arith in
    let id_set : is_nil b.id ≡ false = ground (arith, l.has_id, same_id) in
    let seller_set : is_nil b.seller ≡ false = ground (arith, l.has_seller, same_seller) in
    let window_set : Schedule.is_zero b.window ≡ false =
      ap Schedule.is_zero same_window ∙ ground (arith, s.starts_first) in
    elim (Result-cases (cloned b)) [
      | inl (c, made) ↦ (c, made, ground arith)
      | inr failed ↦ absurd (ground (arith, fresh, id_set, seller_set, window_set, over))
    ]

closed_lem :
    (a : Auction) (t : Time)
    → a.status ≡ listed
    → a.window.ends_at ≤ t
    → (b : Auction) × (first (Aggregate.close a t) ≡ ok b)
      × ((b.id ≡ a.id) × (b.seller ≡ a.seller) × (b.window ≡ a.window) × (b.version ≡ a.version))
      × (b.status ≡ closed)
unfolding Aggregate.close close_status
closed_lem a t open_auction due = elim (Result-cases (first (Aggregate.close a t))) [
  | inl (b, made) ↦
      (b, made, (ground arith, ground arith, ground arith, ground arith), ground arith)
  | inr failed ↦ absurd (ground arith)
]

module _ (id : AuctionId) (t : Time) (m : Auctions) (a : Auction)
    (there : Store.lookup id m ≡ some a) where
  close_due :
      IsValid a
      → a.version + 1 < Int64.sign_bit
      → a.status ≡ listed
      → a.window.ends_at ≤ t
      → (b : Auction) × (Store.lookup id (close_auction id t m).1 ≡ some b) × (b.status ≡ closed)
  unfolding close_auction Repository.update Table.update Table.store_updated
  close_due valid room open_auction due =
      let (b, made, same, over) = closed_lem a t open_auction due in
      let (c, kept, still) = cloned_closed a b valid room same over in
      (c, ground (arith, there, made, kept, Store.lookup-insert_self id c m), still)

  close_again : a.status ≡ closed → Store.lookup id (close_auction id t m).1 ≡ some a
  unfolding close_auction Repository.update Table.update Table.store_updated Aggregate.close
      close_status
  close_again over = ground (arith, there)

-- A closed auction stays so through the loop.
close_all_kept :
    (clock : AuctionId → Time) (ids : List AuctionId) (m : Auctions) (id : AuctionId) (a : Auction)
    → Store.lookup id m ≡ some a
    → a.status ≡ closed
    → Store.lookup id (close_all clock ids m) ≡ some a
unfolding close_all
close_all_kept clock [] m id a there over = there
close_all_kept clock (k ∷ ids) m id a there over =
    close_all_kept clock ids (close_auction k (clock k) m).1 id a
      (elim (Bool-cases (id == k)) [
        | inl same ↦
            let e : k ≡ id = ground arith in
            ap (λ x. Store.lookup id (close_auction x (clock x) m).1) e
            ∙ close_again id (clock id) m a there over
        | inr apart ↦ close_other k (clock k) m id (λ e. ground arith) ∙ there
      ])
      over

-- The loop closes what it handles.
close_all_done :
    (clock : AuctionId → Time) (ids : List AuctionId) (m : Auctions) (id : AuctionId) (a : Auction)
    → Memᴰ id ids
    → Store.lookup id m ≡ some a
    → IsValid a
    → a.version + 1 < Int64.sign_bit
    → a.status ≡ listed
    → a.window.ends_at ≤ clock id
    → (b : Auction) × (Store.lookup id (close_all clock ids m) ≡ some b) × (b.status ≡ closed)
unfolding close_all
close_all_done clock [] m id a among there valid room open_auction due = absurd (Memᴰ.not-nil among)
close_all_done clock (k ∷ ids) m id a among there valid room open_auction due =
    let next : Auctions = (close_auction k (clock k) m).1 in
    elim (Bool-cases (id == k)) [
      | inl same ↦
          let e : id ≡ k = ground arith in
          let (b, found, over) = close_due id (clock id) m a there valid room open_auction due in
          let at : Store.lookup id next ≡ some b =
            ap (λ x. Store.lookup id (close_auction x (clock x) m).1) (sym e) ∙ found in
          (b, close_all_kept clock ids next id b at over, over)
      | inr apart ↦ elim (Memᴰ.cases_cons among) [
        | inl here ↦ absurd (ground arith)
        | inr later ↦
            close_all_done clock ids next id a later
              (close_other k (clock k) m id (λ e. ground arith) ∙ there) valid room open_auction due
      ]
    ]

none_past_limit : (t : Time) (m : Auctions) → due_loop t zero m ≡ []
unfolding due_loop
none_past_limit t [] = refl
none_past_limit t (e ∷ m) = refl

-- An overdue auction is a candidate, where the limit is not reached.
due_among :
    (t : Time) (limit : ℕ) (m : Auctions) (id : AuctionId) (a : Auction)
    → count (λ e. is_over t e.1) m ≤ limit
    → Memᴰ (id, a) m
    → is_over t a ≡ true
    → Memᴰ id (due_loop t limit m)
unfolding due_loop
due_among t limit [] id a few among over = absurd (Memᴰ.not-nil among)
due_among t zero ((k, v) ∷ m) id a few among over = elim (Memᴰ.cases_cons among) [
  | inl here ↦
      let same : is_over t v ≡ true = ap (λ e. is_over t e.1) (sym here) ∙ over in
      absurd (ground arith)
  | inr later ↦ absurd (
      Memᴰ.not-nil
        (subst (Memᴰ id) (none_past_limit t m) (due_among t zero m id a (ground arith) later over)))
]
due_among t (suc limit) ((k, v) ∷ m) id a few among over = elim (Bool-cases (is_over t v)) [
  | inl this ↦ elim (Memᴰ.cases_cons among) [
    | inl here ↦
        subst (Memᴰ id)
          (sym (ap (λ b. if b then k ∷ due_loop t limit m else due_loop t (suc limit) m) this))
          (Memᴰ.head (ap (λ e. e.0) here))
    | inr later ↦
        subst (Memᴰ id)
          (sym (ap (λ b. if b then k ∷ due_loop t limit m else due_loop t (suc limit) m) this))
          (Memᴰ.tail (due_among t limit m id a (ground arith) later over))
  ]
  | inr other ↦ elim (Memᴰ.cases_cons among) [
    | inl here ↦
        let same : is_over t v ≡ true = ap (λ e. is_over t e.1) (sym here) ∙ over in
        absurd (ground arith)
    | inr later ↦
        subst (Memᴰ id)
          (sym (ap (λ b. if b then k ∷ due_loop t limit m else due_loop t (suc limit) m) other))
          (due_among t (suc limit) m id a (ground arith) later over)
  ]
]

-- A tick of the closing worker closes every listed auction that is over at the time of its scan,
-- where no other handler runs meanwhile, the auction satisfies the invariant and has room for a
-- further version, at most 100 auctions are over, the clock does not go back, and the scan meets
-- every entry of the map once.
pub tick_closes :
    (order : Auctions → Auctions) (now : Time) (clock : AuctionId → Time) (m : Auctions)
    (id : AuctionId) (a : Auction)
    → IsIteration order
    → count (λ e. is_over now e.1) m ≤ closing_candidate_limit
    → now ≤ clock id
    → Store.lookup id m ≡ some a
    → IsValid a
    → a.version + 1 < Int64.sign_bit
    → a.status ≡ listed
    → a.window.ends_at ≤ now
    → (b : Auction) × (Store.lookup id (tick order now clock m) ≡ some b) × (b.status ≡ closed)
unfolding tick due_for_closing
tick_closes order now clock m id a fair few later there valid room open_auction due =
    let over : is_over now a ≡ true = ground arith in
    let met = fair.keeps (id, a) m (Store.lookup-Memᴰ id m there) in
    let few_met : count (λ e. is_over now e.1) (order m) ≤ closing_candidate_limit =
      omega (arith, fair.keeps_count (λ e. is_over now e.1) m) in
    close_all_done clock (due_loop now closing_candidate_limit (order m)) m id a
      (due_among now closing_candidate_limit (order m) id a few_met met over) there valid room
      open_auction (omega arith)
