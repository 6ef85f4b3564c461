-- ===== src/Auction/Relisting.antt =====
-- The relisting of a failed sale, repeated, and what it leaves alone
-- (internal/auction/app/command/relist_auction.go).
use molot.Base.{
  subst, not, ◌&&◌, ◌≡◌, ◌≢◌, ◌<◌, ◌⊎◌, sym, ap, ◌∙◌, inl, inr, true, false, arith, none, some, ok,
  err, Result-cases, Option-cases, Bool-cases, ◌==◌,
}
use molot.Store
use molot.Table
use molot.Table.{answer}
use molot.Time.{Time}
use molot.Uuid.{is_nil}
use molot.Auction.Errors.{Error, not_found, already_relisted}
use molot.Auction.Ids.{AuctionId}
use molot.Auction.Schedule
use molot.Auction.Schedule.{BiddingWindow}
use molot.Auction.Status.{FailureReason}
use molot.Auction.Aggregate
use molot.Auction.Aggregate.{Auction, relisted_from, pull_domain_events}
use molot.Auction.Repository
use molot.Auction.Repository.{Auctions, cloned, is_relisted}
use molot.Auction.Commands
use molot.Auction.Commands.{map_relist_error, map_fail_error}
use molot.Auction.Idempotence.{fail_settles}

-- What a relisting has, whichever window it is given.
relisted_fields :
    (orig : Auction) (new_id : AuctionId) (w : BiddingWindow) (now : Time) {a : Auction}
    → relisted_from orig new_id w now ≡ ok a
    → (a.id ≡ new_id) × (a.relist_of ≡ orig.id)
unfolding relisted_from
relisted_fields orig new_id w now h = ground arith

relisted_later :
    (orig : Auction) (new_id : AuctionId) (w w' : BiddingWindow) (now later : Time) {a : Auction}
    → relisted_from orig new_id w now ≡ ok a
    → Schedule.is_zero w' ≡ false
    → later < w'.ends_at
    → (b : Auction) × (relisted_from orig new_id w' later ≡ ok b)
unfolding relisted_from
relisted_later orig new_id w w' now later h z l =
    elim (Result-cases (relisted_from orig new_id w' later)) [
      | inl made ↦ made
      | inr failed ↦ absurd (ground arith)
    ]

relisted_err :
    (orig : Auction) (new_id : AuctionId) (w : BiddingWindow) (now : Time) (e : Error)
    → relisted_from orig new_id w now ≡ err e
    → map_relist_error e ≢ ok tt
unfolding relisted_from map_relist_error
relisted_err orig new_id w now e h = λ p. ground arith

-- The three outcomes of `Add`.
module _ (a : Auction) (m : Auctions) where
  add_there : {t : Auction} → Store.lookup a.id m ≡ some t → Repository.add a m ≡ (ok tt, m)
  unfolding Repository.add
  add_there h = ground (arith, h)

  add_taken :
      Store.lookup a.id m ≡ none
      → is_relisted a m ≡ true
      → Repository.add a m ≡ (err already_relisted, m)
  unfolding Repository.add
  add_taken h r = ground (arith, h, r)

  add_new :
      Store.lookup a.id m ≡ none
      → is_relisted a m ≡ false
      → Repository.add a m ≡ (ok tt, Store.insert a.id (pull_domain_events a) m)
  unfolding Repository.add
  add_new h r = ground (arith, h, r)

taken_by :
    (b a : Auction) (m : Auctions)
    → b.relist_of ≡ a.relist_of
    → is_relisted a m ≡ true
    → is_relisted b m ≡ true
unfolding is_relisted
taken_by b a m e h = ap (λ k. not (is_nil k) && Store.any_value (λ x. x.relist_of == k) m) e ∙ h

-- What a relisting that succeeded did.
data Relisted (original_id new_id : AuctionId) (w : BiddingWindow) (now : Time) (m m' : Auctions)
    : Type 0 where
  repeated :
      (orig a : Auction)
      → Repository.get original_id m ≡ ok orig
      → relisted_from orig new_id w now ≡ ok a
      → (((t : Auction) × (Store.lookup new_id m ≡ some t))
          ⊎ ((Store.lookup new_id m ≡ none) × (is_relisted a m ≡ true)))
      → m' ≡ m
      → Relisted original_id new_id w now m m'
  stored :
      (orig a : Auction)
      → Repository.get original_id m ≡ ok orig
      → relisted_from orig new_id w now ≡ ok a
      → Store.lookup new_id m ≡ none
      → m' ≡ Store.insert new_id (pull_domain_events a) m
      → Relisted original_id new_id w now m m'

relist_cases :
    (original_id new_id : AuctionId) (w : BiddingWindow) (now : Time) (m : Auctions) {m' : Auctions}
    → Commands.relist_auction original_id new_id w now m ≡ (ok tt, m')
    → Relisted original_id new_id w now m m'
unfolding Commands.relist_auction
relist_cases original_id new_id w now m {m'} h =
    elim (Result-cases (Repository.get original_id m)) [
      | inl (orig, found) ↦ elim (Result-cases (relisted_from orig new_id w now)) [
        | inl (a, made) ↦
            let same_id = (relisted_fields orig new_id w now made).0 in
            elim (Option-cases (Store.lookup new_id m)) [
              | inr (t, there) ↦
                  let e = add_there a m {t = t} (ap (λ k. Store.lookup k m) same_id ∙ there) in
                  repeated orig a found made (inl (t, there)) (ground (arith, found, made, e))
              | inl absent ↦
                  let at : Store.lookup a.id m ≡ none =
                    ap (λ k. Store.lookup k m) same_id ∙ absent in
                  elim (Bool-cases (is_relisted a m)) [
                    | inl taken ↦
                        let e = add_taken a m at taken in
                        repeated orig a found made (inr (absent, taken))
                          (ground (arith, found, made, e))
                    | inr free ↦
                        let e = add_new a m at free in
                        let placed : m' ≡ Store.insert a.id (pull_domain_events a) m =
                          ground (arith, found, made, e) in
                        stored orig a found made absent
                          (placed ∙ ap (λ k. Store.insert k (pull_domain_events a) m) same_id)
                  ]
            ]
        | inr (inl (e, failed)) ↦
            absurd (relisted_err orig new_id w now e failed (ground (arith, found, failed)))
        | inr (inr panics) ↦ absurd (ground (arith, found, panics))
      ]
      | inr missing ↦ absurd (ground (arith, missing))
    ]

-- An identity that a relisting stored leaves the other auctions alone.
get_kept :
    (id new_id : AuctionId) (a : Auction) (m : Auctions) {orig : Auction}
    → Repository.get id m ≡ ok orig
    → Store.lookup new_id m ≡ none
    → Repository.get id (Store.insert new_id a m) ≡ ok orig
unfolding Repository.get
get_kept id new_id a m found absent =
    let apart : id ≢ new_id = λ e. ground (arith, found, absent, ap (λ k. Store.lookup k m) e) in
    ground (arith, found, Store.lookup-insert_ne new_id id a m apart)

-- What is done is not done again.
relist_settled :
    (original_id new_id : AuctionId) (w w' : BiddingWindow) (now later : Time) (m : Auctions)
    {orig a : Auction}
    → Schedule.is_zero w' ≡ false
    → later < w'.ends_at
    → Repository.get original_id m ≡ ok orig
    → relisted_from orig new_id w now ≡ ok a
    → (((t : Auction) × (Store.lookup new_id m ≡ some t))
        ⊎ ((Store.lookup new_id m ≡ none) × (is_relisted a m ≡ true)))
    → Commands.relist_auction original_id new_id w' later m ≡ (ok tt, m)
unfolding Commands.relist_auction
relist_settled original_id new_id w w' now later m {orig} {a} z l found made there =
    let (b, made') = relisted_later orig new_id w w' now later made z l in
    let (id_b, of_b) = relisted_fields orig new_id w' later made' in
    let of_a = (relisted_fields orig new_id w now made).1 in
    elim there [
      | inl (t, at) ↦
          let e = add_there b m {t = t} (ap (λ k. Store.lookup k m) id_b ∙ at) in
          ground (arith, found, made', e)
      | inr (absent, taken) ↦
          let e =
            add_taken b m (ap (λ k. Store.lookup k m) id_b ∙ absent)
              (taken_by b a m (of_b ∙ sym of_a) taken) in
          ground (arith, found, made', e)
    ]

-- A relisting again, with a later window.
pub relist_again :
    (original_id new_id : AuctionId) (w w' : BiddingWindow) (now later : Time) (m : Auctions)
    {m' : Auctions}
    → Schedule.is_zero w' ≡ false
    → later < w'.ends_at
    → Commands.relist_auction original_id new_id w now m ≡ (ok tt, m')
    → Commands.relist_auction original_id new_id w' later m' ≡ (ok tt, m')
relist_again original_id new_id w w' now later m {m'} z l h =
    elim (relist_cases original_id new_id w now m h) [
      | repeated orig a found made there same ↦
          let run : Commands.relist_auction original_id new_id w' later m ≡ (ok tt, m) =
            relist_settled original_id new_id w w' now later m z l found made there in
          subst (λ x. Commands.relist_auction original_id new_id w' later x ≡ (ok tt, x)) (sym same)
            run
      | stored orig a found made absent same ↦
          let placed : Auctions = Store.insert new_id (pull_domain_events a) m in
          let run : Commands.relist_auction original_id new_id w' later placed ≡ (ok tt, placed) =
            relist_settled original_id new_id w w' now later placed z l
              (get_kept original_id new_id (pull_domain_events a) m found absent) made
              (inl
                (pull_domain_events a, Store.lookup-insert_self new_id (pull_domain_events a) m)) in
          subst (λ x. Commands.relist_auction original_id new_id w' later x ≡ (ok tt, x)) (sym same)
            run
    ]

-- A relisting leaves an auction that was there as it is.
pub relist-get :
    (original_id new_id : AuctionId) (w : BiddingWindow) (now : Time) (m : Auctions) {m' : Auctions}
    (id : AuctionId) {t : Auction}
    → Commands.relist_auction original_id new_id w now m ≡ (ok tt, m')
    → Repository.get id m ≡ ok t
    → Repository.get id m' ≡ ok t
relist-get original_id new_id w now m id h there =
    elim (relist_cases original_id new_id w now m h) [
      | repeated orig a found made seen same ↦ ap (Repository.get id) same ∙ there
      | stored orig a found made absent same ↦
          ap (Repository.get id) same ∙ get_kept id new_id (pull_domain_events a) m there absent
    ]

-- A failure that was marked stays marked after a relisting.
pub fail_after_relist :
    (id new_id : AuctionId) (reason : FailureReason) (w : BiddingWindow) (now later last : Time)
    (l m : Auctions) {m' : Auctions}
    → Commands.mark_sale_failed id reason now l ≡ (ok tt, m)
    → Commands.relist_auction id new_id w later m ≡ (ok tt, m')
    → Commands.mark_sale_failed id reason last m' ≡ (ok tt, m')
unfolding Commands.mark_sale_failed Repository.update Table.get Repository.get
fail_after_relist id new_id reason w now later last l m {m'} failed relisted =
    let (s, e, there, said, fine) = fail_settles id reason now last l failed in
    let kept : Table.get not_found id m' ≡ ok s =
      relist-get id new_id w later m id relisted there in
    ap (answer map_fail_error) (
      Table.update_refused not_found cloned id (λ a. Aggregate.fail_sale a reason last) m' kept
        said)
    ∙ ap (λ x. (x, m')) fine
