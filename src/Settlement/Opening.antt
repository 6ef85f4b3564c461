-- ===== src/Settlement/Opening.antt =====
-- Redeliveries of `AuctionClosedV1`, which opens the saga (internal/settlement/app/handlers.go).
use molot.Base.{
  ap, ◌∙◌, true, false, if◌then◌else◌, sym, ◌≡◌, ◌≢◌, ok, err, arith, inl, inr, Result-cases,
}
use molot.Time.{Time}
use molot.Settlement.Errors.{unexpected_transition}
use molot.Settlement.Repository
use molot.Settlement.Repository.{next_version}
use molot.Settlement.Saga.{start, decide_on_invoice_issue, invoice_issued, Settlement}
use molot.Settlement.Relist.{RelistPolicy}
use molot.Settlement.Ids.{UuidLib}
use molot.Settlement.Gateways.{Gateways, IsIdempotent}
use molot.Settlement.Action.{World, Action, pure, load, decided, ◌>>=◌}
use molot.Settlement.Closing.{
  Closing, sold, not_sold, new_outcome_from_string, AuctionId, InvoiceId,
}
use molot.Settlement.Handlers.{ClosedAuction, build_closing, on_auction_closed}
use molot.Settlement.Redelivery.{alone, effect_commit, effect_commit_ok}

-- The first invoice is issued once.
issued_once :
    (s : Settlement) (inv : InvoiceId) {t : Settlement}
    → invoice_issued s inv ≡ ok t
    → decide_on_invoice_issue (next_version t) ≡ err unexpected_transition
unfolding invoice_issued decide_on_invoice_issue
issued_once s inv h = ground arith

start_id : (c : Closing) {s : Settlement} → start c ≡ ok s → s.auction_id ≡ c.auction_id
unfolding start
start_id c h = ground arith

module _ {W : Type 0} (g : Gateways W) where
  -- `OnAuctionClosed` from the load of the saga on.
  abbrev continue_closed : AuctionId → Time → Action W (Unit {0})
  continue_closed id now = load id >>= λ current.
      decided (decide_on_invoice_issue current) λ need_issue.
        if need_issue
        then effect_commit
            (g.issue_invoice current.invoice_id current.auction_id current.winner current.hammer
              current.attempt now)
            id (λ s. invoice_issued s current.invoice_id)
        else pure tt

  -- What the handler does on a sale, for any world.
  closed_runs :
      (lib : UuidLib) (policy : RelistPolicy) (e : ClosedAuction) (now : Time) (u : World W)
      {c : Closing} {s : Settlement}
      → new_outcome_from_string e.outcome ≡ ok sold
      → build_closing lib e ≡ ok c
      → start c ≡ ok s
      → on_auction_closed g lib policy e now alone u
        ≡ continue_closed c.auction_id now (record u { sagas = Repository.add s u.sagas })
  unfolding on_auction_closed
  closed_runs lib policy e now u parsed built opened = rw (parsed, built, opened)

module _ {W : Type 0} (g : Gateways W) (lib : UuidLib) (policy : RelistPolicy)
    (idem : IsIdempotent g) where
  continue_again :
      (id : AuctionId) (now later : Time) (v : World W) {w : World W}
      → later ≢ 0
      → continue_closed g id now v ≡ (ok tt, w)
      → (continue_closed g id later w ≡ (ok tt, w))
        × ((t : Settlement) × (Repository.get id w.sagas ≡ ok t))
  unfolding decide_on_invoice_issue
  continue_again id now later v {w} clock h = elim (Result-cases (Repository.get id v.sagas)) [
    | inl (s, found) ↦ elim (Result-cases (decide_on_invoice_issue s)) [
      | inl (false, due) ↦ absurd (ground (arith, due))
      | inl (true, due) ↦
          elim (effect_commit_ok
            (g.issue_invoice s.invoice_id s.auction_id s.winner s.hammer s.attempt now) id
            (λ x. invoice_issued x s.invoice_id) v {w = w} (ground (arith, found, due))) [
              | inl (s', t, found', issued, there) ↦ (
                ground (arith, there, issued_once s' s.invoice_id issued),
                (next_version t, there),
              )
              | inr (s', found', refused, same) ↦
                  let x =
                    idem.issue_again s.invoice_id s.auction_id s.winner s.hammer s.attempt now later
                      v.far w.far clock in
                  let same_saga : s' ≡ s = ground (arith, found, found') in
                  let again : invoice_issued s s.invoice_id ≡ err unexpected_transition =
                    sym (ap (λ y. invoice_issued y s.invoice_id) same_saga) ∙ refused in
                  (
                    ground (
                      arith,
                      found,
                      due,
                      same,
                      x,
                      again,
                      Repository.update_refused id (λ y. invoice_issued y s.invoice_id) w.sagas
                          {s = s},
                    ),
                    (s, ground (arith, found, same)),
                  )
            ]
      | inr refused ↦ (ground (arith, found, refused), (s, ground (arith, found, refused)))
    ]
    | inr missing ↦ absurd (ground arith)
  ]

  -- Where no other handler runs meanwhile the gateways' calls are idempotent, and the later time is
  -- not the zero time: once OnAuctionClosed succeeded, the same event delivered again succeeds and
  -- changes nothing.
  pub auction_closed_again :
      (e : ClosedAuction) (now later : Time) (v : World W) {w : World W}
      → later ≢ 0
      → on_auction_closed g lib policy e now alone v ≡ (ok tt, w)
      → on_auction_closed g lib policy e later alone w ≡ (ok tt, w)
  unfolding on_auction_closed
  auction_closed_again e now later v {w} clock h =
      elim (Result-cases (new_outcome_from_string e.outcome)) [
        | inl (sold, parsed) ↦ elim (Result-cases (build_closing lib e)) [
          | inl (c, built) ↦ elim (Result-cases (start c)) [
            | inl (s, opened) ↦
                let first = sym (closed_runs g lib policy e now v parsed built opened) ∙ h in
                let (again, (t, there)) =
                  continue_again c.auction_id now later
                    (record v { sagas = Repository.add s v.sagas }) {w = w} clock first in
                let kept =
                  Repository.add_kept s w.sagas {t = t}
                    (ap (λ k. Repository.get k w.sagas) (start_id c opened) ∙ there) in
                closed_runs g lib policy e later w parsed built opened
                ∙ ap (λ m. continue_closed g c.auction_id later (record w { sagas = m })) kept
                ∙ again
            | inr failed ↦ ground (arith, parsed, built, failed)
          ]
          | inr failed ↦ ground (arith, parsed, failed)
        ]
        | inl (not_sold, parsed) ↦ ground (arith, parsed)
        | inr failed ↦ absurd (ground (arith, failed))
      ]
