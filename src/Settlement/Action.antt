-- ===== src/Settlement/Action.antt =====
-- What a handler of the saga does to the world: the table of sagas and the other contexts.
use molot.Base.{Result, ok, err, panic}
use molot.Settlement.Errors.{Error, unexpected_transition}
use molot.Settlement.Closing.{AuctionId}
use molot.Settlement.Saga.{Settlement}
use molot.Settlement.Gateways.{Call}
use molot.Settlement.Repository
use molot.Settlement.Repository.{Sagas}

pub record World (W : Type 0) : Type 0 where
  pub sagas : Sagas
  pub far : W

abbrev pub Action : Type 0 → Type 0 → Type 0
Action W A = World W → Result Error A × World W

module _ {W A : Type 0} where
  abbrev pub pure : A → Action W A
  pure a w = (ok a, w)

  abbrev pub lift : Result Error A → Action W A
  lift r w = (r, w)

-- `ackUnexpected`: a duplicate, or a lost race, is acknowledged.
abbrev pub ack_unexpected : Result Error (Unit {0}) → Result Error (Unit {0})
ack_unexpected (ok u) = ok u
ack_unexpected panic = panic
ack_unexpected (err unexpected_transition) = ok tt
ack_unexpected (err e) = err e

infixl 5 ◌>>=◌ ◌>>◌
abbrev pub ◌>>=◌ : {W A B : Type 0} → Action W A → (A → Action W B) → Action W B
◌>>=◌ m f w =
    let (r, w') = m w in elim r [ ok a ↦ f a w' | err e ↦ (err e, w') | panic ↦ (panic, w') ]

abbrev pub ◌>>◌ : {W B : Type 0} → Action W (Unit {0}) → Action W B → Action W B
m >> k = m >>= λ _. k

module _ {W : Type 0} where
  -- `repo.Get`
  abbrev pub load : AuctionId → Action W Settlement
  load id w = (Repository.get id w.sagas, w)

  -- `repo.Add`
  abbrev pub add_saga : Settlement → Action W (Unit {0})
  add_saga s w = (ok tt, record w { sagas = Repository.add s w.sagas })

  -- A call of a gateway, outside any transaction of the saga.
  abbrev pub call : Call W → Action W (Unit {0})
  call c w = let (r, v) = c w.far in (r, record w { far = v })

  -- What other handlers do between the effect and the commit.
  abbrev pub interrupt : (World W → World W) → Action W (Unit {0})
  interrupt f w = (ok tt, f w)

  -- `repo.Update`
  abbrev pub update : AuctionId → (Settlement → Result Error Settlement) → Action W (Unit {0})
  update id f w = let (r, m) = Repository.update id f w.sagas in (r, record w { sagas = m })

  -- `return ackUnexpected(err)`
  abbrev pub ack : Action W (Unit {0}) → Action W (Unit {0})
  ack m w = let (r, w') = m w in (ack_unexpected r, w')

  -- `x, err := decide(); if err != nil { return ackUnexpected(err) }`
  abbrev pub decided :
      {A : Type 0} → Result Error A → (A → Action W (Unit {0})) → Action W (Unit {0})
  decided (ok a) k w = k a w
  decided (err e) k w = (ack_unexpected (err e), w)
  decided panic k w = (panic, w)

  -- `if err := m(); err != nil { return f(err) }`
  abbrev pub on_error : (Error → Action W (Unit {0})) → Action W (Unit {0}) → Action W (Unit {0})
  on_error f m w =
      let (r, w') = m w in elim r [ ok u ↦ (ok tt, w') | err e ↦ f e w' | panic ↦ (panic, w') ]
