-- ===== src/Settlement/Ids.antt =====
-- internal/settlement/app/command/deterministic_ids.go: the identities that the saga derives. The
-- UUID library is a parameter.
use molot.Base.{ℕ, ◌≡◌, ◌≢◌, sym, ap, ◌∙◌, [], ◌∷◌, ◌++◌, arith, Result, ok, err, panic}
use molot.Text.{Text, itoa, decimal, itoa-decimal}
use molot.Uuid.{Uuid, nil}
use molot.Settlement.Errors.{Error}
use molot.Settlement.Closing.{AuctionId, InvoiceId, new_auction_id, new_invoice_id}

-- What the saga uses of github.com/google/uuid: `String`, and `NewSHA1`, which sets the version bits
-- of its result and so never yields `uuid.Nil`.
pub record UuidLib : Type 0 where
  pub to_string : Uuid → Text
  pub new_sha1 : Uuid → Text → Uuid
  pub new_sha1_set : (ns : Uuid) (s : Text) → new_sha1 ns s ≢ nil

abbrev pub ns_invoice : Uuid
ns_invoice = 0x0e2f47a15b3c4a8d9e6f1c7b2d4a8e90

abbrev pub ns_relist : Uuid
ns_relist = 0x7c1d9b302e4f4c6a8b5d9f0a3e6c1d72

-- An error of the constructor is a panic here.
abbrev must {ℓ} : {A : Type ℓ} → Result Error A → Result Error A
must (ok a) = ok a
must (err e) = panic
must panic = panic

cons_inj : {x y : ℕ} {s t : Text} → x ∷ s ≡ y ∷ t → s ≡ t
cons_inj e = ground (arith, e)

append_cancel : (s : Text) {t u : Text} → s ++ t ≡ s ++ u → t ≡ u
append_cancel [] e = e
append_cancel (x ∷ s) {t} {u} e = append_cancel s (cons_inj e)

module _ (lib : UuidLib) where
  open lib use {to_string, new_sha1, new_sha1_set}

  -- The name that `InvoiceIDForAttempt` hashes.
  unfoldable pub invoice_name : AuctionId → ℕ → Text
  invoice_name auction_id attempt = to_string auction_id ++ b':' ∷ itoa attempt

  -- `InvoiceIDForAttempt`
  unfoldable pub invoice_id_for_attempt : AuctionId → ℕ → Result Error InvoiceId
  unfolding invoice_name
  invoice_id_for_attempt auction_id attempt =
      must (new_invoice_id (new_sha1 ns_invoice (invoice_name auction_id attempt)))

  -- `RelistIDFor`
  unfoldable pub relist_id_for : AuctionId → Result Error AuctionId
  relist_id_for original_id = must (new_auction_id (new_sha1 ns_relist (to_string original_id)))

  -- The names from which InvoiceIDForAttempt derives the invoices of one auction are different for
  -- different attempts: the attempt is read back from the decimal digits.
  pub invoice_name_inj : (a : AuctionId) (m n : ℕ) → invoice_name a m ≡ invoice_name a n → m ≡ n
  unfolding invoice_name
  invoice_name_inj a m n e =
      let digits : itoa m ≡ itoa n = cons_inj (append_cancel (to_string a) e) in
      sym (itoa-decimal m) ∙ ap decimal digits ∙ itoa-decimal n

  pub invoice_id_for_attempt_lem :
      (a : AuctionId) (n : ℕ) → (i : InvoiceId) × (invoice_id_for_attempt a n ≡ ok i) × (i ≢ nil)
  unfolding invoice_id_for_attempt new_invoice_id
  invoice_id_for_attempt_lem a n =
      let s = invoice_name a n in
      let set = new_sha1_set ns_invoice s in (new_sha1 ns_invoice s, ground (arith, set), set)

  pub relist_id_for_lem : (a : AuctionId) → (i : AuctionId) × (relist_id_for a ≡ ok i) × (i ≢ nil)
  unfolding relist_id_for new_auction_id
  relist_id_for_lem a =
      let s = to_string a in
      let set = new_sha1_set ns_relist s in (new_sha1 ns_relist s, ground (arith, set), set)
