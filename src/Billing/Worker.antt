-- ===== src/Billing/Worker.antt =====
-- internal/billing/ports/worker.go: the worker that expires the invoices that are overdue. Its spans,
-- metrics and logs are left out; `Run` calls `tick` at intervals until it is told to stop.
use molot.Base.{ℕ, List, [], ◌∷◌}
use molot.Time.{Time}
use molot.Billing.Values.{InvoiceId}
use molot.Billing.Repository.{Invoices, pending_due_before}
use molot.Billing.Commands.{expire_invoice}

-- `expiryBatchLimit`
abbrev pub expiry_batch_limit : ℕ
expiry_batch_limit = 100

-- The loop of `tick`, which goes on after an error; `clock` is the time at which an invoice is handled.
unfoldable pub expire_all : (InvoiceId → Time) → List InvoiceId → Invoices → Invoices
expire_all clock [] m = m
expire_all clock (id ∷ ids) m = expire_all clock ids (expire_invoice id (clock id) m).1

unfoldable pub tick :
    (List (InvoiceId × Time) → List (InvoiceId × Time))
    → Time
    → (InvoiceId → Time)
    → Invoices
    → Invoices
unfolding expire_all pending_due_before
tick arrange now clock m = expire_all clock (pending_due_before arrange now expiry_batch_limit m) m
