-- ===== src/Lib.antt =====
-- molot is an auction platform in Go: a modular monolith of bounded contexts that call each other
-- through facades and integration events. This library models the contexts that carry its logic, and
-- states what makes them correct. Paths are from the repository's root.
--
-- The parts and how they interact
--   A seller lists a lot in the auction context; bidders outbid each other until the deadline, which
--   anti-sniping extends; a worker closes the auction. A sale is settled by the saga of the settlement
--   context: it reacts to the events of auction and billing, asks billing for an invoice, and, when the
--   payment fails, awards the lot to the runner-up, relists it or gives it up. Billing issues
--   invoices with a commission and lets each be paid through a payment provider, expired by a worker
--   or voided. The notification context turns the events of all contexts into mails.
--
-- Which file models which code
--   Int64, Time, Text, Uuid   Go's int64 and int, time.Time and time.Duration, strings, uuid.UUID.
--   Store                     a Go map keyed by a UUID, as the in-memory repositories hold it.
--   Table                     the read-modify-write that the in-memory repositories share, and what a
--                             command handler makes of its errors.
--   TextMap                   a Go map keyed by a string.
--   Slug                      internal/common/errs/errors.go, and the parsed arguments of the facades.
--   Common                    internal/common: Loader and Config the configuration, Auth the bearer
--                             tokens, Http server/httperr; Startup what the services make of a
--                             configuration, Fit and Currency its proofs.
--   Participant               internal/participant: Values and State the domain, Repository the
--                             in-memory adapter, Commands app/command, Http ports/http.go and the
--                             profile query, Integration the events of the context. Normal, Canonical,
--                             Sound, Registry, Uniqueness, Verified, Taken and Requests hold the proofs.
--   Auction                   internal/auction/domain/auction. Auction.Aggregate has the struct and the
--                             methods of auction.go (New is new, PlaceBid is place_bid and so on) in
--                             its children; the value objects have a module each. Invariant, Bidding,
--                             Acceptance, Lifecycle, History, Closing and Finality hold the proofs.
--                             Repository is auction_inmem_repository.go of internal/auction/adapters, Commands
--                             internal/auction/app/command, Facade internal/auction/service/facade.go,
--                             Worker internal/auction/ports/worker.go, and Integration
--                             internal/auction/events and events_mapper.go; Idempotence, Relisting and
--                             Overdue hold their proofs. Http is internal/auction/ports/http.go, with
--                             Requests and Placed, and Row the mapping of auction_pg_repository.go, with
--                             Columns and RowTrip.
--   Billing                   internal/billing/domain/invoice. Billing.Invoice has the aggregate,
--                             Money the amounts and the commission, Amounts and Guards the proofs.
--                             Repository and Psp are the in-memory repository and the fake provider of
--                             internal/billing/adapters, Commands and Pay internal/billing/app/command,
--                             Facade internal/billing/service/facade.go and Worker
--                             internal/billing/ports/worker.go. Payments has the calls as steps, which
--                             interleave; Http is internal/billing/ports/http.go, Integration
--                             internal/billing/events and events_mapper.go, and Row the mapping of
--                             invoice_pg_repository.go, with Views for what the queries show; Ledger,
--                             Final, Race, Paying, Retry, Overdue and Idempotence hold the proofs.
--   Settlement                internal/settlement/domain/settlement (Saga, State, Closing, Money,
--                             Relist), internal/settlement/app (Handlers, Action, Commits),
--                             internal/settlement/app/command (Ids, Decline), and the in-memory
--                             repository of internal/settlement/adapters (Repository). Ports and
--                             Subscriptions are internal/settlement/ports/events.go, Http is http.go
--                             beside it, and Row the mapping of settlement_pg_repository.go,
--                             with Views for what the query shows. Gateways is the
--                             interface to the other contexts, with their promise of idempotence, and
--                             Adapters (internal/settlement/adapters) what fills it; Idempotence,
--                             Diagram, Trace, Termination, Redelivery, Opening, Races, Payment, Received,
--                             Built, Contract, Heard and RowTrip hold the proofs.
--   Notification              internal/notification: Directory has the maps of its adapters, Deliver,
--                             Events and Handlers its ports; AtMostOnce and Redelivery the proofs.
--   Tests, under each context, Auction.RequestTests, Billing.PaymentTests and RowTests, and
--   Settlement.DeclineTests, OpeningTests, PlatformTests, ContractTests and RowTests run the code on
--   concrete data.
--
-- How the code is read
--   A method that mutates its receiver returns the new record; the source makes all checks before its
--   first write, so an error leaves the receiver alone. A function that returns a value and an error
--   returns a Result: ok, err, or panic where the source panics. A handler of the saga acts on a World:
--   the table of sagas and the state of the other contexts. It takes the time that the clocks show, and
--   what other handlers do to the world between the effect and the commit. Likewise PayInvoice takes
--   what others do between its calls of the provider and of the table. A handler of the auction and
--   billing contexts returns its error and the table that it leaves; each operation of a table is one
--   step, as the mutex of the adapter makes it. The order in which a loop meets the entries of a map is
--   a parameter, and so are the random part of a payment reference, the layout of dates in mails, and
--   whether the sender takes a mail.
--   An int64 is its bit pattern, a natural number below 2 ^ 64; sums and products wrap, and
--   comparisons are signed. An instant is its distance in nanoseconds from the zero Time. A string is
--   the list of its code points, with the byte length of UTF-8. A UUID is the number that its bytes
--   write, and a typed identity is its UUID; the library github.com/google/uuid is the parameters
--   UuidLib and UuidText. Further parameters are the lower case of a character and the parser of
--   addresses (Strings), the environment and the parsers of numbers and durations (Environment), the
--   library of JWT (Jwt), and time.Duration.Seconds (Clockwork); their laws are what the documentation
--   of those libraries says. The body of a request is parsed by generated code; an optional field is an
--   Option, and a caller is the user that the middleware put into the context, if it did. An error's
--   wrapped cause, which serves only logs, is left out.
--   The one fuel is that of strconv.Itoa, which gets one unit more than its argument and needs no more
--   units than the argument has digits.
--
-- What is not modelled
--   The statements in SQL of the Postgres repositories, and the projections; of these repositories the
--   mapping between aggregates and rows is modelled, and not what the types of the columns do to a value
--   (timestamptz, for one, keeps microseconds). The tracing, metrics and logging; the code that a
--   generator writes. The views that the queries of the auction context return, the outbox and the bus.
pub mod Base
pub mod Int64
pub mod Time
pub mod Text
pub mod TextMap
pub mod Uuid
pub mod Store
pub mod Slug
pub mod Common
pub mod Participant
pub mod Auction
pub mod Billing
pub mod Settlement
pub mod Notification
pub mod Table
