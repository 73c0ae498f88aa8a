-- ===== src/Lib.antt =====
-- Verification library of the KazakhExpress backend: microservices in Go for the payments,
-- orders, products, reviews, users and mails of a shop behind a gateway, over Postgres, Redis,
-- NATS, a payment provider and a mail carrier.
--
-- How the parts interact. The gateway limits the rate of requests and sends them to the services
-- over gRPC; each service has a gRPC server, and most have HTTP routes of their own, over one set
-- of methods. The order service stores orders with an audit trail of statuses, and reads the
-- messages of the payment service, which charges a provider under an idempotency key, refunds,
-- confirms and cancels, and sends events and, by the mail service, mails. The product service
-- keeps the stock, which is reserved and released. The review service keeps the ratings of
-- products in a cache, which it empties when a review changes. The user service registers users
-- and keeps their refresh tokens.
--
-- What models what (paths of the repository, and files of this library):
--   Effect        the calls of all services: a state, errors as values, outside systems that fail
--   Http          what a handler writes, a gRPC call that may be lost, and (Relayed) what the gateway
--                 makes of a service's answer; Paths has Go's functions on paths
--   Base          integers with Go's wrap-around, SQL tables as lists, sorting, decimal text
--   Payment       payment-service/internal: Model (payment/model.go), Repository
--                 (payment/repository.go, cache/redis.go, migrations), Service
--                 (payment/service.go, messaging/nats.go, email/grpc.go, provider/mock.go), Text (the
--                 texts of the constants), Http (http/handler.go), Grpc (grpcapi/server.go); Tails,
--                 Machine, Creation, Run, Idempotency, Ledger, Refunds, Outcomes, Settlement,
--                 Messages and Listing hold the proofs
--   Order         order-service/internal: Model (order/model.go), Repository (order/repository.go,
--                 cache/redis.go, migrations), Service (order/service.go), Text, Http
--                 (http/handler.go), Grpc (grpcapi/server.go), Consumer (messaging/nats.go);
--                 Http/Routes, Trace, History, Run,
--                 Totals and Outcomes hold the proofs
--   Product       product-service/internal: Model, Repository (the interface), Memory and Postgres
--                 (its two implementations in product/repository.go), Service (product/service.go),
--                 Http (http/handler.go), Grpc (grpcapi/server.go); Store states what the service
--                 relies on of a repository, which both fulfil, Inventory an abstract inventory that
--                 the service implements; Stock, Sales, Races and Page hold further proofs
--   Review        review-service/internal: Model (review/model.go), Repository
--                 (review/repository.go, cache/redis.go, migrations), Service (review/service.go,
--                 messaging/nats.go), Grpc (grpcapi/server.go); Rows, Changes, Freshness and
--                 Bounds hold the proofs
--   User          user-service/internal: Model (user/model.go), Repository
--                 (user/repository.go), Redis (redis/client.go), Service (user/service.go), Http
--                 (http/handler.go), Grpc (grpc/handler.go); Sessions, Runs,
--                 Lookups, Guesses, Profiles, Accounts and Http/Auth hold the proofs
--   Smtp          smtp-service/internal: Service (smtp/service.go), Grpc (grpcapi/server.go, and the
--                 calls of payment-service/internal/email/grpc.go); Carriers holds the proofs
--   Gateway       api-gateway/internal: Limiter (gateway/redis_limiter.go, and the middleware of
--                 gateway/router.go) with its proofs in Window, Router (gateway/router.go) with its
--                 proofs in Router/Shield; Payments, Orders, Products, Reviews
--                 and Users (client.go, routes.go and model.go of paymentservice, orderservice,
--                 productservice, reviewservice and userservice), each with its proofs in Relay;
--                 Payments/Retry
--   Startup       retry, which the entry points of three services share, with its proof
--   Checkout      the messages of the payment service, read by the order service; Settled has the proof
-- The Tests of each part apply its theorems to concrete inputs.
--
-- How the code is read. A method that takes a context and returns `(T, error)` is an `Action`: it
-- takes a `World` (the tables, caches and logs of a service, and a tick) to a result and a world.
-- An `Env` decides every outside call at its tick: the call has its effect, is refused with no
-- effect, or has its effect while the caller sees an error. It also gives the clock, in
-- nanoseconds, and the fresh identifiers. A theorem about any `Env` holds whatever fails.
-- Transactions roll back on an error; a commit may be refused or lose its answer. Statuses and
-- methods, which are strings in Go, are data types with a case for any other text. Values of `int`
-- and `int64` are integers that are wrapped to 64 bits after each operation; an INTEGER column
-- holds 32 bits. Entries of Redis have a time at which they expire, the newest entry first. The
-- constraints of the tables are those of the migrations. The tables of payments keep times in
-- microseconds, as their columns do; those of the other services keep them as they are given,
-- which is finer than their columns. A slice that is nil, which JSON writes as null, is told from
-- an empty one where a repository answers it.
--
-- The methods run one at a time, each from the world that the one before has left; Product.Races
-- puts the reads and writes of two of them in another order. Loops are recursions on lists, and
-- `retry` one on the rounds that are left; only the decimal text of a number n is on fuel, n + 1
-- rounds that each divide by ten. The call of a `go` statement is a task: it is started where the
-- statement stands, and is done at any later time between two methods, in any order. Parameters
-- stand for what is outside: the answer of the payment provider, the ILIKE test, the names that
-- the image storage answers, the precision of Redis's TTL, filepath.Base, bcrypt, SHA-256, JWT and
-- the random source.
--
-- A gRPC call from the gateway reaches the service and is answered, does not reach it, or loses
-- its answer. The messages of the API are generated from a repository of their own: they are the
-- fields that this code reads and writes, an enum may hold any other number, and an int32 keeps
-- the lowest 32 bits of an int. A request on gin's routes is its route, its parameter and its
-- decoded body; on net/http's it is a method and a path that the code takes apart. Further
-- parameters: the text of a time, the number that strconv.Atoi answers, what encoding/json reads
-- from a body, strings.TrimSpace, and the answers of Resend.
--
-- Not modelled: gin, net/http, gRPC and JSON themselves, the client of the image storage, the
-- adapters of the user service, which only forward, the request log of the gateway, and of the
-- entry points all but `retry`: they read the environment and open connections. Of the text of an
-- error, gRPC's own part is left out. A payment that `Confirm` answers beside an error of the
-- mail is dropped, since callers ignore a value that comes with an error. The average of a rating
-- is kept as a total and a count, without its rounding to a float64.
pub mod Base
pub mod Effect
pub mod Http
pub mod Payment
pub mod Order
pub mod Product
pub mod Review
pub mod Gateway
pub mod User
pub mod Smtp
pub mod Checkout
pub mod Startup
