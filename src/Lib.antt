-- ===== src/Lib.antt =====
-- Three services that together take orders for spaceships. The order service answers HTTP requests; it
-- asks the inventory service for the parts of an order and the payment service for payments, both over
-- gRPC, and keeps the orders. This library models the three services, the storage of orders and parts,
-- and the generated HTTP layer in front of the order service.
--
-- Which module is about which code, by its path from the repository's root:
--   Errors          the sentinel errors of all packages, fmt.Errorf, errors.Is
--   External        google/uuid and grpc/status, as a record `Libs` of functions with laws `LibLaws`
--   Wire            shared/pkg/proto: the messages and the enums
--   Action          functions that change a state and return (value, error)
--   Order.Data, Order.Repository   order/pkg/repository: the order, the interface Repository with its
--                   contracts `IsStorage`, of a storage that keeps an order as it is, and
--                   `IsStorageOf`, of one that keeps less; the map and the PostgreSQL table;
--                   tx_manager.go; Store is the map up to the order of its entries
--   Order.Service   order/pkg/service/service.go: CreateOrder, GetOrder, PayOrder, CancelOrder are
--                   create_order, get_order, pay_order, cancel_order; its child modules hold the proofs,
--                   Trace those on sequences of operations
--   Order.Concurrent   the same file again, with requests that overlap: `advance` takes a request over
--                   its next call of the repository or of a client; Atomic, among its child modules,
--                   compares that with operations that run at once
--   Order.Main      order/cmd/main.go: what the process opens and closes, and how it ends
--   Order.Api       order/pkg/api/handler.go
--   Inventory       inventory/pkg: Repository with Memory and Postgres, Service, Api; Agreement
--                   compares the two repositories
--   Payment         payment/pkg: Service, Api, and which payments are accepted
--   System          the three services wired together as in order/tests/api_test.go
--   Http            shared/pkg/openapi/order/v1: Schemas, Router, Json (Json.Failures for the required
--                   fields, Json.Aliases for the named error types, Json.Marshal for MarshalJSON and
--                   UnmarshalJSON), Encoders, Server for the decoding of requests and the four
--                   generated handlers, Server.Dispatch for ServeHTTP as a whole, Server.Telemetry for
--                   the handlers with what they tell OpenTelemetry, Responses for the decoding of
--                   responses, Client for the calls of the generated client, Client.Calls for those
--                   that reach the server, Client.Telemetry for the calls with their telemetry, Config
--                   for the options, NewServer and NewClient
--   Examples        the theorems at concrete inputs
--
-- How the code is read. A service acts on a `World`: what is stored, and the calls sent to other
-- services, the newest first. What another service answers is any function of the request and of
-- the calls sent before, errors included. uuid.New and time.Now come as arguments. A time
-- is a number of nanoseconds, of which the column created_at keeps whole microseconds and JSON whole
-- seconds. A UUID is the
-- number that its 16 bytes make; uuid.Parse may refuse any text, and is only assumed to read what
-- String writes. A Go map is an association list. An int64 is an integer, and each sum is read
-- modulo 2 ^ 64 into its range. `none` stands for a nil pointer or a nil error. The order storage
-- may fail at any call; the contract says what a call that did not fail has done. The SQL
-- statements are read as their effect on the rows. In Order.Service an operation runs without
-- another in between; in Order.Concurrent any number of requests take turns, and a turn is one call
-- of the repository, of the inventory service or of the payment service, with what the request
-- computes behind it. Every function is structurally recursive, so nothing runs on fuel; the loop
-- over the missed bits runs as often as there are such bits, and a theorem says that this is
-- enough. The client is joined to the server by a transport that hands over what was sent; that
-- ogen and jx read what they wrote is a hypothesis on the values of the call.
--
-- Not modelled: the contexts and their cancellation, the algorithm of sort.Slice (an
-- argument, called with the comparison of ListParts), the middleware of the HTTP layer and how long its requests take, the texts of JSON
-- values (the jx library; an object is the list of its fields), the wire encoding of gRPC, the entry
-- points of the inventory and payment services, mocks and tests.
mod Prelude
pub mod Errors
pub mod External
pub mod Wire
pub mod Action
pub mod Order
pub mod Http
pub mod Inventory
pub mod Payment
pub mod System
mod Examples
