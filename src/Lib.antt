-- ===== src/Lib.antt =====
-- CulturaGO Stellar: a verification of the server's core, from the domain rules to the chain
-- pipeline. The repository is a Next.js application that issues verifiable cultural credentials and
-- anchors them on the Stellar network.
--
-- The program's parts. The domain layer (src/domain) has pure rules on records: entities with
-- immutable versions, participations, credentials, the passport, relationships, and the phases of a
-- chain operation. The use cases (src/application/use-cases) read a record through the persistence
-- port (src/ports/DatabaseGateway.ts), apply a rule, and save the result. The chain pipeline
-- (src/infrastructure/stellar) binds a command to one stored operation, prepares an unsigned
-- transaction, takes the signed one back, submits it, and confirms it by polling and by reading the
-- contract back; an outbox worker claims stored operations and drives them on. The identity services
-- (src/infrastructure/auth) keep accounts, single-use codes and sessions, and resolve the actor of a
-- request. The perimeter (src/infrastructure/perimeter) limits the requests of a client.
--
-- Which file models what:
--   Base and its children: names that all share; Base.Errors is src/domain/errors.ts; Base.Maps is
--     JavaScript's Map with text keys, in insertion order; Base.Values is a parsed JSON value; Base.Patterns
--     has the regular expressions of the source as lists of character classes.
--   Domain.Operations: src/domain/operations/operationState.ts. Domain.Catalog:
--     src/domain/credentials/catalog.ts. Domain.Participation:
--     src/domain/participation/participation.ts. Domain.Entities: src/domain/entities/entity.ts.
--     Domain.Credentials: src/domain/credentials/credential.ts. Domain.CredentialsV2:
--     src/domain/credentials/v2.ts. Domain.Relationships: src/domain/participation/relationships.ts.
--     Domain.Passport: src/domain/passport/passport.ts.
--   UseCases.Database: the persistence port as an interface, with the contract that its adapters keep
--     (tests/contracts/databaseGateway.contract.ts) as a record of laws. UseCases.Participation,
--     UseCases.Entity and UseCases.Credential: src/application/use-cases. UseCases.Memory: the
--     in-memory gateway of tests/fixtures, proved to keep the contract. UseCases.Laws: theorems over
--     any lawful database.
--   Stellar.Operation: the stored record of an operation (src/ports/OperationStore.ts and
--     src/ports/StellarGateway.ts). Stellar.Store: src/infrastructure/stellar/InMemoryOperationStore.ts.
--     Stellar.Transport: src/ports/SorobanTransport.ts, and the actions over a world that has the
--     store and the chain. Stellar.Commands, Stellar.Readback, Stellar.SmartWallet and
--     Stellar.Gateway: src/infrastructure/stellar/SorobanStellarGateway.ts. Stellar.Worker: one batch of
--     src/infrastructure/stellar/StellarWorker.ts. Stellar.Chain:
--     src/infrastructure/stellar/InMemoryChainTransport.ts, an instance of the transport port.
--     Stellar.Indexer: InMemoryIndexer.ts, and Stellar.TtlQueue: InMemoryTtlQueue.ts, beside it.
--     Stellar.Admin: AdminStellarService.ts and LocalSigner.ts, the server's own calls of the contracts.
--   Auth.Identity: src/infrastructure/auth/InMemoryIdentityStore.ts. Auth.Sessions: SessionService.ts,
--     Auth.Claims: ClaimService.ts, and Auth.Actor: actorContext.ts and resolveActor.ts, beside it.
--   Perimeter.Rate: the limits on requests, src/infrastructure/perimeter/InMemoryRateBudgetStore.ts
--     and the limits of perimeter.ts beside it. Perimeter.Body: the validation of request bodies, and
--     Perimeter.Origin: the check of a request's origin, in the same file. Config.Env:
--     src/infrastructure/config/env.ts.
--   Hashing: the canonical form of JSON values and the digests, src/infrastructure/hashing
--     (canonicalize.ts, canonicalHash.ts).
--   Routes: the handler of src/app/api/sign/submit/route.ts over the parts above, with Routes.Actor
--     (src/infrastructure/auth/getActorFromSession.ts) and Routes.Server, the state that a handler works
--     on; Routes.Deploy: the handler of src/app/api/smart-wallet/deploy/route.ts. Stellar.Network and
--     Stellar.Allowlist: networkConfig.ts and SmartWalletAllowlist.ts of src/infrastructure/stellar.
-- Functions and fields have the source's names, with words joined by an underscore. The Tests modules
-- hold concrete inputs.
--
-- Conventions. An async function is a function of the state that it may change; it returns that state
-- with a result, and a throw is an err with the code of the domain error (in the pipeline, with what
-- was thrown). The messages of domain errors, texts for people, are left out, and the pipeline takes
-- them as a parameter where it stores one. Calls of the clock, of random identifiers and of the host's
-- collation are arguments. One step of the pipeline reads the clock once. Times are milliseconds in
-- the pipeline and texts in the domain. Numbers are natural numbers: versions, schemas, ledgers and
-- counters are never negative, and far below 2^53. A record that is read from a store is a copy, as
-- the PostgreSQL adapters give it; the in-memory stores share their objects with the callers, which
-- the model leaves out.
--
-- Bounds. The search of createsCycle is a while loop; it runs on fuel of the number of edges and two,
-- since a round takes an entry of the stack and an edge is pushed at most once, and the theorem on it
-- includes that the fuel suffices. waitForSuccess polls at most 15 times, as the source does. All else
-- is structural recursion.
--
-- Parameters. The persistence port, the transport port, the hash port of the use cases, SHA-256, the signer,
-- the SDK's decoding and signing of XDR (Stellar.Gateway.Prepare.Host, Routes.Deploy.Deployment), JSON.parse,
-- new URL, encodeURIComponent and the collation stand for code outside the repository or behind an interface;
-- what a theorem needs of them is a hypothesis or a law that it names.
--
-- Not modelled: the user interface, the server actions and the other route handlers (src/app,
-- src/components, src/lib); the PostgreSQL adapters, whose behaviour is that of the database; the
-- verification of passkeys; the SDK transport; logging and metrics; the generated contract bindings; the Rust
-- contracts and the scripts.
pub mod Base
pub mod Domain
pub mod UseCases
pub mod Stellar
pub mod Auth
pub mod Perimeter
pub mod Routes
pub mod Config
pub mod Hashing
