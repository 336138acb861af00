-- ===== src/Lib.antt =====
-- The UBIRCH COSE client: a web service that keeps a signing key for each of its identities, signs
-- the data or the hash of a request with the key of the identity in the request's path, and answers
-- with a COSE_Sign1 object. The program is the Go package main/.
--
-- How the parts work together. main/services.go answers a request: it looks up the identity, checks
-- the token, reads a payload and a hash from the body, has main/cose_signer.go make the COSE object,
-- and logs. The signer takes the key identifier (SKID) of the identity from main/protocol.go, which
-- caches identities and the UUIDs of public keys, and reloads the SKIDs from the certificate list
-- that main/extended_client.go gets from a server with a pinned certificate. Identities come from a
-- context manager (main/context_manager.go), which is a database. main/identity_handler.go makes,
-- stores and registers the key of a new identity. main/config.go loads the settings of all of them.
-- main/main.go puts the parts together, or runs main/migrator.go, which copies the identities of the
-- configuration, with the keys that main/file_manager.go has for them, into the database.
--
-- Which file models what. Names of definitions are those of the source in snake_case.
--   Prelude, Codec, Dict, Errors: Go's numbers, strings, `encoding/base64`, `encoding/hex`, `path`,
--     maps and errors. A string is its list of bytes. An error is one of the two sentinels or a
--     text.
--   Context: the interface of main/context_manager.go and the `Identity` of
--     main/identity_handler.go. A UUID is a number, and 0 is `uuid.Nil`.
--   Cose, Signer: main/cose_signer.go.
--   Libs: what the program calls and does not contain, as parameters: the ECDSA and encryption
--     modules, `net/http`, X.509, JSON, CBOR and SHA-256.
--   Client: main/extended_client.go. `Client/Pinning` has the proofs about pinned connections, and
--     `Client/SigningService` that about a URL that goes through `path.Join` (Codec/Paths).
--     `Client/Reached` says how a request of the list changes the world.
--   Protocol: main/protocol.go, with `isConnectionNotAvailable` of main/database.go. Its children
--     have the proofs: Retry (the loop over attempts), Identities, UidCache, Skids (the reload),
--     and Invariant (what holds of every protocol that a run comes to). Protocol/Steps has its
--     methods as goroutines run them, step by step. `Alone` relates them to the methods in one
--     piece, `Bounded` counts their steps, `Certified` and `Rely` say what an SKID store and the
--     caches are to hold, and `Kept` and `Loading` prove that every step keeps it.
--   Threads: goroutines over a shared state, for any program. `Safety` has the rules that each of
--     them relies on and guarantees, `Bounded` and `Turns` the number of steps, `Alone` the run
--     without others.
--   Http, Service: main/services.go. The children of Service have the proofs: Answers (which
--     requests are answered how), Hashes (how a body stands for a hash), Verifiable (what a client
--     can do with the answer), AuditTrail (what an answer leaves in the log), Caches. Service/Steps
--     has the handler as a goroutine, with the same children as Protocol/Steps; `Granted` says what
--     stands behind an answer 200.
--   IdentityHandler: main/identity_handler.go. Its children have the proofs: Created (what a success
--     has done, in order), Atomic (what a failure leaves) and Caches. `IdentityHandler/Steps` has
--     `initIdentity` as a goroutine, and its children the proofs: Alone (it is the sequential
--     definition where nothing runs beside it), Rely and Kept (what it relies on and keeps), Created
--     and Parallel (registrations beside one another).
--   Config: main/config.go. `Config/Accounts` has the identities that the configuration names, with
--     the theorems about them, `Config/Settings`, `Config/Pins` and `Config/Loaded` the proofs
--     about loading, and `Config/Durations` those about the database parameters that are durations.
--   Database: main/database.go, and `GetCtxManager` of main/context_manager.go. `Database/Stored`
--     has what is read behind a commit, for the protocol too.
--   FileManager: main/file_manager.go. `FileManager/Loading` has the proofs about reading a file and
--     its backup, and `FileManager/Durable` those about what a restart finds.
--   LegacyFileManager: main/legacy_file_manager.go. `LegacyFileManager/Porting` has the proofs.
--   Migration: `migrateIdentities` of main/migrator.go, with the proofs in `Migration/Atomic`, and
--     in `Migration/FileToDb` the rest of that file, with its proofs. `Migration/Named` has the
--     identities that a configuration names.
--   Main: main/main.go up to the running server. `Main/Server` has the routes and what happens to a
--     server, event by event, and `Main/Interleaved` the server as its goroutines, in any order of
--     their steps, with the proofs in `Safe` (what holds at every moment) and `Answered` (that
--     handlers come to their end). The others have the proofs: Trail (its audit log), Guarded (what
--     holds of its protocol), Told (what the arguments say), Booted (what the start has done) and
--     Registered (a device from its registration to its first signature).
--   Samples and its children: a concrete world, an encoder with its decoder, a disk, and the runs on
--     which the theorems are applied.
--
-- Not modelled: the metrics and the log of main/main.go, and the tests. A `null` in the list of the
-- identities file, at which the program panics, is left out.
--
-- How state is modelled. A method that changes its object takes and returns a `Protocol`, a
-- `Service`, a `Setup` (of the identity handler), a `FileManager` or a `Config`; a `ServerState` holds
-- the parts that the handlers share. Everything outside the process (database, network, files,
-- random numbers) is one value of a type `W`, which each call of a parameter takes and returns, so
-- its answers can change from call to call. An early return of an error is `Result`, and `Exec` is
-- a call with both.
--
-- Bounds and fuel. The retry loop runs on `maxDbConnAttempts`, as the source's does, and `decimal`
-- on one more than its number, which has no more digits than that. `load_file` is two calls of the
-- body of `loadFile`, one for a file and one for its backup; FileManager/Loading has the proof that
-- this is the recursion of the source. No other definition has fuel.
-- Numbers of the configuration are 64 bits, and wrap around where they become nanoseconds. The
-- lengths and counters that the source keeps in `int` are natural numbers; the counter of failed
-- loads grows by one in a minute or an hour and stays far below the largest `int`.
--
-- What is left out or simplified. Log lines, the timer, and the closing of bodies have no effect on
-- what is modelled. Case is changed for ASCII letters only. Headers are under their canonical keys,
-- each with at least one value. In Protocol, Service and Main/Server a call is one step.
-- Protocol/Steps, Service/Steps and Main/Interleaved have the same code cut at its accesses of what
-- goroutines share; the request of the certificate list, which touches nothing of that, is one step
-- there too, and so is each method of a key manager, which holds its mutex. The handler of
-- registrations, which ubirch-client-go contains, appears among the goroutines by its calls of
-- `Exists` and by what it does to the world. The writing of a response is a step before the line of
-- the audit log; a handler has answered when it has returned. A context manager returns a fresh
-- `Identity` for each call, as the database does, so filling in its fields changes nothing else.
pub mod Client
pub mod Codec
pub mod Config
pub mod Context
pub mod Cose
pub mod Database
pub mod Dict
pub mod Errors
pub mod FileManager
pub mod Http
pub mod IdentityHandler
pub mod LegacyFileManager
pub mod Libs
pub mod Main
pub mod Migration
pub mod Prelude
pub mod Protocol
pub mod Samples
pub mod Service
pub mod Signer
pub mod Threads
