-- ===== src/Lib.antt =====
-- The server side of Workie's automatic applications, lib/applications/ and the private database that it works on; with
-- them the worker's own guard of its lease, the queue of refreshes, the merging of postings of one role, the pass that
-- delists postings, the lane by which a note is saved, and the parts of the board that decide something.
--
-- A worker (a browser on the applicant's machine) holds a token. It asks the server for one application at a time, on a
-- lease, reports how far it got, says before it sends the form that it is about to, and reports the employer's receipt.
-- The applicant starts and stops runs and orders what is to become of single applications. Every request is one
-- transaction on the private database, answered once: a repeated request gets the stored answer.
--
-- Application/State is lib/applications/state.ts: the states, their classes and the test of a transition.
-- Application/Requests is the part of lib/applications/worker-protocol.ts that the requests and answers need, and
-- Application/Rows the tables of lib/private-db/ (worker-schema.ts, submission-schema.ts, discovery-schema.ts,
-- schema.ts). Application/Tx is a transaction: a function from the database to a result and a database, an error that
-- was returned and the database it leaves, or an error that was thrown, which rolls back; with the updates of the
-- tables, the checks, triggers and unique indexes that can abort them (drizzle-private/). Application/WorkerStore and
-- Application/Session are lib/applications/worker-store.ts: releaseApplication, invalidateWorker, currentWorker,
-- withWorker, liveRun, leaseOf, replayCommand and saveCommand under these names in snake case, and getPolicy of
-- lib/applications/stores.ts. Application/Leases and Application/Poll are checkedLease, heartbeatWorker and pollWorker
-- of leases.ts; Application/Caps is dailyStartInstant of schedule.ts and capDay, capHeld, claimableNow and
-- discoveryClaimAllowed of discovery.ts; Application/Events is events.ts, Application/Submissions is submissions.ts,
-- Application/Runs and Application/Commands are createRun, commandRun, releaseRunApplications and commandApplication of
-- runs.ts. Application/Buckets is buckets.ts and badges.ts: the list that an application stands in and what its card
-- says. Application/Safety follows the applications and the runs through any sequence of requests. Application/Effects
-- says what a request that succeeded has found and done, what a repeated one does, and what one that failed leaves. Application/Examples
-- runs requests of a small household.
--
-- Worker/Guard is worker/guard.ts, createLeaseGuard and the calls of the guard: the worker's side of the lease, by two
-- clocks. Refresh is lib/refresh-queue.ts, one function for each statement, so that other runners may act between two.
-- Refresh/Cycles is runRefreshCycles of scripts/claim-refresh.ts, and Ingest/Ghost is runGhostPass of scripts/ghost.ts.
-- Ingest/Dedupe is lib/dedupe.ts: the identities and the tests of two groups, in Passes the groups and the passes, in
-- Merging what becomes of a group; parsed addresses, normalised texts and SHA-256 are the fields of its Feed.
-- Board/Apply is applyReducer of lib/auto-apply.ts, Board/Chips rowChips of lib/chips.ts and Board/Geo geoTier of
-- lib/geo.ts, with the rules on locations of lib/query.ts in Board/Geo/Sql, conditions of SQL that may be NULL. Board/Params is lib/params.ts: vocab, parseParams, hasFilters, href and the writers of links, each as the
-- parameters that it leads to and the link. Talkie/Autosave is app/talkie/autosave.ts, where a step is what the event loop runs at once.
--
-- Identifiers, hashes and addresses are numbers, since the code only compares them, but texts in Ingest/Dedupe; instants are milliseconds. SHA-256,
-- the household configuration and the deployment's variables are the fields of Env. The server reads its clock once for
-- a request; the guard's readings are arguments. Three functions have fuel: request_refresh starts again as long as
-- others finish the request that it met, and one attempt is enough where nobody does; four turns are enough for
-- flush_loop of a write lane, where nobody else acts on it and the server accepts; and catch_up starts cycles for 75
-- minutes at most, so that a turn for each millisecond is enough where a cycle takes some time. Everything else loops
-- over the rows that it has read.
--
-- Not modelled: the enabling of a policy (stores.ts, with carryRunsForward, which binds running runs to the new policy and
-- starts others), which no sequence of requests of Application/Safety contains; the schemas' checks of a request's form, the capture and staging of discovery, pairing, questions,
-- documents, the parsing of addresses and the normalisers of postings, the retry of a transaction on a busy database, the connectors and the browser automation, HTTP and the
-- components of the user interface: they are the edge of the program, or are left to a later version.
pub mod Prelude
pub mod Application
pub mod Refresh
pub mod Board
pub mod Worker
pub mod Ingest
pub mod Talkie
