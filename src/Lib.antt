-- ===== src/Lib.antt =====
-- The golang-collector repository: an HTCondor collector, which keeps the ads that daemons advertise
-- and answers queries for them, and a negotiator, which matches the requests of schedds to slots.
--
-- Parts, and the files that model them:
--
-- - Store/AdType: the tables (store/adtype.go): `MyType`, names, query targets.
-- - Store/HashKey: the keys that ads are stored under (store/hashkey.go, store/attrs.go): `HashKey`,
--   `hashKeyFromText` and the scan of an ad's text, `scanKeyAttrs`.
-- - Store/RawProject: the projection of ads in wire form (store/rawproject.go).
-- - Store/SeqVersion: the versions of updates and the resolution of commit conflicts
--   (store/seqversion.go): `adVersion`, `resolveConflicts`.
-- - Store/Reject: what is logged of a rejected ad (store/reject.go): `AdName`, `AdExcerpt`.
-- - Store/Batch: the update buffer (store/batch.go). Buffer has the map of pending updates, Flush
--   the body of `flush` with the isolation of a rejected update, Enqueue the `BufferedBackend` and
--   `enqueue`, Reads the operations that flush first and hand on to the wrapped backend.
-- - Store/Tables: the tables in memory (store/store.go): `Update`, `UpdateOldText`, `UpdatePvt`, `Get`
--   and `Len`; Query has the queries, Sweep `Invalidate` and `Expire`, Laws what is relied on of a
--   collection, Refine the tables as a map from keys to ads.
-- - Cycle: the negotiation cycle (negotiator/cycle). Requests is `nextRequest`, Submitter
--   `negotiateSubmitter`, Share the limits and the order of the submitters, Group `negotiateOne` and
--   `negotiateWithGroup` (spin.go); JobPrio is globaljobprio.go, Tracker
--   the usage of the concurrency limits (limits.go).
-- - Accountant/Tree: the tree of accounting groups (negotiator/accountant/grouptree.go): `findChild`,
--   `BreadthFirst`, `BuildNameMap` and `GetAssignedGroup`; Build is `BuildGroupTree`.
--   Accountant/Limits has `ParseConcurrencyLimit` (limits.go).
-- - Matchmaker: the match of one request (negotiator/matchmaker). Candidate is `Candidate.Better`
--   (negotiator/types.go), Limits the concurrency gate (concurrency.go), Eval the gates and ranks of
--   one slot (ranks.go, shard.go), Shard `scanRange` and `parallelScan`, SlotView the live view
--   (slotview.go), Match `Matchmaker.Match` (matchmaker.go).
-- - Server: the answer to a query (server/query.go, server/server.go). Query parses a query ad,
--   Redact is `redactRawExprs`, TypeAttrs `rawTypeAttrs` and `withRawTypeAttrs`, Relay
--   `relayMatches`; Commands has the tables of commands (server/commands.go), Forward the
--   queues of the view collectors (server/forward.go), Handlers the handlers of updates and
--   invalidations.
-- - Protocol: the NEGOTIATE conversation (negotiator/protocol). Factory is the cache of warm
--   connections (cache.go), Session one conversation (session.go).
-- - Base: texts, lists and integers that the parts share.
--
-- How the parts meet: the server's handlers call a backend, which may be a buffer over another
-- backend; the buffer keys updates by HashKey; the matchmaker scans a slot view and its winner is
-- consumed from the view; a session's requests are what the matchmaker is asked for, by the request
-- loop of the cycle, whose matches a spin takes from the pie.
--
-- How the code is modelled:
--
-- - A text is a list of codes, one for each byte; letters are folded and blanks recognized as ASCII.
-- - A count is a natural number. A number parsed from a text is an integer, and one outside the
--   64-bit range is refused as the parser does.
-- - float64 is a record of operations without laws. The theorems on the order of candidates assume
--   that comparisons are those of an order (`IsOrdered`), which holds of all values but NaN.
-- - The ClassAd library, the connections, the database and the wrapped backend are parameters, with
--   what is relied on of them as hypotheses.
-- - A Go map is an association list. What depends on the order of an iteration is stated for every
--   order, the list being arbitrary.
-- - What other goroutines buffer while a flush is applying its batch is a parameter, `meanwhile`, of
--   the flush. Theorems on a buffer that is empty after a flush assume that it adds nothing.
-- - The workers of a scan share nothing but the final reduction, so they run one after another.
-- - The printing of a number has the number plus one as fuel. The loops of the negotiation cycle run
--   on fuel: the offers that the requests still take bound the turns of the request loop, and more
--   fuel than that is enough. The spins of a group have no such bound of their own: a partitionable
--   slot is never used up, so how often they turn rests on what the schedds ask for.
-- - A group of the tree is a value with its children, in place of a node with a pointer to its parent.
--   The breadth-first walk has fuel; more than the number of groups is enough.
-- - The sort of the submitters is an operation with what is documented of sort.SliceStable. The counts of
--   the accountant, which seed the tracker of concurrency limits, may change between any two calls.
-- - In the cycle the session, the clock, the accountant and the delivery of messages, which the
--   loops only call, are one state with operations.
--
-- Not modelled: the watch, the retraining and the statistics of the tables, the scope TARGET of a
-- constraint, the database backends, the payloads of the protocol, the quotas, stored limits and
-- usage of the accountant, the phases of a cycle around its spins with the prefetch of sessions,
-- pool sources, metrics, and the daemons' mains.
pub mod Base
pub mod Store
pub mod Matchmaker
pub mod Server
pub mod Protocol
pub mod Cycle
pub mod Accountant
