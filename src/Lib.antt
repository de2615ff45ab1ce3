-- ===== src/Lib.antt =====
-- DukaPay: the core of the agent-banking backend (backend/src, TypeScript).
--
-- The backend keeps money as text and splits it with `bigint`, moves float between agents under a
-- 2-of-3 approval, blocks writes while contracts are paused, replays the response of a repeated
-- request, gates requests by role, wallet and rate, sends webhooks with retries, seals its audit trail into Merkle trees whose
-- roots are anchored on chain, and follows the chain's events into its tables and the borrowers' scores. The
-- indexer calls the score updates within its transactions; the other parts share no state.
--
-- * Money (backend/src/money/decimal.ts): `round_div` is `roundDiv`, with the four modes of
--   RoundingMode. Money/Split is `splitProRata`: the floor loop is `allocate`, the inner loop `scan`,
--   the award `award`, the while loop `hand_out`. `bigint` is `ℤ` of Base/Int, where `/` truncates
--   and `%` takes the dividend's sign. The while loop counts `remaining` down, so the recursion is on
--   it, and an entry that is missing is the thrown TypeError.
--   Money/Decimal has `toStroops`, `fromStroops` and `toWholeStroops` on texts, which are lists of
--   code points (Base/Text; Decimal/Laws and Decimal/Reads have the proofs); the printing of a number n runs on fuel n + 1, and each round divides it
--   by ten. A JavaScript number is given to `toWholeStroops` by its `toFixed(7)`.
-- * AuditMerkle (backend/src/services/auditMerkleService.ts): `merkleRoot`, `merkleProof` and
--   `verifyMerkleProof`. SHA-256 is a parameter: a digest type with an equality, the digest of a
--   text and that of a pair. The while loops run on fuel, the length of the list, which is enough
--   since each round at least halves a list of two or more, rounding up.
--   AuditMerkle/Epochs is `createEpoch`, the sealing of `sealAndAnchor` and `getProof` over the tables
--   `audit_logs`, `audit_epochs` and `audit_merkle_leaves`; `JSON.stringify` is a parameter. A transaction
--   that throws leaves the tables as before, and a list says which ones fail. Tables and Inserted have
--   what the queries and `createEpoch` do to the tables, Sealed and Late the theorems. Anchor is
--   `anchorEpoch` with the loop of `sealAndAnchor`; lists say what becomes of its queries, its
--   transactions and its polls, Accounts says when a row is accounted for, and Anchored has the proofs.
-- * AgentFloat (backend/src/services/agentFloatService.ts): the service as methods of a monad over
--   the tables. AgentFloat/Store has the tables of
--   backend/migrations/1804000000000_agent-float-transfers.cjs, a record `World` with the clock and
--   a list that says which coming queries fail, and the monad; Initiate has the limits and
--   `initiateTransfer`, Approve `approveTransfer` and `rejectTransfer`, Listing the two reads.
--   `AGENT_VAULT_CONTRACT_ID` and `buildTransferToAgentTx` are parameters. Whether the table has the
--   column `error_message`, which no migration makes, is a field of the tables; without it the UPDATE
--   that executes is refused. Ends has the rules that
--   prove what a method leaves in the tables, Signed the invariant, and Stuck is about the
--   table that the migrations make.
-- * PauseGuard (backend/src/middleware/pauseGuard.ts): the module's variables, the row of
--   `pause_state` and the copy in Redis as one record, each call a function on it;
--   PauseGuard/State has the record, the copy and the fallbacks. A list says of each coming round
--   trip whether it is answered, fails, or has its effect with the answer lost, which is also what
--   `withCacheTimeout` makes of a slow Redis.
-- * Idempotency (backend/src/middleware/idempotency.ts and the Redis calls of
--   backend/src/services/cacheService.ts): the requests that carry one key, each a process of which
--   `advance` makes the next round trip or runs the handler; a run is a list of advances. The token
--   of a request is its number, and the keys do not expire within a run.
-- * Rbac (backend/src/auth/rbac.ts): the roles, their scopes and the wallets of the environment;
--   Rbac/Gates has the gates of backend/src/middleware/rbac.ts. The rows of `agent_assignments`, or
--   that their query fails, are a parameter. Rbac/Loans has both gates of
--   backend/src/middleware/loanAccess.ts.
-- * RateLimit (backend/src/services/rateLimitService.ts): the sorted set of each identifier with the
--   script that prunes, counts and adds, the in-memory fallback, reset and status. RateLimit/Tiers has
--   `resolveTier` and `tieredRateLimiter` of backend/src/middleware/rateLimitMiddleware.ts; how an
--   identifier is written as a Redis key is a parameter.
-- * Scores (backend/src/services/scoresService.ts): the bulk updates on the `scores` table and the
--   cached scores.
-- * Indexer (backend/src/services/eventIndexer.ts, `withTransaction` of backend/src/db/connection.ts,
--   backend/src/services/ledgerCheckpoints.ts): a monad over the tables in which a list says how each
--   coming query ends: answered, refused, or with its effect and the answer lost, with an error after
--   which `withTransaction` tries again or another. Whether `loan_events` has the columns of the INSERT,
--   as its view in the migrations has not, is a field of the tables; a row conflicts on each unique key
--   of the migrations. The server is taken to give up a transaction whose ROLLBACK fails. Ingest is
--   `storeEvents`, Checkpoints the tables `ledger_checkpoints` and `indexer_state`, Fetch
--   `fetchEventsInRange` and `digestEvents`, Chunk `processChunk`, `reindexRange` and
--   `backfillMissingRanges`, Poll `rollbackFromLedger`, `detectAndRollbackReorg` and `pollOnce`. The
--   other modules have the rules and the proofs. The RPC is a parameter, a function from requests to
--   pages; what `parseEvent` makes of a raw event is a field of it; the score configuration and
--   SHA-256 are parameters. The loop over the pages runs on fuel, which is enough where the pages
--   with events of the range bring the cursor nearer to its end; without that the loop of the code may
--   not end. The rounds of
--   `reindexRange` are as many as the range has ledgers, and one, which is enough for a batch size
--   from 1. There is one indexer for one contract, and ledgers, ids and digests are numbers.
-- * Webhooks (backend/src/services/webhookService.ts, backend/src/services/webhookRetryProcessor.ts): a
--   record `World` with both tables, the clock, a list that says which coming queries fail, one that
--   says how the coming requests end, and the requests sent. Prepare is `prepareWebhookPayload`, Post
--   `assertCallbackUrlSafe` and `postWebhook`, Retry `processRetries` and `retryWebhookDelivery`,
--   Dispatch `dispatch` and `sendToWebhook`, Interleaved the runs that overlap, with a row of the loop
--   as one step. Steps is the step relation of the deliveries and the requests, from which the
--   invariants follow; the other modules have the proofs. The BlockList, DNS, the size of JSON texts
--   and the decryption of secrets are parameters. Whether PostgreSQL resolves the
--   unqualified `id` of the SELECT of `processRetries` is one too: it refuses it, and then the SELECT
--   always fails. Webhooks/Signature has `computeWebhookSignature`, `verifyWebhookSignature` and the
--   candidate secrets, with HMAC and hexadecimal text as parameters.
--
-- In AgentFloat, PauseGuard and Indexer the calls are not interleaved with each other: a call is
-- one step. Texts that the code only compares or tests for emptiness are numbers, 0 being the empty
-- one. A number of JavaScript that holds an amount is a whole number of stroops, and its rounding
-- beyond 2^53 is not modelled.
--
-- Not modelled: the conversions of money/decimal.ts through JavaScript numbers; the decoding of
-- events and the timers of the indexer; the delays between retries; the reads and writes of
-- webhook subscriptions; the HTTP layer, the other services,
-- and the programs in contracts/, indexer/, frontend/ and sdk/.
pub mod Base
pub mod Money
pub mod AuditMerkle
pub mod AgentFloat
pub mod PauseGuard
pub mod Idempotency
pub mod Rbac
pub mod RateLimit
pub mod Scores
pub mod Webhooks
pub mod Indexer
