-- ===== src/Lib.antt =====
-- avito-mcp, the MCP server for the Avito API: a model of the way of a tool call from the policy to the
-- network and back, of the stores that keep its destructive calls safe, of the authorization server of
-- the remote endpoint, and of the parts of the wire that carry an algorithm of their own.
--
-- The parts and how they interact. A tool is registered and confirmed according to the safety policy.
-- A destructive call runs under an idempotency key: the ledger decides whether it replays a result, joins
-- an operation that is running, is refused, or starts. The request then goes through the client, whose loop
-- retries, refreshes the access token and tells by a latch whether anything was handed to the network; on
-- that latch the tool factory decides what the ledger is told. A call that must be confirmed becomes a pending
-- action, which a second call, meta_confirm_action, claims, executes and completes. Both stores work in one process or, with
-- a state directory, through records that several processes share under file locks. Webhook
-- deliveries enter a ring buffer with a log. The remote endpoint has its own authorization server, whose
-- state is the OAuth store, and sessions in front of the same tools. Lists of tools go out in pages, and a subscription is narrowed to what exists. Calls to Avito wait for a shared rate budget.
--
-- Which file models what (paths from the repository's root):
--   Policy, Policy/Levels: src/core/policy.ts (evaluatePolicy, requiresConfirmation).
--   Idempotency: src/core/idempotency.ts, the state of IdempotencyStore, remember, lookup, hold, releaseHold,
--     delete, size, cleanupExpired, assertCapacity.
--   Idempotency/Runs: runExclusive without a state directory, in the three steps arrive, resume and
--     settle, between which other calls run. Its children hold histories and what they show.
--   Idempotency/Durable: runExclusive, rememberPersistent, holdPersistent, releaseHold with a state
--     directory. A run holds the lock of its record to the end, so it is one step; the end `stopped` is
--     a process that dies during the operation.
--   Pending: src/core/pending-actions.ts, the methods of PendingActionStore in memory. Pending/RateLimit:
--     checkConfirmationRateLimit. Pending/Durable: the ...Persistent methods; Pending/Durable/World runs any
--     number of processes over one directory, with restarts.
--   ToolFactory: src/core/tool-factory.ts, defineTool as a registration, the end of `execute`, executePending.
--     ToolFactory/Args: stripMeta, splitArgs, dryRunPreview, toStructuredContent, and the request that
--     `execute` waits for, by the client or by the tool's own executor, which is a parameter.
--     ToolFactory/Handler: the handler up to runExclusive, createPending and the options that it passes.
--     ToolFactory/Calls: what a call means, independently of the handler.
--   Confirm: src/domains/meta.ts, meta_confirm_action and meta_cancel_action, cut where the handler waits.
--   HttpSessions: src/http/mcp-http.ts, the sessions of handleLegacyRequest, createSession, the reaper and
--     closeAll. ModernLeg: dispatchByEra, admitModernExchange and release of the same file.
--   Client: src/core/client.ts, the loop of doRequest, one function per decision of a turn. A turn meets a
--     `Round`: what the headers, the network, the token store and the clock do in it.
--   Errors: src/core/errors.ts. Subscriptions: src/core/subscriptions.ts.
--   TokenStore: src/core/token-store.ts. TokenStore/Calls runs processes of several accounts over one file.
--   OauthProvider: src/http/oauth/provider.ts, the grants and the check of tokens. OauthProvider/Approve:
--     authorize and approveConsent. Both call the operations of OauthStore.
--   Webhook: src/core/webhook-store.ts (record, list, stats, summarise). Webhook/Rotation: persistLine,
--     rotateLog.
--   OauthStore: src/http/oauth/store.ts, the maps of OAuthStore and evictOldest. Registry: clients and
--     sweepExpired. Transactions: consents and codes. Tokens: access and refresh tokens, revokeTokenFamily.
--   Pagination: src/core/pagination.ts (pageBoundaries, decodeCursor, paginate).
--   RateLimiter: src/core/rate-limiter.ts (waitIfNeeded, release, on the file of one domain).
--   JsMap: the Map of JavaScript. Json: parsed JSON. Prelude: names and lemmas that all share.
--
-- How the code is read. The clock, random ids, SHA-256, base64url, JSON text and the callbacks are
-- arguments; a callback that throws is an answer of its own. Times are natural numbers, and a
-- comparison with a difference that the code lets go negative is written as a sum, or stops at 0 where
-- the outcome is the same. A method that throws returns none, false or an error value. Listeners
-- are the list `notified` of what they were told. JSON numbers are natural numbers. `slice` of a text
-- is by characters, which agrees with the code on the basic plane.
--
-- Fuel. `evictOldest` loops as often as its map has entries, which is enough: each round removes
-- one. The walk of a client through the pages takes a number of pages; one more than the number of
-- items is enough. The loop of `waitIfNeeded` takes a number of turns; one for each second up to the reset
-- time and one more is enough. The request loop of the client takes a number of turns; the two limits of
-- its retries together and two more are enough. All other loops are recursions on a list.
--
-- Not modelled: the file lock and the lease protocol themselves, the snapshot file of the OAuth store
-- and its flush queue, the process-local mirror of durable idempotency records, listPersistent and
-- hasClaimedPersistent, confirmation over a state directory, failures of the durable ledger's writes
-- other than that of a result, the executors of single tools (customExecute), a tool server without a
-- ledger, the texts of messages and pages, logging, the serialisation of requests and the reading of
-- bodies, the network, the SDK, configuration, client registration, and the tool catalogue, which is
-- data.
pub mod Prelude
pub mod JsMap
pub mod ModernLeg
pub mod Client
pub mod Errors
pub mod ToolFactory
pub mod Confirm
pub mod HttpSessions
pub mod TokenStore
pub mod Subscriptions
pub mod Json
pub mod OauthStore
pub mod OauthProvider
pub mod Pagination
pub mod Idempotency
pub mod Pending
pub mod Policy
pub mod RateLimiter
pub mod Webhook
