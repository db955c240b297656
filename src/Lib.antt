-- ===== src/Lib.antt =====
-- Synit WAF: a reverse proxy that guards its tenants' sites (internal/waf). This library models the
-- request path of the proxy and proves what it promises.
--
-- The parts, each with its file here and its code there:
--   * Proxy: ServeHTTP of internal/waf/middleware_serve.go, the controls that a request passes, in
--     their order. `Proxy.Serve.serve_http` runs them over one state, through the interface
--     `Controls`; each control is either one of the parts below or a service outside.
--   * Request: what the controls read of a request. Paths (pathMatchesAny), Body (inspectionBody) of
--     internal/waf/request_info.go; ClientIp (clientIPFromRequest) and Address (prefixesContain) of
--     internal/waf/middleware_serve.go; Encoding (hasUnsupportedContentEncoding) of
--     internal/waf/middleware.go. Text has the functions of Go's strings and path that these use.
--   * Graphql: internal/waf/graphql.go. Nesting is graphQLNestingDepth, Document the two walks over a
--     parsed document, Check is checkGraphQLRequest and Serve is applyGraphQLProtection.
--   * Llm: internal/waf/llm_protection.go. Split is splitLLMText, Sidecar the queries to the scoring
--     service, Guard is applyLLMProtection.
--   * Waf: applyWAF, blockRequest and recordAuditDetection of internal/waf/middleware.go.
--   * Jwks: getJWKSEntry and storeJWKSCacheEntry of internal/waf/middleware.go, the cache of key sets;
--     Token is validateJWT. Locks has the refresh locks and Held is about those who hold them.
--   * Access: allowRateLimitedRequest, crowdSecBanned and checkBasicAuth of internal/waf/middleware.go,
--     and rateLimitClientKey of internal/waf/request_info.go.
--   * Upstream: a tenant's upstreams in internal/waf/middleware.go: selectUpstream,
--     recordUpstreamFailure, the circuit breaker and the health flag.
--   * Coordinator: internal/waf/coordinator.go. CheckLimit for the leader, and in
--     Coordinator.Follower the connection that Allow keeps to it.
--   * Registry: SafeWAFRegistry of internal/waf/config.go: the tenant that a host belongs to. Index and
--     Scan compare the wildcard index with the scan of the mapping.
--   * Config: the settings of internal/waf/config.go and ValidateConfig of
--     internal/waf/config_validation.go: Faults has the guards and its helpers, Global the shared
--     settings, Security one tenant's policy and Tenants the whole; Validated is about what is accepted.
--   * Detector: the classification service of services/synit-llm-guard/main.go, which answers the
--     queries of Llm. Chunks is splitChunks, Infer has infer and validateModelLabels, Serve is
--     handleDetect; Scores, Answers and Reference are about its answers.
--   * Receiver: the log service of services/ai-logs-receiver/main.go. Failures is authFailureLimiter,
--     which Throttle looks at over time, Window the rate limit of a tenant, Tokens has
--     loadTenantTokens and tenantIDForToken, Lines is logLines, Store what handleLogs does under a
--     tenant's lock and Serve the whole of it, Retention is cleanupExpiredLogs and Ready
--     logsDirWritable with its endpoint. Quota, Texts, Cases and Calls hold the proofs about
--     handleLogs, and Memory a file system to try them on.
--   * Forward: the forwarding of log events, webhookLogHook of internal/waf/logging.go: enqueue, the
--     loop of runWorker, send and Close as steps. Conserved keeps the books, Bounds the limits.
--   * Prelude: what all of them share: lists, maps with text keys, signed numbers and Boolean tests.
--
-- Texts are lists of bytes where the code looks at bytes, and `String` where it only compares them.
-- Times are natural numbers that each operation is handed. Integers that the code lets wrap around
-- (the counter of a tenant, the count of failures) do so here. A method that runs under a mutex is one
-- step.
--
-- Five loops take fuel: the cutting of a text, for which one round more than the text has bytes is
-- enough where it ends at all; the expansion of nested GraphQL fragments, for which one round more than
-- there are fragments is enough, since a name that is being expanded is not expanded again; the
-- batches of texts for the sidecar, of which there are at most as many as texts; and in Detector the
-- chunks of a text, of which there are no more than its bytes, and the batches of chunks.
--
-- Parameters of the model, since their code is elsewhere: the rate limiter of golang.org/x/time, the
-- LRU caches, the rule engine Coraza, the GraphQL parser, the JSON readers, bcrypt and the hashes, the
-- services over HTTP, the reading of addresses and media types, the file system and the classification
-- model of the two services, and in Proxy all controls. Not modelled: the writing of logs, metrics,
-- the loading and watching of the configuration, TLS, the GeoIP reader, the start of the processes and
-- their reading of the environment, which are input and output; the parsing of one key and the
-- response masking.
mod Prelude
pub mod Upstream
pub mod Coordinator
pub mod Llm
pub mod Request
pub mod Graphql
pub mod Proxy
pub mod Waf
pub mod Jwks
pub mod Access
pub mod Receiver
pub mod Detector
pub mod Registry
pub mod Config
pub mod Forward
