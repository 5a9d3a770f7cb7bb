-- ===== src/Lib.antt =====
-- AstreoGateway: an HTTP gateway in front of several providers of language models. A client names a
-- model by a directive, `provider:model` or the name of an alias; the gateway picks a provider, a key
-- and a model, forwards the request, and tries an alias's other targets when an attempt fails.
--
-- The parts, and the files that model them:
-- - Model: internal/model/model.go, the rows as the program holds them.
-- - Store: internal/store. Db is what SQLite answers, a parameter; Providers, Aliases and Keys are the
--   reads (`GetProviderByID`, `ListAliases`, `VerifyGatewayKey`); Slug is slug.go.
-- - KeyPool: internal/keypool/keypool.go, `Load`, `Get` and `MarkCooldown` on a map of key states.
-- - Discovery: internal/discovery/discovery.go, the cache of listed models, the runtime marks of
--   missing ones, `StaleTargets`, and in Fetch the refresh of one provider.
-- - Routing: internal/routing/routing.go, `Resolve`, the choice of a target and `NextFailoverTarget`.
-- - Protocol: internal/protocol/protocol.go and core/types.go, a wire protocol as a record of its
--   operations, and the registry of protocols. OpenAi, Anthropic and Gemini are the three protocols,
--   of internal/protocol/openai, anthropic and gemini: Request, Response and Stream are the files of
--   those names, Api is protocol.go, Urls has all url.go. Content, Turns and EventStream are what
--   Anthropic and Gemini write alike, Wire and Registration what the protocols take and register.
-- - Proxy: internal/proxy/proxy.go and outcome.go. Forward is one attempt, Attempts the bodies and
--   the outcome, Capture the reading of token counts off a stream, Failover the loop over an alias's
--   targets, Chat the whole of `ChatCompletions`; Embeddings is embeddings.go, with a loop of its own.
-- - Metrics.LogStore: internal/metrics/logs.go, the ring of request logs, its snapshot, `List`, and in
--   Stats the counts of a window.
-- - Admin: internal/api/admin/auth.go and internal/store/admin_users.go. Session is the cookie and
--   `RequireAdmin`, Users the table, Auth the handlers of bootstrap, login, logout and session.
-- - Metrics.AccessLog and Public: internal/metrics/access_log.go and internal/api/public, a chat
--   request from the check of its gateway key through the proxy to its entry in the log, and the list
--   of models.
-- - Json is what the program takes from encoding/json and fmt, a parameter; Base has the names that
--   all share; Samples has the data of the tests, which stand in the modules named Examples.
--
-- The proxy reads a Selector, which holds the store, the discovery cache, the key pool and the round
-- robin positions; its attempts put keys on cooldown and mark models as stale, and change the same
-- Selector by doing so. A lock of the program makes an operation one step here. While an attempt
-- waits for the network, other requests run: the parameter `exchange` returns the whole state anew.
--
-- A streaming protocol reads the lines of the upstream reply and writes chunks. What it writes for an
-- event does not depend on earlier writes, so it makes a list of writes, which end with the first
-- that fails.
--
-- Texts are lists of bytes, Go's maps are lists of keys and values, instants and durations are
-- numbers on one clock, and 0 is the zero time. A Go int of round robin wraps at 2 ^ 63, which is
-- written out. A panic of the program is a value: `panicked` in the selection of a target,
-- `header_panic` for `WriteHeader` at a code that has not three digits. The failover loop runs on fuel, one
-- more than the alias has targets: each round adds the key of an untried target to the tried ones.
-- `usageCaptureWriter` has fuel for one line per byte of its buffer. Loops over lists are recursion on
-- the list.
--
-- Not modelled: the writes of the store and its settings, the background loop and the refresh of all
-- providers in discovery, the rest of the admin API, configuration, start-up and the user interface.
-- SQL, JSON, HTTP, the HMAC, bcrypt, the clock, random draws, the parsing of URLs and sorting are
-- parameters.
pub mod Base
pub mod Model
pub mod Store
pub mod KeyPool
pub mod Metrics
pub mod Protocol
pub mod Discovery
pub mod Routing
pub mod Json
pub mod Proxy
pub mod Admin
pub mod Public
pub mod Samples
