-- ===== src/Lib.antt =====
-- llm-proxy-backend is a gateway in front of LLM vendors. People sign in to a web interface and
-- issue API keys; programs present a key to the proxied listener, whose gate decides whether the
-- request goes on to a vendor. An account has a policy (which models of which providers) and spend
-- limits (how much in which window).
--
-- The parts and how they meet:
--   * Limits (internal/domain/limits/limits.go): the rules of spend limits and their validation, the
--     decision on one request from the stored windows (Decide), and the states shown (States).
--   * Access (internal/domain/access/policy.go): globs, rules, policies and the routing of a
--     requested name to a registered model.
--   * Identity (internal/domain/identity/user.go, internal/app/admin.go): accounts and who of them
--     may do what.
--   * Store: the tables behind the services' ports (internal/app/ports.go), the result of a call, and
--     the operations that services are written with. Keeping is about what an operation keeps on
--     every path, Inversion about what one that succeeded or failed did, Failing about what one that
--     failed keeps.
--   * Tokens: keys (internal/domain/credentials/token.go), their store
--     (internal/infra/postgres/tokens/tokens.go), the service that issues and revokes them
--     (internal/app/tokens/tokens.go), and the resolver of a presented secret
--     (internal/app/principal.go), with the text form of a principal.
--   * Spend: the service of spend limits (internal/app/spendlimits/spendlimits.go) over its window
--     table (internal/infra/postgres/limitwindows/limitwindows.go). It asks Limits.Decide.
--   * Auth: the throttle of sign-ins (internal/app/auth/throttle.go,
--     internal/infra/postgres/loginattempts/loginattempts.go), sessions and passwords
--     (internal/app/auth/auth.go, internal/app/hasher.go and the stores of sessions and passwords).
--   * Accounts: the administrator's service (internal/app/adminusers/adminusers.go) with temporary
--     passwords (internal/app/temporary_password.go), sign-in through an identity provider
--     (internal/app/auth/oidc.go, internal/app/challenge.go), recovery from the shell
--     (internal/app/recovery/recovery.go) and the first administrator (internal/app/bootstrap.go),
--     over the stores of accounts (internal/infra/postgres/users/users.go), links and invitations
--     (internal/infra/postgres/identities/identities.go). It calls Tokens and Auth.
--   * Usage: what happens after a request (internal/infra/gateway/usage/sink.go): the token kinds of
--     a raw usage record (Detail) and their cost (Cost, internal/app/usage_cost.go), the row that a
--     record becomes (Event), the queue and the worker that takes records off it and answers flushes
--     (Worker), what the worker does with a batch (Process), with its label cache (Labels), the
--     vendors' quota signals (Quota), the ledger with the charges to Spend's windows (Ledger,
--     internal/infra/postgres/usage/usage.go), and the stamps of the last use (Stamps).
--   * Pricing (internal/app/pricing.go, internal/app/price_table.go): which models have a price, and
--     the service that maintains the price list (internal/app/prices/prices.go) from the price catalog
--     and the administrator's prices (Entries, Valid, Service), over its tables (Book, Tables,
--     internal/infra/postgres/prices/prices.go). Gateway and Usage ask the list it hands out.
--   * Gateway: the credentials of a request (internal/infra/gateway/access_provider.go), the gate
--     (internal/infra/gateway/policy_gate.go), which asks Tokens, Access, Pricing and Spend in turn,
--     the table of routes (internal/infra/gateway/routes.go), the catalogue of models and the naming of
--     providers (internal/infra/gateway/catalog.go), the model that a request names (Extract,
--     internal/infra/gateway/model_extract.go), the budget of request bodies and their
--     reading (internal/infra/gateway/body_budget.go), and the drain at shutdown
--     (internal/infra/gateway/drain.go).
--   * Samples: concrete accounts and requests for which the theorems' conditions hold.
-- A method of the source is the function of the same name in snake case; one that the language takes
-- (delete, check, reset) keeps its name, and a helper inside a method has a name for what it does.
--
-- State and failure: a service's method is a function from the store to a result and the store. Each
-- call of a port may fail, as the store's `fault` says for the call's number, and then has changed
-- nothing; a cancelled request is such a failure. Each reading of a clock, the program's or the
-- database's, takes the store's `clock` at its own number, so clocks may drift and step back.
-- Transactions are single steps, and so are a flush's receipt with the reading of the queue's length,
-- and a charge's shrinking with the semaphore's release. Concurrent requests are sequences of steps
-- where the theorem is about them (the budget, the drain, the sink's queue, the attempts that the
-- throttle counts, the limit service's requests). A panic that a worker recovers from is a value that
-- says where it happens.
--
-- Numbers: instants and durations are nanoseconds in ℕ from an early enough origin, ids are ℕ with 0
-- for the nil UUID, a float64 is a multiple of the least positive one (Prelude.Float); it is compared,
-- and computed with only through a parameter (Usage.Cost). Byte counts of bodies are ℕ: they are below
-- 2 ^ 30 in the source, so int64 does not wrap. Token counts are int64 with its wrap-around written out
-- (Usage.Int64). Texts are lists of code points. Every loop is structural recursion but the two that
-- read a body (Gateway.Budget.Buffer): their fuel counts reads, and is enough if it exceeds by two the
-- reads into a buffer with room that the body can answer without an error, which its length and the
-- read deadline bound.
--
-- Parameters, for code that is not the program's: the hashes of secrets, sessions and passwords, the
-- lower case of a code point and of a text, strings.EqualFold, upstream's registry of models (the gate
-- takes the catalogue itself), gjson's and gin's reading of a body, the random
-- draws, the semaphore's grant (given only when that much is free), the io.Reader of a body, uuid's
-- printer and parser, the identity provider's answer to a code, upstream's usage records and response
-- headers, strconv's and time's parsers, what the price catalog answers, and the arithmetic of float64.
--
-- Not modelled: HTTP decoding, response texts and headers, logs and metrics, the order of listed
-- rows, parsing a body, the upstream proxy library and the vendors' protocols, the identity
-- provider's protocol, the administrator's page on activity, the charts that the ledger is read for,
-- settings of the upstream library, configuration and boot.
pub mod Prelude
pub mod Limits
pub mod Access
pub mod Identity
pub mod Store
pub mod Tokens
pub mod Spend
pub mod Auth
pub mod Accounts
pub mod Usage
pub mod Pricing
pub mod Gateway
pub mod Samples
