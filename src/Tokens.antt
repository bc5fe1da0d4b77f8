-- ===== src/Tokens.antt =====
-- API keys: the record and its generation (internal/domain/credentials/token.go), the store of them
-- (internal/infra/postgres/tokens/tokens.go), the service that issues and revokes them
-- (internal/app/tokens/tokens.go), and the resolver that authenticates a request by one
-- (internal/app/principal.go).
pub mod Key
pub mod Repo
pub mod Service
pub mod Resolver
pub mod Principal
