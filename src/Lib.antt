-- ===== src/Lib.antt =====
-- The core of the mootd backend (Go, under backend/internal), modelled and proved.
--
-- The program answers a user's request for outfits: a budget gate reserves the cost of the call
-- (budget/budget.go), the call is routed by the user's tier (outfit/tier_routing.go over the table of
-- admin/routing.go) to a provider or to the cascade of all of them (outfit/cascade.go), whose outbound
-- calls are retried (shared/retry/retry.go) over a pool of endpoints (shared/endpoints/pool.go). What
-- the provider proposes is validated against the wardrobe, filled up with outfits that are built without
-- a provider, and given its snapshots and surface URLs (outfit/service.go, outfit/fallback.go). Around
-- it stand the rate limits (shared/middleware), and on the admin side the permissions of roles
-- (admin/permissions.go), the A/B tests of prompts (admin/prompt_ab_tests.go) and the login with its
-- second factor and refresh tokens (admin/handler.go, admin/mfa_handlers.go, admin/totp.go). A client
-- that does not want to wait submits a job and polls it, or reads a stream of progress events
-- (outfit/handler.go, outfit/jobs.go). Users log in with Google and refresh their session (auth), every
-- request is let in by its token (shared/jwt, shared/middleware), the admin routes also by its address,
-- and what is stored about a user can be exported and erased (privacy, admin/privacy.go). The cost of every call is computed by the price table
-- (observability/pricing.go).
--
-- The files:
--   Prelude    shared names, tests, lists, maps, texts; Go's errors (Errors), integers, floats,
--              a Mongo collection by its documented laws (Mongo)
--   Retry      shared/retry/retry.go: IsRetryable, Do
--   Endpoints  shared/endpoints/pool.go: NewPool, Next, Fallback, Size
--   Health     outfit/cascade.go: HealthTracker
--   Cascade    outfit/cascade.go: CascadeGenerator.Generate, shouldNotFallback
--   Routing    outfit/tier_routing.go: pickProvider, Generate; admin/routing.go: CachedRoutingReader,
--              ValidateRoutingUpdate
--   Budget     budget/budget.go: Enforcer.Check and Release; Budget/Redis: the trackers
--   Outfits    outfit/service.go: ValidateOutfits (Outfits, Valid), attachItemSnapshots and
--              resolveSurfaceURLs (Snapshots), the filling of a batch in generateOutfitsImpl (Fill);
--              outfit/fallback.go (Fallback); outfit/prompts.go: ClassifyRole
--   Outfits/Critic  outfit/service.go: criticGate; outfit/critic.go: the scores
--   Outfits/Progress  outfit/service.go: runWithProgress; outfit/handler.go: handleSSEStream
--   Jobs       outfit/jobs.go: JobStore, recoverStaleJobs; outfit/handler.go (Jobs/Handler): SubmitGenerate,
--              runAsyncGeneration, PollJob, the slots of concurrent generations
--   Admins     admin/domain.go, admin/repository.go; admin/handler.go and admin/mfa_handlers.go
--              (Admins/Auth): Login, Refresh, MFAVerify
--   Accounts   auth/handler.go, auth/repository.go, auth/google.go: MockLogin, Google, Refresh, Logout
--   Tokens     shared/jwt/jwt.go, admin/jwt.go, shared/middleware/auth.go, admin_auth.go
--   ClientIp   shared/middleware/clientip.go, ip_allowlist.go
--   Privacy    privacy/service.go, privacy/handler.go: Purge, SelfPurge; Export (Exported);
--              the DeleteAllByUser of wardrobe/repository.go, wardrobe/detection_runs.go and
--              moodboard/repository.go (Blobs); the rows of admin/budgets.go (Budgets);
--              admin/privacy.go: PurgeUser, with its adapter of app/app.go (PurgeUser)
--   Wardrobe   wardrobe/repository.go, wardrobe/handler.go: updateItem, deleteItem, Search; the guarded
--              download of images (Download)
--   Pagination shared/pagination/pagination.go; wardrobe/handler.go: Items
--   Audit      admin/audit.go: AppendAudit, ListAudit
--   Permissions  admin/permissions.go, admin/permission_middleware.go
--   Pricing    observability/pricing.go: NewPriceTable, Refresh, ComputeCost
--   RateLimit  shared/middleware/ratelimit.go, ratelimit_redis.go
--   AbTests    admin/prompt_ab_tests.go: Start, End, CachedABTests, UserBucketPct, IsCandidateUser
--   Totp       admin/totp.go: VerifyTOTPStep, hotp, ConsumeRecoveryCode
--
-- Functions of the source keep their names, in snake_case. State is passed explicitly: an operation
-- takes the state of its component and a world `W` for what its calls to the outside change, and
-- returns both. A nil error, pointer or interface is `none`; an operation that returns a value and an
-- error returns a `Result`. Instants and durations are natural numbers of nanoseconds, the endpoint
-- pool's counter and the TOTP step wrap at 2^64, and subtraction is written where the source's result
-- cannot be negative or a negative one behaves like 0.
--
-- The loops are structural: over the chain of providers, the list of outfits, the attempts that are
-- left. No fuel is needed; the retry loop's count of attempts is the source's own bound.
--
-- Parameters, with what a theorem needs of them among its hypotheses: the providers, the tier and budget
-- readers, the price rows' repository, Mongo, Redis, JSON, password hashes, the JWT library, package net,
-- Google's endpoints, GridFS, the network, the clock, random numbers, float arithmetic, hashes, base32, unicode.ToLower, and
-- the archetype scores of archetype/archetype.go. Concurrency is modelled as a sequence of operations,
-- each under its lock, or as a step relation (the slots of Jobs/Slots, the stream of Outfits/Progress). Logging is left out.
--
-- Not modelled: the HTTP handlers except those of jobs, of logins and sessions, of the items of a wardrobe
-- and of the erasure of a user, persistence in Mongo except the rows of A/B tests, jobs, admins, users, wardrobe items and the audit log, the providers' clients, prompt rendering, detection of wardrobe items,
-- the mobile app, generated code, configuration and deployment. A download dials the resolved addresses one after
-- the other, where Go's dialer may try two at a time, each through the same check.
pub mod Prelude
pub mod Privacy
pub mod Retry
pub mod Accounts
pub mod Audit
pub mod ClientIp
pub mod Endpoints
pub mod Health
pub mod Jobs
pub mod Cascade
pub mod Routing
pub mod Budget
pub mod Outfits
pub mod Pagination
pub mod Permissions
pub mod Pricing
pub mod RateLimit
pub mod AbTests
pub mod Admins
pub mod Tokens
pub mod Totp
pub mod Wardrobe
