-- ===== src/Lib.antt =====
-- A verification library for Pivot's control plane, the Go packages under internal/.
--
-- The parts and how they interact. A request runs in a tenant scope (internal/tenant), and past
-- a rate limiter (internal/api). Before a handler acts it asks the authorization checker
-- (internal/authz): a resolver that walks the group hierarchy, behind a cache of decisions. A
-- query goes through the pipeline of internal/query, which authorizes and plans it, answers it
-- from the result cache or has the governor admit it, and hands out a stream that gives
-- everything back when it is closed; the key of a cached result carries the fingerprint of the
-- caller (internal/policy), which is computed from the relations that the authorization checker
-- resolves. A session is opened, resolved and ended by the authentication service
-- (internal/auth), which is where the scope of a request comes from. The first organization and
-- its administrator come from internal/setup, and the groups of a person who signs in through a
-- provider from internal/oidc. A connection's password is sealed by the keyring of
-- internal/secrets, and what its source holds is kept in a catalog that internal/catalog brings
-- up to date.
--
-- The files. `Tenant` is internal/tenant/tenant.go. `Authz/Model` is internal/authz/model.go
-- (`RoleGrants` is `role_grants`, `ParseSubject` is `parse_subject`, and so on for every name),
-- `Authz/Check` is internal/authz/authz.go, `Authz/Graph` is internal/authz/graph.go, and
-- `Authz/Cache` is internal/authz/cache.go. `Policy` is internal/policy/policy.go.
-- `Query/Cache` is internal/query/cache.go, `Query/Governor` is internal/query/governor.go,
-- `Query/Plan` and `Query/Executor` are internal/query/executor.go, and `Query/Stream` is
-- logged_stream.go beside it, with the log of internal/store/repo/query_log.go. `Auth/Service`
-- and `Auth/Access` are internal/auth/service.go with what it calls of password.go;
-- `Auth/Store` and `Auth/SessionStore` are the repositories that it works on
-- (internal/store/repo/login_attempts.go, users.go and sessions.go) with the statements of
-- internal/store/queries. `Secrets` is internal/secrets/secrets.go and `Secrets/Resolve` is
-- resolve.go beside it. `Catalog/Sync`, `Catalog/Report`, `Catalog/Snapshot` and
-- `Catalog/Relationships` are internal/catalog, and `Catalog/Rows` is
-- internal/store/repo/catalog.go with the statements of catalog.sql. `Api/RateLimit` is
-- internal/api/ratelimit.go. `Setup` is internal/setup/setup.go with the statements that it
-- sends, and `Setup/Slug` its `Slugify`. `Oidc/Groups` is the sync of groups of
-- internal/oidc/provision.go. The children of each hold the proofs. `Common` has what they
-- share, and `Examples` runs the models and the theorems on concrete inputs.
--
-- How the code is read. A Go string is the list of its bytes. A pair of a value and an error is
-- a `Result`. A map is an association list, read through `lookup`. A method that writes to its
-- receiver returns the new record. A mutex makes a method one step; what may happen between the
-- steps of a method that is not under one mutex is a step relation (`Authz/Cache/Interleave`,
-- `Query/Governor/Admission`). A clock's reading is an argument, in nanoseconds, and does not
-- go back; the float64 tokens of the rate limiter are counted in parts of a token, without
-- rounding; a time that is stored is cut to the millisecond, as internal/store/dbtypes does. A
-- uint64 counter wraps; sizes, which the code counts up from zero, and the limits that only a
-- positive option sets are natural numbers, and the row limits and the timeout that a connection
-- and a request bring along are signed, as in the code. A connector's stream says that its rows
-- were cut off only once it has met its end (`Source.cut`), the replay of a cached result from the
-- start.
--
-- Parameters. Any statement of the authentication store may fail; which ones do is an argument
-- (`Outage`), as are the clocks, the random source, argon2 and the stored form of a hash. The
-- pipeline runs over what its repositories, checker, governor and connectors answer (`Env`),
-- and counts what they hold (`World`). The store of the resolver is a record of its three
-- queries. An address is read as ASCII. An operation of authentication is one step; what
-- another does between its statements is not modelled. AES-GCM, SHA-256 and base64 enter
-- `Secrets` as the record `Crypto`, with what their packages document as `IsSound`; the disk is
-- what each of its operations answers (`Machine`), and a file that another process writes is a
-- function from the attempt to what is read. The argon2 hash enters `Setup` as a function, and
-- its attempts run one after another, as the mutex of one process makes them: two processes on one
-- database are not modelled. A
-- sync of the catalog runs over the rows of one connection in one organization, with ids that
-- are counted up, and alone. The uuid package enters as `uuid_string`, and SHA-256 with its
-- hexadecimal form as `digest`; the theorems about who can share a cached result assume that
-- both have no collisions.
--
-- Bounds and fuel. The walk over the group hierarchy stops at the code's own bound of ten
-- levels and refuses. The eviction loop is given one round for each element, and is proved to
-- end within the bound. The loop that doubles a lockout is a recursion on the count it ranges
-- over. The wait for a key file is a recursion on its twenty attempts. Every other loop is a
-- recursion on its list.
--
-- Not modelled: the rest of HTTP, the repositories that nothing here uses, the connectors, the
-- command line, metrics, tracing and logs, because they only move data to and from other
-- systems. The rest of internal/oidc, internal/export, internal/datatype, internal/jobs,
-- internal/config, and the monitor and the supervisor that stop a query from outside, are not
-- modelled either.
pub mod Common
pub mod Tenant
pub mod Auth
pub mod Authz
pub mod Policy
pub mod Query
pub mod Api
pub mod Catalog
pub mod Examples
pub mod Oidc
pub mod Secrets
pub mod Setup
