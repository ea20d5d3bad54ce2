-- ===== src/Lib.antt =====
-- Verification of oidc4rs, a library for OpenID Connect relying parties.
--
-- A client discovers a provider, sends the user to its authorization endpoint, keeps what it needs
-- across the redirect in a key-value store, parses the response that comes back, exchanges the code
-- for tokens, and verifies the ID token and UserInfo. Each part of the program is a file here:
--
--   Error         src/error.rs             errors and their texts
--   Time          std::time                durations, instants, system times in nanoseconds
--   Crypto        src/crypto               constant-time equality, random bytes, digests
--   Types         src/types                URL newtypes, identifiers, random state and PKCE values
--   Transport     src/transport            HTTP messages; the store's interface and its in-memory
--                                          instance (`InMemoryKvStore`); the client over hyper
--   Metadata      src/metadata             cache policy, discovery document, discovery
--   Flow          src/flow                 authorization request and response, token requests, logout
--   Token         src/token, src/claims.rs token response, ID-token and UserInfo verification
--   Debug         the `Debug` impls that hide secrets, of several files
--   Client        src/client.rs            provider state and its refresh, builders, completion, UserInfo
--   Prelude       shared helpers: Boolean tests, results, texts as bytes, lists
--   Tests         a concrete environment and runs in it
--
-- A definition has the name of the function it models where that name is free, and stands in the
-- file named after the source file: `verify` of src/token/verify.rs is `verify` of Token/Verify.antt.
-- A text is the list of its UTF-8 bytes. A `Result` is `Result`, with `?` as the bind of a do block;
-- an early `return Err` is `ensure`. Messages that `format!` joins are kept as their pieces.
--
-- Code outside the repository is a parameter. The crate url is `UrlOps`, `form_parse` and
-- `TokenOps`; jose4rs is `Jose`, `JwksOps` and `select`; serde's readers are `decode`, `Readers` and
-- `read_info`; httpdate is `http_date`; hyper is `Hyper`; the C functions are `memcmp`, `rand` and
-- `Sha2`. What the proofs assume of them is a named hypothesis: `ComparesBytes`, `NeverNull`,
-- `HaveEncodedLengths`, `QueryLaws`, `UrlLaws`, `Reparses`, `Consumes`, and the field `empty_name` of
-- `TokenOps`. The network is a function from requests to answers, over which every theorem
-- quantifies, and each reading of a clock is an argument.
--
-- State is passed explicitly. A store is a `KvStore`, an operation being one atomic function of its
-- state, and `IsAtomic` is what the trait `AsyncKvStore` documents of it; the client takes any store,
-- and Transport/Kv/Atomic.antt fills the contract for the in-memory one, a list of entries whose
-- mutex is held throughout an operation. Concurrent callers of a store are a list of calls; the
-- completions that share one are the callers of Client/Logins.antt, in any number and any order, each
-- with its take as one step and its token request as another. Transport/Kv/Table.antt is the store
-- as a quotient that forgets the order of the entries. Client/Complete/Exact.antt lists every way in
-- which a completion ends, Client/Complete/Refusal.antt every reason to make no token request, and
-- Token/Verify/Faults.antt every reason for which an ID token is refused.
--
-- The provider state is behind a read-write lock; each section that holds the lock is a function of
-- it. In Client/Refresh/Tasks.antt every task of a client is a program of its own, with a place for
-- each await, any number of them run in any order with the setters, and a caller may drop a refresh
-- at an await. The functions of Client/Refresh.antt are one task with no other, which is what a
-- completion runs. Client/Service.antt puts the tasks of a client and its callers together, whose
-- documents are then those that its refreshes return. Client/Refresh/Steps.antt is the abstract view
-- of the tasks: the state, and the snapshot of the task that refreshes. How a refresh, a discovery
-- and a UserInfo request end is in Client/Refresh/Outcomes.antt, Metadata/Discovery/Outcomes.antt and
-- Client/Info/Exact.antt.
--
-- An issuer keeps the text that it was given, with its trailing slash where it has one, and that text
-- is what the verifier of a client expects. The logout builder refers to its client: the document is
-- an argument of its `build`. The keys of a cache are asked for through `fetch_keys` of
-- Client/Keys.antt over the network of that call.
--
-- All recursion is structural, but for the decimal digits of `max_age`, whose fuel of 20 digits
-- holds every 64-bit number, and the loop of `validate_encoded_component` with its index, whose fuel
-- of one more than the bytes is enough; the parser itself uses the structural form of that loop.
-- Instants are bounded by `instant_limit`, where `checked_add` fails.
--
-- Not modelled: the choice of the C library (src/crypto/backend.rs), which only calls other code; the
-- making of hyper's connection pool, and hyper itself, which is the parameter `Hyper`; derived `Debug`
-- impls, which print every field; serde derives; the panic on a failed random generator, which ends
-- the process.
pub mod Prelude
pub mod Error
pub mod Time
pub mod Crypto
pub mod Types
pub mod Transport
pub mod Metadata
pub mod Flow
pub mod Token
pub mod Debug
pub mod Client
pub mod Tests
