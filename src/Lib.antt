-- ===== src/Lib.antt =====
-- The gateway of this repository puts signed, prepared content (a manifest, an index and Views of
-- pages) in front of an origin server. This library models the two crates that do the work, the
-- binary that starts them and the interfaces of the others, and proves what makes them correct.
--
-- The parts, with the paths of their code from the repository's root:
--   crates/store/src/lib.rs reads the prepared content of a directory once, checks it, and holds
--     it in memory. Its model is Store: Error and Model (the errors and structs), Backend (the
--     storage backend over a file system), FilePath (paths), Time (timestamps), Target (the
--     request target of a View's URL), Etag (entity tags), Clock (the wall clock), Validate
--     (required fields and lifecycle) and Load (`PreparedContentStore` and `load_from_dir`).
--   crates/serving/src/lib.rs answers requests from the store or sends them to the origin, and swaps
--     the store on a reload. Its model is Serving: Config (`GatewayConfig::validate`), Negotiate
--     (`negotiate`), Http and Headers (header handling), State (`ProxyState`, metrics and log),
--     Problem (problem documents), Serve (the four answers from the store), Upstream (the request to
--     the origin), Proxy (`proxy_request`; its children go through the ways of a request: Routes,
--     the metrics in Account and Answers, the content in Offer, Contents and Published), Reload
--     (`reload_store` and the admin routes; Reload.Steps is the system of both listeners, and the
--     modules beside it hold what every reachable state keeps) and Start
--     (`serve_until_shutdown_with_clock`: the start, and in Start.Routers and Start.Shutdown the
--     routes, the shutdown signal and the end). Atomic takes the handlers apart into their atomic
--     operations on the shared state, and Atomic.Works lets them meet at any of these.
--   crates/ajar-gateway/src/main.rs parses the command line and the configuration file: Gateway, with
--     `run` and `main` in Gateway.Main and the whole process in Gateway.Process.
--   crates/signer/src/lib.rs is Signer, crates/policy-engine/src/lib.rs is PolicyEngine, and
--     crates/harvester/src/lib.rs, crates/extractor/src/lib.rs and crates/inducer/src/lib.rs are
--     Conversion: errors and interfaces, with the implementations of their tests.
--   The tests in these files are Scenarios: the origin, the clock, the store directory and the client
--     that the tests of crates/serving/src/lib.rs set up, and each test as a run of the model, with a
--     disk and a JSON reader that are instances of the parameters. Scenarios.Tests and
--     Scenarios.Doubles run them.
-- Functions keep their names. A method that changes shared state takes the state and returns it with
-- its answer; an error is a `Result`. Text is what the code uses of Rust's strings, Common what all
-- parts share, and Examples holds a site and a header map on which the theorems are applied.
--
-- Parameters stand for the code that the crates call: `Http` for the crates http, hyper and axum
-- (`HeaderLaws` states how a header map behaves), `Serde` for serde_json, `FileSystem` for std::fs, an
-- `Exchange` for what comes of a request to the origin, and the clock is the argument `now`.
--
-- Numbers: the counters and the hash wrap at 64 bits, as in the code. The timestamps are integers
-- without bounds in Store.Time; Store.Time.Civil.Checked has the day count with every operation
-- checked as an `i32`. The printing of decimal numbers runs on fuel, one round more than the number,
-- and each round drops a digit; the JSON reader of Scenarios has three rounds for each token and one
-- more, and each round takes a token or is followed by one that does; every other loop goes over a list.
--
-- In Reload.Steps a request is two steps, its arrival, where it is counted and reads the store, and
-- its answer; a reload is the loading, what it does under the write lock, and the count, the flag and
-- the line behind it, each a step of its own. Any number of both may be under way. Atomic is finer
-- for requests: there each counter that they raise, and the flag of the expiry with its line, is an
-- operation of its own.
--
-- Not modelled: sockets, the HTTP client, and the JSON form of log lines, which are calls of
-- libraries (a body is a value in Serving, and printed in Scenarios.Client); the causes that errors
-- carry.
pub mod Common
pub mod Text
pub mod Store
pub mod Serving
pub mod Gateway
pub mod Signer
pub mod Conversion
pub mod PolicyEngine
pub mod Examples
pub mod Scenarios
