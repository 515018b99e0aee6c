-- ===== src/Examples.antt =====
-- Runs of the theorems at concrete inputs: a header map that is a list of pairs (Headers), a site in
-- a directory (Site), and the instances for the crates store, serving and ajar-gateway.
pub mod Headers
pub mod Site
mod Store
mod Backend
mod Serving
mod Proxy
mod Reload
mod Negotiation
mod Time
mod Start
mod Revalidation
mod Published
mod Loading
mod Passing
mod Interleaving
mod Gateway
