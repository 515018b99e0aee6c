-- ===== src/Scenarios/Gateway.antt =====
-- What the tests of crates/serving/src/lib.rs do with a gateway: `spawn_gateway`,
-- `spawn_gateway_with_store`, `get_markdown_body`, `post_reload` and `TestClock`. A test is a run
-- over the disk, the clock and the gateway, which ends early where a `?` or an assertion fails.
use ajar_gateway.Common.{ℕ, ◌+◌, Bool, true, false, Option, none, some, List, Result, ok, err}
use ajar_gateway.Common.Int.{ℤ}
use ajar_gateway.Text.{Text, codes, utf8}
use ajar_gateway.Store.Clock.{Clock}
use ajar_gateway.Store.Error.{IoErrorKind}
use ajar_gateway.Store.FilePath.{FilePath}
use ajar_gateway.Serving.Config.{GatewayConfig, ServingError}
use ajar_gateway.Serving.State.{ProxyState}
use ajar_gateway.Serving.Start.{start}
use ajar_gateway.Scenarios.Json.{Json}
use ajar_gateway.Scenarios.Serde.{json_serde}
use ajar_gateway.Scenarios.Fixture.{rewrite_store_fixture, write_store_fixture, fixture_dir}
use ajar_gateway.Scenarios.Disk.{Disk, disk_fs}
use ajar_gateway.Scenarios.Wire.{wire_http}
use ajar_gateway.Scenarios.Origin.{OriginRoute, origin_routes}

-- `TestClock`
abbrev pub test_clock : Clock ℤ
test_clock = record { now_unix_seconds = λ now. now }

pub record World : Type 0 where
  pub disk : Disk
  pub temp_counter : ℕ
  pub clock : ℤ
  pub origin_server : Option (List OriginRoute)
  pub gateway : Option (ProxyState Text Json)

abbrev pub Test : Type 0 → Type 0
Test A = World → Option (A × World)

infixl 1 ◌>>=◌ ◌>>◌
abbrev pub ◌>>=◌ : {A B : Type 0} → Test A → (A → Test B) → Test B
(test >>= next) world = elim (test world) [ none ↦ none | some result ↦ next result.0 result.1 ]

abbrev pub ◌>>◌ : {B : Type 0} → Test (Unit {0}) → Test B → Test B
test >> next = test >>= λ _. next

-- `assert!`
abbrev pub assert : Bool → Test (Unit {0})
assert true world = some (tt, world)
assert false world = none

-- `ok_or_else` and `?`
abbrev pub found : {A : Type 0} → Option A → Test A
found none world = none
found (some a) world = some (a, world)

-- `TestClock::set`
abbrev pub set_clock : ℤ → Test (Unit {0})
set_clock now world = some (tt, record world { clock = now })

abbrev started : World → Result ServingError (ProxyState Text Json) → Option (Unit {0} × World)
started world (ok state) = some (tt, record world { gateway = some state })
started world (err e) = none

-- The configuration of the two functions that start a gateway, with free addresses.
abbrev pub gateway_config : ℕ → Option FilePath → GatewayConfig Text
gateway_config max_body_bytes store_dir = record {
  origin_url = codes "http://127.0.0.1:4000";
  listen_addr = codes "127.0.0.1:4001";
  admin_addr = codes "127.0.0.1:4002";
  request_timeout_ms = 5_000;
  max_body_bytes = max_body_bytes;
  store_dir = store_dir;
}

unfoldable pub spawn : ℕ → Option FilePath → Test (Unit {0})
unfolding start
spawn max_body_bytes store_dir world = started world (
    start wire_http json_serde disk_fs world.disk (λ bound addr. true)
      (gateway_config max_body_bytes store_dir) world.clock)

-- The clock of the system is not read without a store.
abbrev pub spawn_gateway : ℕ → Test (Unit {0})
spawn_gateway max_body_bytes = spawn max_body_bytes none

abbrev pub spawn_gateway_with_store : ℕ → FilePath → Test (Unit {0})
spawn_gateway_with_store max_body_bytes store_dir = spawn max_body_bytes (some store_dir)

abbrev io : World → Result IoErrorKind (Unit {0}) × Disk → Option (Unit {0} × World)
io world (ok u, disk) = some (u, record world { disk = disk })
io world (err e, disk) = none

abbrev pub rewrite_fixture : FilePath → ℕ → Text → Text → Text → Test (Unit {0})
rewrite_fixture dir sequence heading paragraph view_etag world =
    io world (rewrite_store_fixture disk_fs world.disk dir sequence heading paragraph view_etag)

abbrev pub write_file_at : FilePath → Text → Test (Unit {0})
write_file_at path contents world = io world (disk_fs.write world.disk path (utf8 contents))

abbrev temp_dir : FilePath
temp_dir = codes "/tmp"

abbrev next_nonce : Test ℕ
next_nonce world = some (world.temp_counter, record world { temp_counter = world.temp_counter + 1 })

abbrev written : ℕ → Test (Unit {0})
written nonce world = io world (write_store_fixture disk_fs world.disk temp_dir 77 nonce)

abbrev pub returning : {A : Type 0} → A → Test A
returning a world = some (a, world)

abbrev pub write_fixture : Test FilePath
write_fixture = do nonce ← next_nonce; written nonce; returning (fixture_dir temp_dir 77 nonce)

-- `spawn_app`, and what becomes of the server at its `shutdown`.
abbrev pub spawn_app : List OriginRoute → Test (Unit {0})
spawn_app routes world = some (tt, record world { origin_server = some routes })

abbrev pub spawn_origin : Test (Unit {0})
spawn_origin = spawn_app origin_routes

abbrev shutdown_origin : Test (Unit {0})
shutdown_origin world = some (tt, record world { origin_server = none })

abbrev shutdown_gateway : Test (Unit {0})
shutdown_gateway world = some (tt, record world { gateway = none })

-- The end of a test.
abbrev pub shutdown : Test (Unit {0})
shutdown = do shutdown_gateway; shutdown_origin
