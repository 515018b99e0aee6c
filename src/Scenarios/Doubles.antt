-- ===== src/Scenarios/Doubles.antt =====
-- The tests of crates/store, crates/signer and crates/harvester, which run the implementations that
-- stand for the real ones there. Each ends with an error or with what its assertions find.
use ajar_gateway.Common.{
  Bool, true, false, ◌&&◌, Option, none, some, [], length, get_elem?, ◌==◌, Result, ok, ◌>>=◌, ◌>>◌,
  ◌≡◌, refl,
}
use ajar_gateway.Text.{Text, codes, text_eq, utf8}
use ajar_gateway.Store.Error.{StoreError}
use ajar_gateway.Store.Backend.{StoreKey}
use ajar_gateway.Store.Backend.Memory.{Records, test_storage_backend, record_of, put_record}
use ajar_gateway.Signer.{SignerError, test_key_store, test_signature_provider}
use ajar_gateway.Conversion.{HarvesterError, HarvestRecord, test_harvest_collector}

abbrev prepared_key : StoreKey
prepared_key = record { namespace = codes "prepared"; key = codes "home" }

-- `TestStorageBackend::new`
abbrev no_records : Records
no_records = record { poisoned = false; entries = [] }

abbrev read_back : Result StoreError (Unit {0}) × Records → Result StoreError Bool
read_back (written, records) = do
  written
  value ← test_storage_backend.read records prepared_key
  ok (text_eq value (codes "view"))

unfoldable test_double_round_trips_bytes : Result StoreError Bool
unfolding text_eq record_of put_record
test_double_round_trips_bytes =
    read_back (test_storage_backend.write no_records prepared_key (codes "view"))

unfoldable test_double_resolves_configured_key : Result SignerError Bool
unfolding text_eq
test_double_resolves_configured_key = do
  let store = test_key_store (codes "test-key")
  key ← store.resolve_key (codes "test-key")
  ok (text_eq key.key_id (codes "test-key"))

unfoldable test_double_signs_without_private_key_material : Result SignerError Bool
unfolding text_eq utf8
test_double_signs_without_private_key_material = do
  signature ← test_signature_provider.sign (codes "test-key") (codes "message")
  ok (text_eq signature (codes "test-key:message"))

abbrev has_source : Option HarvestRecord → Text → Bool
has_source none source_id = false
has_source (some r) source_id = text_eq r.source_id source_id

unfoldable test_double_collects_records : Result HarvesterError Bool
unfolding text_eq
test_double_collects_records = do
  records ← test_harvest_collector.collect
  ok ((length records == 1) && has_source (get_elem? records 0) (codes "test-source"))

test_double_round_trips_bytes-passes : test_double_round_trips_bytes ≡ ok true
unfolding test_double_round_trips_bytes
test_double_round_trips_bytes-passes = refl

test_double_resolves_configured_key-passes : test_double_resolves_configured_key ≡ ok true
unfolding test_double_resolves_configured_key
test_double_resolves_configured_key-passes = refl

test_double_signs_without_private_key_material-passes :
    test_double_signs_without_private_key_material ≡ ok true
unfolding test_double_signs_without_private_key_material
test_double_signs_without_private_key_material-passes = refl

test_double_collects_records-passes : test_double_collects_records ≡ ok true
unfolding test_double_collects_records
test_double_collects_records-passes = refl
