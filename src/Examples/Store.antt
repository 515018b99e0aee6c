-- ===== src/Examples/Store.antt =====
-- Instances of the theorems on crates/store.
use ajar_gateway.Common.{◌≡◌, ◌≢◌, ◌↔◌, refl, none, List, [], ◌∷◌, ◌++◌, ok, arith}
use ajar_gateway.Common.Int.{pos, ◌-ℤ◌}
use ajar_gateway.Common.Map.{HasDistinctKeys}
use ajar_gateway.Text.{Text, codes, utf8}
use ajar_gateway.Store.Time.{days_from_civil, parse_rfc3339_utc}
use ajar_gateway.Store.Time.Civil.{day_number, days_from_civil-day_number}
use ajar_gateway.Store.Time.Format.{IsTimestamp, parse_rfc3339_utc_iff}
use ajar_gateway.Store.Target.{
  request_target_from_view_url, HasTarget, request_target_from_view_url_iff,
}
use ajar_gateway.Store.Etag.{strong_etag}
use ajar_gateway.Store.Etag.Laws.{strong_etag_one_byte}
use ajar_gateway.Store.Validate.{validate_manifest_lifecycle}
use ajar_gateway.Store.Validate.Laws.{IsLive, validate_manifest_lifecycle_iff}
use ajar_gateway.Store.Load.{load_views}
use ajar_gateway.Store.Load.Laws.{Entries, load_views_iff}
use ajar_gateway.Store.Load.Prepared.{IsPrepared, load_from_dir-IsPrepared}
use ajar_gateway.Examples.Site.{
  dir, site_fs, site_serde, site_store, manifest, stored_view, today, view_file, site_loads,
}

days_from_civil-day_number_example :
    days_from_civil (pos 2024) (pos 2) (pos 29)
    ≡ pos (day_number 2024 2 29) -ℤ pos (day_number 1970 1 1)
days_from_civil-day_number_example =
    days_from_civil-day_number 2024 2 29 (omega arith) (omega arith) (omega arith)

parse_rfc3339_utc_iff_example :
    (parse_rfc3339_utc (codes "2026-02-01T00:00:00Z") ≡ ok (pos 1_769_904_000))
    ↔ IsTimestamp (codes "2026-02-01T00:00:00Z") (pos 1_769_904_000)
parse_rfc3339_utc_iff_example =
    parse_rfc3339_utc_iff (codes "2026-02-01T00:00:00Z") (pos 1_769_904_000)

parses : parse_rfc3339_utc (codes "2026-02-01T00:00:00Z") ≡ ok (pos 1_769_904_000)
unfolding parse_rfc3339_utc utf8
parses = refl

parsed : IsTimestamp (codes "2026-02-01T00:00:00Z") (pos 1_769_904_000)
parsed = parse_rfc3339_utc_iff_example.0 parses

request_target_from_view_url_iff_example :
    (request_target_from_view_url (codes "https://a.b/c?d") ≡ ok (codes "/c?d"))
    ↔ HasTarget (codes "https://a.b/c?d") (codes "/c?d")
request_target_from_view_url_iff_example =
    request_target_from_view_url_iff (codes "https://a.b/c?d") (codes "/c?d")

strong_etag_one_byte_example :
    strong_etag (codes "manifest") ((1 ∷ []) ++ 2 ∷ 9 ∷ []) none
    ≢ strong_etag (codes "manifest") ((1 ∷ []) ++ 3 ∷ 9 ∷ []) none
strong_etag_one_byte_example =
    strong_etag_one_byte (codes "manifest") (1 ∷ []) (9 ∷ []) 2 3 (omega arith, tt) (omega arith)
      (omega arith) (omega arith)

validate_manifest_lifecycle_iff_example :
    (validate_manifest_lifecycle (manifest 3) today ≡ ok tt) ↔ IsLive (manifest 3) today
validate_manifest_lifecycle_iff_example = validate_manifest_lifecycle_iff (manifest 3) today

live : IsLive (manifest 3) today
unfolding validate_manifest_lifecycle parse_rfc3339_utc utf8
live = validate_manifest_lifecycle_iff_example.0 refl

load_views_iff_example :
    ((seen : List Text) × (load_views site_serde site_fs 3 dir (view_file ∷ []) ([], [])
        ≡ ok ((codes "/a", stored_view) ∷ [], seen)))
    ↔ (Entries site_serde site_fs 3 dir (view_file ∷ []) ((codes "/a", stored_view) ∷ [])
        × HasDistinctKeys ((codes "/a", stored_view) ∷ []))
load_views_iff_example =
    load_views_iff site_serde site_fs 3 dir (view_file ∷ []) ((codes "/a", stored_view) ∷ [])

load_from_dir-IsPrepared_example : IsPrepared site_serde site_fs 3 dir today (site_store 3)
load_from_dir-IsPrepared_example =
    load_from_dir-IsPrepared site_serde site_fs 3 dir today (site_store 3) site_loads
