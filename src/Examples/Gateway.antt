-- ===== src/Examples/Gateway.antt =====
-- Instances of the theorems on crates/ajar-gateway.
use ajar_gateway.Common.{◌≡◌, ◌↔◌, refl, ℕ, true, none, some, [], ◌∷◌, ok}
use ajar_gateway.Text.{codes, text_eq, starts_with, strip_prefix}
use ajar_gateway.Text.Decode.{to_str}
use ajar_gateway.Serving.Config.{validate}
use ajar_gateway.Gateway.{config_flag, parse_args, parse_config_path, load_config}
use ajar_gateway.Gateway.Config.{IsLoaded, load_config_iff}
use ajar_gateway.Gateway.Main.{Ran, success, run, main, main-Ran}
use ajar_gateway.Serving.State.{ProxyState}
use ajar_gateway.Serving.Start.Shutdown.{Run, graceful}
use ajar_gateway.Gateway.Process.{process, IsFinished, process_iff}
use ajar_gateway.Examples.Headers.{map_http}
use ajar_gateway.Examples.Site.{site_fs, site_serde}
use ajar_gateway.Examples.Serving.{config}
use ajar_gateway.Gateway.Laws.{GivesPath, parse_config_path_iff}

parse_config_path_iff_example :
    (parse_config_path (config_flag ∷ codes "a" ∷ config_flag ∷ codes "b" ∷ []) (some (codes "c"))
      ≡ ok (codes "b"))
    ↔ GivesPath
        (config_flag ∷ codes "a" ∷ config_flag ∷ codes "b" ∷ [])
        (some (codes "c"))
        (codes "b")
parse_config_path_iff_example =
    parse_config_path_iff (config_flag ∷ codes "a" ∷ config_flag ∷ codes "b" ∷ [])
      (some (codes "c")) (codes "b")

last_wins :
    parse_config_path (config_flag ∷ codes "a" ∷ config_flag ∷ codes "b" ∷ []) (some (codes "c"))
    ≡ ok (codes "b")
unfolding parse_config_path parse_args text_eq
last_wins = refl

-- A parser that finds the same configuration in every text.
load_config_iff_example :
    (load_config map_http (λ contents. some config) site_fs 65 (codes "site/./manifest.json")
      ≡ ok config)
    ↔ IsLoaded map_http (λ contents. some config) site_fs 65 (codes "site/./manifest.json") config
load_config_iff_example =
    load_config_iff map_http (λ contents. some config) site_fs 65 (codes "site/./manifest.json")
      config

loads :
    load_config map_http (λ contents. some config) site_fs 65 (codes "site/./manifest.json")
    ≡ ok config
unfolding load_config text_eq to_str validate starts_with strip_prefix
loads = refl

main-Ran_example :
    Ran map_http
      (λ contents. some config)
      site_fs
      (λ name. name)
      (λ name. name)
      (λ configuration. ok tt)
      65
      (config_flag ∷ codes "site/./manifest.json" ∷ [])
      none
      (main map_http
        (λ contents. some config)
        site_fs
        (λ name. name)
        (λ name. name)
        (λ configuration. ok tt)
        65
        (config_flag ∷ codes "site/./manifest.json" ∷ [])
        none)
main-Ran_example =
    main-Ran map_http (λ contents. some config) site_fs (λ name. name) (λ name. name)
      (λ configuration. ok tt) 65 (config_flag ∷ codes "site/./manifest.json" ∷ []) none

runs :
    (main map_http
      (λ contents. some config)
      site_fs
      (λ name. name)
      (λ name. name)
      (λ configuration. ok tt)
      65
      (config_flag ∷ codes "site/./manifest.json" ∷ [])
      none).0
    ≡ success
unfolding main run parse_config_path parse_args load_config text_eq to_str validate starts_with
    strip_prefix
runs = refl

abbrev end_well : ProxyState ℕ ℕ → Run
end_well state = record { proxy_end = graceful; admin_end = graceful; proxy_first = true }

process_iff_example :
    ((process map_http site_serde site_fs
        (λ contents. some config)
        (λ name. name)
        (λ name. name)
        65
        (λ bound address. true)
        end_well
        (some 1_768_000_000)
        (config_flag ∷ codes "site/./manifest.json" ∷ [])
        none).0
      ≡ success)
    ↔ IsFinished map_http site_serde site_fs
        (λ contents. some config)
        (λ name. name)
        (λ name. name)
        65
        (λ bound address. true)
        end_well
        (some 1_768_000_000)
        (config_flag ∷ codes "site/./manifest.json" ∷ [])
        none
process_iff_example =
    process_iff map_http site_serde site_fs (λ contents. some config) (λ name. name) (λ name. name)
      65 (λ bound address. true) end_well (some 1_768_000_000)
      (config_flag ∷ codes "site/./manifest.json" ∷ []) none
