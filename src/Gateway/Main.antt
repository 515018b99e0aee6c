-- ===== src/Gateway/Main.antt =====
-- `main`, `run` and the log lines of crates/ajar-gateway/src/main.rs. `serve` is
-- `serve_until_shutdown` with the shutdown of the process, and `encode` is `serde_json::to_string`.
use ajar_gateway.Common.{◌≡◌, refl, Option, none, some, List, [], ◌∷◌, ◌++◌, Result, ok, err}
use ajar_gateway.Text.{Text, codes}
use ajar_gateway.Store.FilePath.{FilePath}
use ajar_gateway.Store.Backend.{FileSystem}
use ajar_gateway.Serving.Http.{Http}
use ajar_gateway.Serving.Config.{GatewayConfig, ServingError}
use ajar_gateway.Gateway.{
  OsString, GatewayBinaryError, serving, parse_config_path, load_config, public_message,
}
use ajar_gateway.Gateway.Config.{IsLoaded, load_config_iff}

pub record LogLine : Type 0 where
  pub level : Text
  pub event : Text
  pub fields : List (Text × Text)

-- `log_event` of the binary: what is printed for a line.
unfoldable pub printed : (LogLine → Option Text) → LogLine → Text
printed encode line = elim (encode line) [
  | some encoded ↦ encoded
  | none ↦ codes "{\"level\":\"error\",\"event\":\"logger_encode_failed\",\"fields\":{}}"
]

abbrev pub gateway_starting : Text → LogLine
gateway_starting path = record {
  level = codes "info";
  event = codes "gateway_starting";
  fields = (codes "config_path", path) ∷ [];
}

abbrev pub gateway_stopped : LogLine
gateway_stopped = record { level = codes "info"; event = codes "gateway_stopped"; fields = [] }

abbrev pub gateway_start_failed : Text → LogLine
gateway_start_failed message = record {
  level = codes "error";
  event = codes "gateway_start_failed";
  fields = (codes "error", message) ∷ [];
}

-- The result of `run`, with the lines that it has logged, the oldest first.
abbrev Logged : Type 0
Logged = Result GatewayBinaryError (Unit {0}) × List LogLine

abbrev joined : Result ServingError (Unit {0}) → Logged
joined (ok _) = (ok tt, gateway_stopped ∷ [])
joined (err e) = (err (serving e), [])

module _ {Addr : Type 0} (display : OsString → Text)
    (serve : GatewayConfig Addr → Result ServingError (Unit {0})) where
  abbrev configured : OsString → Result GatewayBinaryError (GatewayConfig Addr) → Logged
  configured config_path (err e) = (err e, [])
  configured config_path (ok config) =
      let (result, lines) = joined (serve config) in
      (result, gateway_starting (display config_path) ∷ lines)

module _ {H V U B Addr S : Type 0} (http : Http H V U B)
    (from_str : Text → Option (GatewayConfig Addr)) (fs : FileSystem S) (display : OsString → Text)
    (serve : GatewayConfig Addr → Result ServingError (Unit {0})) where
  abbrev located : S → Result GatewayBinaryError OsString → Logged
  located s (err e) = (err e, [])
  located s (ok config_path) =
      configured display serve config_path (load_config http from_str fs s config_path)

  unfoldable pub run : S → List OsString → Option OsString → Logged
  run s args env_path = located s (parse_config_path args env_path)

pub data ExitCode : Type 0 where
  success failure : ExitCode

-- `lossy` is `to_string_lossy`.
abbrev exited : (OsString → Text) → Logged → ExitCode × List LogLine
exited lossy (ok _, lines) = (success, lines)
exited lossy (err e, lines) = (failure, lines ++ gateway_start_failed (public_message lossy e) ∷ [])

module _ {H V U B Addr S : Type 0} (http : Http H V U B)
    (from_str : Text → Option (GatewayConfig Addr)) (fs : FileSystem S)
    (lossy display : OsString → Text)
    (serve : GatewayConfig Addr → Result ServingError (Unit {0})) where
  -- `main` of the binary.
  unfoldable pub main : S → List OsString → Option OsString → ExitCode × List LogLine
  unfolding run
  main s args env_path = exited lossy (run http from_str fs display serve s args env_path)

  -- The ways of the process: its exit code, and the lines it logs.
  pub data Ran (s : S) (args : List OsString) (env_path : Option OsString)
      (outcome : ExitCode × List LogLine) : Type 0 where
    not_located :
        (e : GatewayBinaryError)
        → parse_config_path args env_path ≡ err e
        → outcome ≡ (failure, gateway_start_failed (public_message lossy e) ∷ [])
        → Ran s args env_path outcome
    not_loaded :
        (path : FilePath) (e : GatewayBinaryError)
        → parse_config_path args env_path ≡ ok path
        → load_config http from_str fs s path ≡ err e
        → outcome ≡ (failure, gateway_start_failed (public_message lossy e) ∷ [])
        → Ran s args env_path outcome
    not_served :
        (path : FilePath) (config : GatewayConfig Addr) (e : ServingError)
        → parse_config_path args env_path ≡ ok path
        → IsLoaded http from_str fs s path config
        → serve config ≡ err e
        → outcome ≡ (
          failure,
          gateway_starting (display path)
              ∷ gateway_start_failed (public_message lossy (serving e))
              ∷ [],
        )
        → Ran s args env_path outcome
    stopped :
        (path : FilePath) (config : GatewayConfig Addr)
        → parse_config_path args env_path ≡ ok path
        → IsLoaded http from_str fs s path config
        → serve config ≡ ok tt
        → outcome ≡ (success, gateway_starting (display path) ∷ gateway_stopped ∷ [])
        → Ran s args env_path outcome

  configured-Ran :
      (s : S) (args : List OsString) (env_path : Option OsString) (path : FilePath)
      (config : GatewayConfig Addr) (r : Result ServingError (Unit {0}))
      → parse_config_path args env_path ≡ ok path
      → IsLoaded http from_str fs s path config
      → serve config ≡ r
      → Ran s args env_path
          (exited lossy ((joined r).0, gateway_starting (display path) ∷ (joined r).1))
  configured-Ran s args env_path path config (err e) located loaded h =
      not_served path config e located loaded h refl
  configured-Ran s args env_path path config (ok tt) located loaded h =
      stopped path config located loaded h refl

  loaded-Ran :
      (s : S) (args : List OsString) (env_path : Option OsString) (path : FilePath)
      (r : Result GatewayBinaryError (GatewayConfig Addr))
      → parse_config_path args env_path ≡ ok path
      → load_config http from_str fs s path ≡ r
      → Ran s args env_path (exited lossy (configured display serve path r))
  loaded-Ran s args env_path path (err e) located h = not_loaded path e located h refl
  loaded-Ran s args env_path path (ok config) located h =
      configured-Ran s args env_path path config (serve config) located
        ((load_config_iff http from_str fs s path config).0 h) refl

  -- The process succeeds only where the command line or the environment names a configuration file,
  -- the file loads, and serving ends without an error; it then logs its start and its stop. In every
  -- other case it fails, and its last line has the message of the error; the start is logged exactly
  -- where the configuration was accepted.
  pub main-Ran :
      (s : S) (args : List OsString) (env_path : Option OsString)
      → Ran s args env_path (main s args env_path)
  unfolding main run
  main-Ran s args env_path = by_path (parse_config_path args env_path) refl
    where
      by_path :
          (r : Result GatewayBinaryError OsString)
          → parse_config_path args env_path ≡ r
          → Ran s args env_path (exited lossy (located http from_str fs display serve s r))
      by_path (err e) h = not_located e h refl
      by_path (ok path) h =
          loaded-Ran s args env_path path (load_config http from_str fs s path) h refl
