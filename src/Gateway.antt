-- ===== src/Gateway.antt =====
-- The binary, crates/ajar-gateway/src/main.rs: the command line, the configuration file and the
-- messages of its errors. An `OsString` is its bytes.
pub mod Laws
pub mod Config
pub mod Main
pub mod Process
use ajar_gateway.Common.{
  ℕ, Bool, true, false, Option, none, some, List, [], ◌∷◌, ◌++◌, if◌then◌else◌, Result, ok, err,
  ◌>>=◌, ok_or,
}
use ajar_gateway.Text.{Text, codes, text_eq}
use ajar_gateway.Text.Decode.{to_str}
use ajar_gateway.Store.Error.{IoErrorKind}
use ajar_gateway.Store.Model.{Bytes}
use ajar_gateway.Store.FilePath.{FilePath}
use ajar_gateway.Store.Backend.{FileSystem}
use ajar_gateway.Serving.Http.{Http}
use ajar_gateway.Serving.Config.{
  GatewayConfig, ValidatedConfig, ServingError, validate, invalid_origin_url,
  unsupported_origin_scheme, invalid_timeout, invalid_body_limit, bind_failed, proxy_server_failed,
  admin_server_failed, store_load_failed,
}

abbrev pub OsString : Type 0
OsString = List ℕ

-- The cause of `ConfigParse` and of `ConfigRead` is left out.
pub data GatewayBinaryError : Type 0 where
  missing_config_path missing_config_value : GatewayBinaryError
  unknown_argument : OsString → GatewayBinaryError
  config_read config_parse : GatewayBinaryError
  serving : ServingError → GatewayBinaryError

abbrev pub config_flag : OsString
config_flag = codes "--config"

-- The loop over the arguments, with the path found so far.
unfoldable pub parse_args : List OsString → Option OsString → Result GatewayBinaryError OsString
parse_args [] config_path = ok_or config_path missing_config_path
parse_args (arg ∷ []) config_path =
    if text_eq arg config_flag then err missing_config_value else err (unknown_argument arg)
parse_args (arg ∷ value ∷ args) config_path =
    let rest = parse_args args (some value) in
    if text_eq arg config_flag then rest else err (unknown_argument arg)

unfoldable pub parse_config_path :
    List OsString → Option OsString → Result GatewayBinaryError OsString
parse_config_path args env_path = parse_args args env_path

-- `From<ServingError>`
abbrev pub serving_error {ℓ} : {A : Type ℓ} → Result ServingError A → Result GatewayBinaryError A
serving_error (ok a) = ok a
serving_error (err e) = err (serving e)

-- The text of a file that was read.
abbrev pub config_text : Result IoErrorKind Bytes → Result GatewayBinaryError Text
config_text (err e) = err config_read
config_text (ok contents) = ok_or (to_str contents) config_read

module _ {H V U B Addr S : Type 0} (http : Http H V U B)
    (from_str : Text → Option (GatewayConfig Addr)) (fs : FileSystem S) where
  -- `from_str` is `toml::from_str`.
  unfoldable pub load_config : S → FilePath → Result GatewayBinaryError (GatewayConfig Addr)
  load_config s path = do
    contents ← config_text (fs.read s path)
    config ← ok_or (from_str contents) config_parse
    _valid ← serving_error (validate http config)
    ok config

abbrev pub serving_error_text : ServingError → Text
serving_error_text invalid_origin_url =
    codes "origin_url must be an absolute URL with scheme and authority"
serving_error_text unsupported_origin_scheme = codes "origin_url must use http for T1.1"
serving_error_text invalid_timeout = codes "request_timeout_ms must be greater than zero"
serving_error_text invalid_body_limit = codes "max_body_bytes must be greater than zero"
serving_error_text bind_failed = codes "listener bind failed"
serving_error_text proxy_server_failed = codes "proxy server failed"
serving_error_text admin_server_failed = codes "admin server failed"
serving_error_text (store_load_failed _) = codes "prepared content store invalid"

-- `lossy` is `to_string_lossy`.
unfoldable pub public_message : (OsString → Text) → GatewayBinaryError → Text
public_message lossy missing_config_path =
    codes "missing config path; set AJAR_GATEWAY_CONFIG or pass --config"
public_message lossy missing_config_value = codes "missing value after --config"
public_message lossy (unknown_argument argument) = codes "unknown argument: " ++ lossy argument
public_message lossy config_read = codes "failed to read config"
public_message lossy config_parse = codes "failed to parse config"
public_message lossy (serving error) = serving_error_text error
