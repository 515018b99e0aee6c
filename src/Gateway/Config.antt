-- ===== src/Gateway/Config.antt =====
-- The configuration file of crates/ajar-gateway/src/main.rs.
use ajar_gateway.Common.{
  ◌≡◌, refl, ◌↔◌, Option, some, Result, ok, err, ok_or, >>=-eq-ok, ok-injective, ok_or-eq-ok, subst,
}
use ajar_gateway.Text.{Text}
use ajar_gateway.Text.Decode.{to_str}
use ajar_gateway.Store.Error.{IoErrorKind}
use ajar_gateway.Store.Model.{Bytes}
use ajar_gateway.Store.FilePath.{FilePath}
use ajar_gateway.Store.Backend.{FileSystem}
use ajar_gateway.Serving.Http.{Http}
use ajar_gateway.Serving.Config.{
  GatewayConfig, ValidatedConfig, ServingError, validate, IsValidated, validate_iff,
}
use ajar_gateway.Gateway.{config_read, config_parse, config_text, serving_error, load_config}

module _ {H V U B Addr S : Type 0} (http : Http H V U B)
    (from_str : Text → Option (GatewayConfig Addr)) (fs : FileSystem S) where
  -- The configuration of a file, with what it is validated to.
  pub record IsLoaded (s : S) (path : FilePath) (config : GatewayConfig Addr) : Type 0 where
    pub bytes : Bytes
    pub bytes_read : fs.read s path ≡ ok bytes
    pub contents : Text
    pub decoded : to_str bytes ≡ some contents
    pub parsed : from_str contents ≡ some config
    pub valid : ValidatedConfig Addr
    pub validated : IsValidated http config valid

  config_text-eq-ok :
      (r : Result IoErrorKind Bytes) (contents : Text)
      → config_text r ≡ ok contents
      → (bytes : Bytes) × (r ≡ ok bytes) × (to_str bytes ≡ some contents)
  config_text-eq-ok (ok bytes) contents h = (bytes, refl, ok_or-eq-ok (to_str bytes) config_read h)
  config_text-eq-ok (err e) contents h = cc

  serving_error-eq-ok :
      (r : Result ServingError (ValidatedConfig Addr)) (valid : ValidatedConfig Addr)
      → serving_error r ≡ ok valid
      → r ≡ ok valid
  serving_error-eq-ok (ok v) valid h = cc
  serving_error-eq-ok (err e) valid h = cc

  load_config-IsLoaded :
      (s : S) (path : FilePath) (config : GatewayConfig Addr)
      → load_config http from_str fs s path ≡ ok config
      → IsLoaded s path config
  unfolding load_config
  load_config-IsLoaded s path config h =
      let (contents, text_is, h1) = >>=-eq-ok (config_text (fs.read s path)) _ h in
      let (bytes, bytes_read, decoded) = config_text-eq-ok (fs.read s path) contents text_is in
      let (loaded, parsed, h2) = >>=-eq-ok (ok_or (from_str contents) config_parse) _ h1 in
      let (valid, validated, h3) = >>=-eq-ok (serving_error (validate http loaded)) _ h2 in
      subst (IsLoaded s path) (ok-injective h3) (record {
        bytes = bytes;
        bytes_read = bytes_read;
        contents = contents;
        decoded = decoded;
        parsed = ok_or-eq-ok (from_str contents) config_parse parsed;
        valid = valid;
        validated =
            (validate_iff http loaded valid).0
              (serving_error-eq-ok (validate http loaded) valid validated);
      })

  IsLoaded-load_config :
      (s : S) (path : FilePath) (config : GatewayConfig Addr)
      → IsLoaded s path config
      → load_config http from_str fs s path ≡ ok config
  unfolding load_config
  IsLoaded-load_config s path config l =
      rw (l.bytes_read, l.decoded, l.parsed, (validate_iff http config l.valid).1 l.validated)

  -- A configuration file is loaded exactly if it is read, is UTF-8, parses, and the configuration in
  -- it is one that `validate` accepts.
  pub load_config_iff :
      (s : S) (path : FilePath) (config : GatewayConfig Addr)
      → (load_config http from_str fs s path ≡ ok config) ↔ IsLoaded s path config
  load_config_iff s path config =
      (load_config-IsLoaded s path config, IsLoaded-load_config s path config)
