-- ===== src/Serving/Config.antt =====
-- Configuration and errors of crates/serving/src/lib.rs. `Addr` is `SocketAddr`; the causes that an
-- error carries are left out, and that of a store is kept.
use ajar_gateway.Common.{
  ℕ, ◌*◌, Bool, true, false, not, Option, some, ◌==◌, Result, ok, ◌>>=◌, ◌>>◌, fail_if, ok_or, ◌≡◌,
  ◌≢◌, ◌↔◌, refl, arith, >>=-eq-ok, sym, ok-injective, subst, ok_or-eq-ok,
}
use ajar_gateway.Text.{Text, codes, text_eq}
use ajar_gateway.Text.Laws.{text_eq_iff}
use ajar_gateway.Store.Error.{StoreLoadError}
use ajar_gateway.Store.FilePath.{FilePath}
use ajar_gateway.Serving.Http.{Http}

abbrev pub default_request_timeout_ms : ℕ
default_request_timeout_ms = 30_000

abbrev pub default_max_body_bytes : ℕ
default_max_body_bytes = 10 * 1024 * 1024

pub record GatewayConfig (Addr : Type 0) : Type 0 where
  pub origin_url : Text
  pub listen_addr : Addr
  pub admin_addr : Addr
  pub request_timeout_ms : ℕ
  pub max_body_bytes : ℕ
  pub store_dir : Option FilePath

pub record ValidatedConfig (Addr : Type 0) : Type 0 where
  pub origin_scheme : Text
  pub origin_authority : Text
  pub listen_addr : Addr
  pub admin_addr : Addr
  -- in milliseconds
  pub request_timeout : ℕ
  pub max_body_bytes : ℕ
  pub store_dir : Option FilePath

pub data ServingError : Type 0 where
  invalid_origin_url unsupported_origin_scheme invalid_timeout invalid_body_limit : ServingError
  bind_failed proxy_server_failed admin_server_failed : ServingError
  store_load_failed : StoreLoadError → ServingError

fail_if_zero : (n : ℕ) (e : ServingError) (u : Unit {0}) → fail_if (n == 0) e ≡ ok u → n ≢ 0
fail_if_zero n e u h = ground arith

fail_if-not : (b : Bool) (e : ServingError) (u : Unit {0}) → fail_if (not b) e ≡ ok u → b ≡ true
fail_if-not b e u h = ground arith

nonzero : (n : ℕ) → n ≢ 0 → (n == 0) ≡ false
nonzero n h = ground arith

module _ {H V U B Addr : Type 0} (http : Http H V U B) where
  unfoldable pub validate : GatewayConfig Addr → Result ServingError (ValidatedConfig Addr)
  validate config = do
    origin_uri ← ok_or (http.parse_uri config.origin_url) invalid_origin_url
    scheme ← ok_or (http.scheme origin_uri) invalid_origin_url
    fail_if (not (text_eq scheme (codes "http"))) unsupported_origin_scheme
    authority ← ok_or (http.authority origin_uri) invalid_origin_url
    fail_if (config.request_timeout_ms == 0) invalid_timeout
    fail_if (config.max_body_bytes == 0) invalid_body_limit
    ok (record {
      origin_scheme = scheme;
      origin_authority = authority;
      listen_addr = config.listen_addr;
      admin_addr = config.admin_addr;
      request_timeout = config.request_timeout_ms;
      max_body_bytes = config.max_body_bytes;
      store_dir = config.store_dir;
    })

  -- What a validated configuration holds of the one it comes from.
  pub record IsValidated (config : GatewayConfig Addr) (valid : ValidatedConfig Addr) : Type 0 where
    pub origin : U
    pub origin_is : http.parse_uri config.origin_url ≡ some origin
    pub scheme_http : valid.origin_scheme ≡ codes "http"
    pub scheme_is : http.scheme origin ≡ some valid.origin_scheme
    pub authority_is : http.authority origin ≡ some valid.origin_authority
    pub timeout_pos : config.request_timeout_ms ≢ 0
    pub limit_pos : config.max_body_bytes ≢ 0
    pub listen_kept : valid.listen_addr ≡ config.listen_addr
    pub admin_kept : valid.admin_addr ≡ config.admin_addr
    pub timeout_kept : valid.request_timeout ≡ config.request_timeout_ms
    pub limit_kept : valid.max_body_bytes ≡ config.max_body_bytes
    pub store_kept : valid.store_dir ≡ config.store_dir

  validate-IsValidated :
      (config : GatewayConfig Addr) (valid : ValidatedConfig Addr)
      → validate config ≡ ok valid
      → IsValidated config valid
  unfolding validate
  validate-IsValidated config valid h =
      let (origin, parsed, h1) =
        >>=-eq-ok (ok_or (http.parse_uri config.origin_url) invalid_origin_url) _ h in
      let (scheme, schemed, h2) = >>=-eq-ok (ok_or (http.scheme origin) invalid_origin_url) _ h1 in
      let (u, is_http, h3) =
        >>=-eq-ok (fail_if (not (text_eq scheme (codes "http"))) unsupported_origin_scheme) _ h2 in
      let (authority, authorised, h4) =
        >>=-eq-ok (ok_or (http.authority origin) invalid_origin_url) _ h3 in
      let (u', timed, h5) =
        >>=-eq-ok (fail_if (config.request_timeout_ms == 0) invalid_timeout) _ h4 in
      let (u'', sized, h6) =
        >>=-eq-ok (fail_if (config.max_body_bytes == 0) invalid_body_limit) _ h5 in
      subst (IsValidated config) (ok-injective h6) (record {
        origin = origin;
        origin_is = ok_or-eq-ok (http.parse_uri config.origin_url) invalid_origin_url parsed;
        scheme_http = (text_eq_iff scheme (codes "http")).0 (fail_if-not _ _ u is_http);
        scheme_is = ok_or-eq-ok (http.scheme origin) invalid_origin_url schemed;
        authority_is = ok_or-eq-ok (http.authority origin) invalid_origin_url authorised;
        timeout_pos = fail_if_zero config.request_timeout_ms _ u' timed;
        limit_pos = fail_if_zero config.max_body_bytes _ u'' sized;
        listen_kept = refl;
        admin_kept = refl;
        timeout_kept = refl;
        limit_kept = refl;
        store_kept = refl;
      })

  IsValidated-validate :
      (config : GatewayConfig Addr) (valid : ValidatedConfig Addr)
      → IsValidated config valid
      → validate config ≡ ok valid
  unfolding validate
  IsValidated-validate config valid v =
      rw
        (
          v.origin_is,
          v.scheme_is,
          (text_eq_iff valid.origin_scheme (codes "http")).1 v.scheme_http,
          v.authority_is,
          nonzero _ v.timeout_pos,
          nonzero _ v.limit_pos,
        )
        (sym (λ i. ok (record {
          origin_scheme = valid.origin_scheme;
          origin_authority = valid.origin_authority;
          listen_addr = v.listen_kept i;
          admin_addr = v.admin_kept i;
          request_timeout = v.timeout_kept i;
          max_body_bytes = v.limit_kept i;
          store_dir = v.store_kept i;
        })))

  -- `validate` accepts a configuration exactly if its origin is a URI with the scheme http and an
  -- authority, and the timeout and the body limit are not 0; the result holds the same settings.
  pub validate_iff :
      (config : GatewayConfig Addr) (valid : ValidatedConfig Addr)
      → (validate config ≡ ok valid) ↔ IsValidated config valid
  validate_iff config valid = (validate-IsValidated config valid, IsValidated-validate config valid)
