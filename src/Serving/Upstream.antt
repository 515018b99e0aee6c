-- ===== src/Serving/Upstream.antt =====
-- The request to the origin in crates/serving/src/lib.rs: the declared length, the address, the
-- headers and the capped body. `usize` has 64 bits, so the cap is `max_body_bytes`.
pub mod Laws
pub mod Errors
use ajar_gateway.Common.{
  ℕ, Bool, true, false, Option, none, some, List, [], ◌∷◌, ◌++◌, if◌then◌else◌, ltb, Result, ok,
  err, ◌>>=◌, ◌>>◌, fail_if, ok_or,
}
use ajar_gateway.Text.{Text, codes}
use ajar_gateway.Text.Number.{parse_u64}
use ajar_gateway.Serving.Http.{Http, Request, first}
use ajar_gateway.Serving.Headers.{content_length, strip_hop_by_hop_headers}
use ajar_gateway.Serving.Config.{ValidatedConfig}
use ajar_gateway.Serving.Problem.{
  ProxyHttpError, invalid_content_length, request_body_too_large, invalid_upstream_uri,
}

-- `path_and_query()`, or a slash where there is none.
abbrev pub target_or_root : Option Text → Text
target_or_root none = codes "/"
target_or_root (some target) = target

-- The body is longer than the limit, by its declared length.
abbrev pub exceeds : Option ℕ → ℕ → Bool
exceeds none limit = false
exceeds (some length) limit = ltb limit length

module _ {H V U B : Type 0} (http : Http H V U B) where
  unfoldable pub request_target : U → Text
  request_target uri = target_or_root (http.path_and_query uri)

  abbrev parsed_length : Option Text → Result ProxyHttpError (Option ℕ)
  parsed_length none = err invalid_content_length
  parsed_length (some text) = elim (parse_u64 text) [
    | none ↦ err invalid_content_length
    | some length ↦ ok (some length)
  ]

  abbrev length_of : Option V → Result ProxyHttpError (Option ℕ)
  length_of none = ok none
  length_of (some value) = parsed_length (http.value_text value)

  unfoldable pub declared_content_length : H → Result ProxyHttpError (Option ℕ)
  declared_content_length headers = length_of (first (http.get_all headers content_length))

  unfoldable pub build_upstream_request :
      {Addr : Type 0} → ValidatedConfig Addr → Request H U B → Result ProxyHttpError (Request H U B)
  build_upstream_request config request = do
    declared ← declared_content_length request.headers
    fail_if (exceeds declared config.max_body_bytes) request_body_too_large
    uri ←
        ok_or
          (http.parse_uri (
            config.origin_scheme
            ++ (codes "://" ++ (config.origin_authority ++ request_target request.uri))))
          invalid_upstream_uri
    ok (record {
      method = request.method;
      uri = uri;
      headers = strip_hop_by_hop_headers http request.headers;
      body = http.limited request.body config.max_body_bytes;
    })
