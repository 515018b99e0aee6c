-- ===== src/Serving/Upstream/Laws.antt =====
-- What crates/serving/src/lib.rs sends to the origin, and what it refuses to send.
use ajar_gateway.Common.{
  ℕ, ◌≤◌, ◌≡◌, refl, sym, ◌↔◌, false, Option, none, some, ◌++◌, arith, ok, >>=-eq-ok, ok-injective,
  ok_or, ok_or-eq-ok, fail_if, subst,
}
use ajar_gateway.Text.{Text, codes}
use ajar_gateway.Serving.Http.{Http, Request}
use ajar_gateway.Serving.Headers.{strip_hop_by_hop_headers}
use ajar_gateway.Serving.Config.{ValidatedConfig}
use ajar_gateway.Serving.Problem.{request_body_too_large, invalid_upstream_uri}
use ajar_gateway.Serving.Upstream.{
  request_target, declared_content_length, exceeds, build_upstream_request,
}

-- A length within the limit, if one is declared.
abbrev pub Within : Option ℕ → ℕ → Type 0
Within none limit = Unit
Within (some length) limit = length ≤ limit

fail_if-Within :
    (declared : Option ℕ) (limit : ℕ) (u : Unit {0})
    → fail_if (exceeds declared limit) request_body_too_large ≡ ok u
    → Within declared limit
fail_if-Within none limit u h = tt
fail_if-Within (some n) limit u h = ground arith

Within-exceeds :
    (declared : Option ℕ) (limit : ℕ) → Within declared limit → exceeds declared limit ≡ false
Within-exceeds none limit h = refl
Within-exceeds (some n) limit h = ground arith

module _ {H V U B : Type 0} (http : Http H V U B) {Addr : Type 0} where
  -- The address of a request at the origin.
  abbrev pub origin_uri : ValidatedConfig Addr → Request H U B → Text
  origin_uri config request =
      config.origin_scheme
      ++ (codes "://" ++ (config.origin_authority ++ request_target http request.uri))

  -- The request `sent` is `request`, as it goes to the origin.
  pub record IsForwarded (config : ValidatedConfig Addr) (request sent : Request H U B)
      : Type 0 where
    pub declared : Option ℕ
    pub declared_is : declared_content_length http request.headers ≡ ok declared
    pub within : Within declared config.max_body_bytes
    pub uri_is : http.parse_uri (origin_uri config request) ≡ some sent.uri
    pub method_kept : sent.method ≡ request.method
    pub headers_stripped : sent.headers ≡ strip_hop_by_hop_headers http request.headers
    pub body_capped : sent.body ≡ http.limited request.body config.max_body_bytes

  build-IsForwarded :
      (config : ValidatedConfig Addr) (request sent : Request H U B)
      → build_upstream_request http config request ≡ ok sent
      → IsForwarded config request sent
  unfolding build_upstream_request
  build-IsForwarded config request sent h =
      let (declared, declared_is, h1) =
        >>=-eq-ok (declared_content_length http request.headers) _ h in
      let (u, guarded, h2) =
        >>=-eq-ok (fail_if (exceeds declared config.max_body_bytes) request_body_too_large) _ h1 in
      let (uri, parsed, h3) =
        >>=-eq-ok (ok_or (http.parse_uri (origin_uri config request)) invalid_upstream_uri) _ h2 in
      subst (IsForwarded config request) (ok-injective h3) (record {
        declared = declared;
        declared_is = declared_is;
        within = fail_if-Within declared config.max_body_bytes u guarded;
        uri_is =
            ok_or-eq-ok (http.parse_uri (origin_uri config request)) invalid_upstream_uri parsed;
        method_kept = refl;
        headers_stripped = refl;
        body_capped = refl;
      })

  IsForwarded-build :
      (config : ValidatedConfig Addr) (request sent : Request H U B)
      → IsForwarded config request sent
      → build_upstream_request http config request ≡ ok sent
  unfolding build_upstream_request
  IsForwarded-build config request sent f =
      rw (f.declared_is, Within-exceeds f.declared config.max_body_bytes f.within, f.uri_is)
        (sym (λ i. ok (record {
          method = f.method_kept i;
          uri = sent.uri;
          headers = f.headers_stripped i;
          body = f.body_capped i;
        })))

  -- A request is sent on exactly if it declares no length or one that is a number up to the body
  -- limit, and the origin with its target is a URI. What is sent has its method, its headers but the
  -- hop-by-hop ones, and its body capped at the limit.
  pub build_upstream_request_iff :
      (config : ValidatedConfig Addr) (request sent : Request H U B)
      → (build_upstream_request http config request ≡ ok sent) ↔ IsForwarded config request sent
  build_upstream_request_iff config request sent =
      (build-IsForwarded config request sent, IsForwarded-build config request sent)
