-- ===== src/Serving/Upstream/Errors.antt =====
-- The errors that crates/serving/src/lib.rs answers before it asks the origin.
use ajar_gateway.Common.{
  ◌≡◌, refl, Bool, true, false, Option, none, some, Result, ok, err, ◌>>=◌, ok_or, fail_if,
  Option-cases, inl, inr,
}
use ajar_gateway.Text.{Text}
use ajar_gateway.Text.Number.{parse_u64}
use ajar_gateway.Serving.Http.{Http, Request, first}
use ajar_gateway.Serving.Headers.{content_length}
use ajar_gateway.Serving.Config.{ValidatedConfig}
use ajar_gateway.Serving.Problem.{
  ProxyHttpError, invalid_content_length, request_body_too_large, invalid_upstream_uri,
  upstream_timeout, upstream_failed, store_state_unavailable,
}
use ajar_gateway.Serving.Upstream.{
  length_of, parsed_length, declared_content_length, exceeds, build_upstream_request,
}

-- The exchange with the origin did not end with an answer.
abbrev pub is_upstream_error : ProxyHttpError → Bool
is_upstream_error upstream_timeout = true
is_upstream_error upstream_failed = true
is_upstream_error invalid_content_length = false
is_upstream_error request_body_too_large = false
is_upstream_error invalid_upstream_uri = false
is_upstream_error store_state_unavailable = false

-- A result, or an error that comes before the exchange.
abbrev pub IsLocal {ℓ} : {A : Type ℓ} → Result ProxyHttpError A → Type 0
IsLocal (ok _) = Unit
IsLocal (err e) = is_upstream_error e ≡ false

>>=-IsLocal {ℓ κ} :
    {A : Type ℓ} {B : Type κ} (m : Result ProxyHttpError A) (f : A → Result ProxyHttpError B)
    → IsLocal m
    → ((a : A) → IsLocal (f a))
    → IsLocal (m >>= f)
>>=-IsLocal (ok a) f h k = k a
>>=-IsLocal (err e) f h k = h

fail_if-IsLocal : (b : Bool) → IsLocal (fail_if b request_body_too_large)
fail_if-IsLocal true = refl
fail_if-IsLocal false = tt

ok_or-IsLocal {ℓ} : {A : Type ℓ} (o : Option A) → IsLocal (ok_or o invalid_upstream_uri)
ok_or-IsLocal none = refl
ok_or-IsLocal (some a) = tt

module _ {H V U B : Type 0} (http : Http H V U B) where
  parsed_length-IsLocal : (o : Option Text) → IsLocal (parsed_length http o)
  parsed_length-IsLocal none = refl
  parsed_length-IsLocal (some text) = elim (Option-cases (parse_u64 text)) [
    | inl bad ↦ rw (bad, IsLocal) refl
    | inr (length, good) ↦ rw (good, IsLocal) tt
  ]

  length_of-IsLocal : (o : Option V) → IsLocal (length_of http o)
  length_of-IsLocal none = tt
  length_of-IsLocal (some value) = parsed_length-IsLocal (http.value_text value)

  pub build_upstream_request-IsLocal :
      {Addr : Type 0} (config : ValidatedConfig Addr) (request : Request H U B)
      → IsLocal (build_upstream_request http config request)
  unfolding build_upstream_request declared_content_length
  build_upstream_request-IsLocal config request =
      >>=-IsLocal (declared_content_length http request.headers) _
        (length_of-IsLocal (first (http.get_all request.headers content_length)))
        (λ declared.
          >>=-IsLocal (fail_if (exceeds declared config.max_body_bytes) request_body_too_large) _
            (fail_if-IsLocal (exceeds declared config.max_body_bytes))
            (λ _.
              >>=-IsLocal (ok_or (http.parse_uri _) invalid_upstream_uri) _
                (ok_or-IsLocal (http.parse_uri _)) (λ _. tt)))
