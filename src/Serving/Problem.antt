-- ===== src/Serving/Problem.antt =====
-- Error answers of crates/serving/src/lib.rs: problem documents, and the errors of a proxied request.
use ajar_gateway.Common.{ℕ, Option, none, some}
use ajar_gateway.Text.{Text, codes}
use ajar_gateway.Serving.Http.{Http, Response, problem, nothing}
use ajar_gateway.Serving.Headers.{content_type, ajar_error_code}

abbrev pub problem_json : Text
problem_json = codes "application/problem+json"

pub data ProxyHttpError : Type 0 where
  invalid_content_length request_body_too_large invalid_upstream_uri : ProxyHttpError
  upstream_timeout upstream_failed store_state_unavailable : ProxyHttpError

abbrev pub error_status : ProxyHttpError → ℕ
error_status invalid_content_length = 413
error_status request_body_too_large = 413
error_status invalid_upstream_uri = 502
error_status upstream_timeout = 502
error_status upstream_failed = 502
error_status store_state_unavailable = 500

abbrev pub error_code : ProxyHttpError → Text
error_code invalid_content_length = codes "AJAR_GATEWAY_INVALID_CONTENT_LENGTH"
error_code request_body_too_large = codes "AJAR_GATEWAY_REQUEST_BODY_TOO_LARGE"
error_code invalid_upstream_uri = codes "AJAR_GATEWAY_INVALID_UPSTREAM_URI"
error_code upstream_timeout = codes "AJAR_GATEWAY_UPSTREAM_TIMEOUT"
error_code upstream_failed = codes "AJAR_GATEWAY_UPSTREAM_ERROR"
error_code store_state_unavailable = codes "AJAR_GATEWAY_STORE_STATE_UNAVAILABLE"

abbrev title_or : Option Text → Text
title_or none = codes "Gateway error"
title_or (some reason) = reason

module _ {H V U B : Type 0} (http : Http H V U B) where
  abbrev pub empty_response : ℕ → Response H B
  empty_response status = record { status = status; headers = http.empty; body = nothing }

  unfoldable pub problem_response : ℕ → Text → Text → Text → Response H B
  problem_response status code title detail = record {
    status = status;
    headers =
        http.insert (http.insert http.json_headers ajar_error_code (http.static_value code))
          content_type (http.static_value problem_json);
    body = problem (record {
      problem_type = codes "about:blank";
      status = status;
      title = title;
      detail = detail;
      ajar_error_code = code;
    });
  }

  -- `into_response` of `ProxyHttpError`
  unfoldable pub error_response : ProxyHttpError → Response H B
  error_response e = record {
    status = error_status e;
    headers =
        http.insert
          (http.insert http.json_headers ajar_error_code (http.static_value (error_code e)))
          content_type (http.static_value problem_json);
    body = problem (record {
      problem_type = codes "about:blank";
      status = error_status e;
      title = title_or (http.canonical_reason (error_status e));
      detail = codes "The gateway could not complete the request.";
      ajar_error_code = error_code e;
    });
  }
