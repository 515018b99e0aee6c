-- ===== src/Scenarios/Origin.antt =====
-- The origin of the tests of crates/serving/src/lib.rs: the routes of `spawn_origin` and its
-- handlers.
use ajar_gateway.Common.{
  ℕ, Bool, true, not, ◌&&◌, ◌||◌, Option, none, some, List, [], ◌∷◌, ◌++◌, ltb, if◌then◌else◌,
  length,
}
use ajar_gateway.Text.{Text, codes, text_eq, utf8}
use ajar_gateway.Store.Model.{Bytes}
use ajar_gateway.Serving.Http.{Request, Response, bytes, nothing, Content}
use ajar_gateway.Serving.Headers.{content_type}
use ajar_gateway.Serving.Proxy.{Exchange, answered, failed, is_some}
use ajar_gateway.Examples.Headers.{Headers}
use ajar_gateway.Scenarios.Wire.{Body, whole, too_long, Uri, wire_http, received_request, header}

abbrev pub Incoming : Type 0
Incoming = Request Headers Uri Body

abbrev pub Answer : Type 0
Answer = Response Headers Body

-- `Response::new(Body::from(_))`
abbrev new_response : Text → Answer
new_response body = record { status = 200; headers = []; body = bytes (utf8 body) }

abbrev or_empty : Option Text → Text
or_empty none = []
or_empty (some value) = value

abbrev or_root : Option Text → Text
or_root none = codes "/"
or_root (some value) = value

abbrev pub origin_get : Incoming → Answer
origin_get request =
    let custom = or_empty (header request.headers (codes "x-custom")) in
    let path = or_root (wire_http.path_and_query request.uri) in
    record {
      status = 206;
      headers =
          wire_http.insert (wire_http.insert [] (codes "x-origin") (codes "yes"))
            (codes "x-seen-custom") custom;
      body = bytes (utf8 (codes "get:" ++ path));
    }

-- `to_bytes(body, 1024)`, or nothing where it fails.
abbrev bytes_or_empty : Body → Bytes
bytes_or_empty (whole body) = if ltb 1024 (length body) then [] else body
bytes_or_empty too_long = []

abbrev pub origin_post : Incoming → Answer
origin_post request = record {
  status = 201;
  headers = (content_type, codes "application/octet-stream") ∷ [];
  body = bytes (bytes_or_empty request.body);
}

abbrev pub origin_hop : Incoming → Answer
origin_hop request =
    let stripped =
      not (is_some (header request.headers (codes "x-remove")))
      && not (is_some (header request.headers (codes "keep-alive"))) in
    let response = new_response (if stripped then codes "stripped" else codes "leaked") in
    record response {
      headers = wire_http.insert response.headers (codes "connection") (codes "close");
    }

abbrev pub origin_html : Incoming → Answer
origin_html request =
    let response = new_response (codes "<!doctype html><title>Origin</title>") in
    record response {
      headers = wire_http.insert response.headers content_type (codes "text/html; charset=utf-8");
    }

abbrev pub origin_manifest : Incoming → Answer
origin_manifest request = new_response (codes "origin-manifest")

-- `get` answers GET and HEAD, and `any` every method.
pub data Method : Type 0 where
  get any : Method

abbrev allows : Method → Text → Bool
allows get method = text_eq method (codes "GET") || text_eq method (codes "HEAD")
allows any method = true

pub record OriginRoute : Type 0 where
  pub path : Text
  pub methods : Method
  pub handler : Incoming → Answer

abbrev route : Text → Method → (Incoming → Answer) → OriginRoute
route path methods handler = record { path = path; methods = methods; handler = handler }

-- The routes of `spawn_origin`.
abbrev pub origin_routes : List OriginRoute
origin_routes =
    route (codes "/get") get origin_get
    ∷ route (codes "/post") any origin_post
    ∷ route (codes "/hop") get origin_hop
    ∷ route (codes "/html") get origin_html
    ∷ route (codes "/.well-known/ajar.json") get origin_manifest
    ∷ []

abbrev pub empty_answer : ℕ → Answer
empty_answer status = record { status = status; headers = []; body = nothing }

-- A request at a router: its answers are 404 where no path matches, and 405 where the method does
-- not.
unfoldable pub routed : List OriginRoute → Incoming → Answer
unfolding text_eq
routed [] request = empty_answer 404
routed (r ∷ routes) request =
    let later = routed routes request in
    if text_eq (wire_http.path request.uri) r.path
    then (if allows r.methods request.method then r.handler request else empty_answer 405)
    else later

abbrev sent_body : Content Body → Bytes
sent_body (bytes body) = body
sent_body _ = []

abbrev delivered : Body → Answer → Exchange Headers Body
delivered too_long answer = failed
delivered (whole _) answer = answered answer.status answer.headers (whole (sent_body answer.body))

-- The origin behind the gateway's client; where no server runs, the exchange fails.
unfoldable pub origin : Option (List OriginRoute) → Incoming → Exchange Headers Body
unfolding routed
origin none request = failed
origin (some routes) request = delivered request.body (routed routes (received_request request))
