-- ===== src/Scenarios/Client.antt =====
-- The client of the tests of crates/serving/src/lib.rs, with `get_markdown_body` and `post_reload`.
-- A request reaches its handler as it was built. JSON bodies are printed as serde_json prints them;
-- of the characters that it escapes only the quote and the backslash are escaped here.
use ajar_gateway.Common.{
  ℕ, ◌+◌, Bool, false, ◌||◌, Option, none, some, List, [], ◌∷◌, ◌++◌, if◌then◌else◌, Result, ok,
  err, ◌==◌,
}
use ajar_gateway.Common.Int.{ℤ, pos, negsuc}
use ajar_gateway.Text.{Text, codes, text_eq, utf8, starts_with}
use ajar_gateway.Text.Number.{decimal}
use ajar_gateway.Store.Model.{Bytes}
use ajar_gateway.Serving.Http.{
  ProblemDetails, bytes, nothing, problem, health, reload_success, upstream,
}
use ajar_gateway.Serving.State.{ProxyState}
use ajar_gateway.Serving.Problem.{ProxyHttpError, error_response}
use ajar_gateway.Serving.Proxy.{Handled}
use ajar_gateway.Serving.Start.Routers.{
  MethodRouter, get, post, Route, AdminHandler, admin_router, proxy_router,
}
use ajar_gateway.Examples.Headers.{Headers}
use ajar_gateway.Scenarios.Json.{Json}
use ajar_gateway.Scenarios.Serde.{json_serde}
use ajar_gateway.Scenarios.Disk.{disk_fs}
use ajar_gateway.Scenarios.Wire.{
  Body, whole, too_long, Uri, parse_uri, wire_http, received_request, header,
}
use ajar_gateway.Scenarios.Origin.{Incoming, Answer, origin, empty_answer}
use ajar_gateway.Scenarios.Gateway.{World, Test, ◌>>=◌, returning}

abbrev pub response_of : Result ProxyHttpError Answer → Answer
response_of (ok response) = response
response_of (err e) = error_response wire_http e

abbrev public_response : World → Handled Headers Body Text Json → Option (Answer × World)
public_response world (answer, state) =
    some (response_of answer, record world { gateway = some state })

abbrev public_at : World → Incoming → Option (ProxyState Text Json) → Option (Answer × World)
public_at world request none = none
public_at world request (some state) = public_response world (
    proxy_router wire_http (origin world.origin_server) state (received_request request)
      world.clock)

-- A request of the client to the public listener.
unfoldable pub request_public : Incoming → Test Answer
unfolding origin
request_public request world = public_at world request world.gateway

abbrev Handler : Type 0
Handler = AdminHandler Headers Body Text Json

abbrev handled : World → Answer × ProxyState Text Json → Option (Answer × World)
handled world (response, state) = some (response, record world { gateway = some state })

abbrev at_method :
    World → Text → ProxyState Text Json → MethodRouter Handler → Option (Answer × World)
at_method world method state (get handler) =
    if text_eq method (codes "GET") || text_eq method (codes "HEAD")
    then handled world (handler state world.clock)
    else handled world (empty_answer 405, state)
at_method world method state (post handler) =
    if text_eq method (codes "POST")
    then handled world (handler state world.clock)
    else handled world (empty_answer 405, state)

abbrev at_route :
    World → Incoming → ProxyState Text Json → List (Route Handler) → Option (Answer × World)
at_route world request state [] = handled world (empty_answer 404, state)
at_route world request state (route ∷ routes) =
    let later = at_route world request state routes in
    if text_eq (wire_http.path request.uri) route.path
    then at_method world request.method state route.method
    else later

abbrev admin_at : World → Incoming → Option (ProxyState Text Json) → Option (Answer × World)
admin_at world request none = none
admin_at world request (some state) =
    at_route world request state (admin_router wire_http json_serde disk_fs world.disk)

-- A request of the client to the admin listener.
unfoldable pub request_admin : Incoming → Test Answer
unfolding admin_router
request_admin request world = admin_at world (received_request request) world.gateway

abbrev addressed : Text → Headers → Bytes → Option Uri → Test Incoming
addressed method headers body none world = none
addressed method headers body (some uri) world =
    some (record { method = method; uri = uri; headers = headers; body = whole body }, world)

-- `Request::builder()`
abbrev pub build_request : Text → Text → Headers → Bytes → Test Incoming
build_request method address headers body = addressed method headers body (parse_uri address)

abbrev pub public_uri : Text → Text
public_uri path = codes "http://127.0.0.1:4001" ++ path

abbrev pub admin_uri : Text → Text
admin_uri path = codes "http://127.0.0.1:4002" ++ path

abbrev escape : ℕ → Text
escape c = if (c == 34) || (c == 92) then 92 ∷ c ∷ [] else c ∷ []

unfoldable pub escaped : Text → Text
escaped [] = []
escaped (c ∷ s) = escape c ++ escaped s

abbrev quoted : Text → Text
quoted s = 34 ∷ (escaped s ++ 34 ∷ [])

abbrev member_text : Text → Text → Text
member_text name value = quoted name ++ (codes ":" ++ value)

abbrev more_members : List Text → Text
more_members [] = codes "}"
more_members (m ∷ ms) = codes "," ++ (m ++ more_members ms)

abbrev object_text : List Text → Text
object_text [] = codes "{}"
object_text (m ∷ ms) = codes "{" ++ (m ++ more_members ms)

abbrev integer_text : ℤ → Text
integer_text (pos n) = decimal n
integer_text (negsuc n) = codes "-" ++ decimal (n + 1)

-- `Serialize` of `ProblemDetails`, `Health` and `ReloadSuccess`.
abbrev pub problem_text : ProblemDetails → Text
problem_text p = object_text (
    member_text (codes "type") (quoted p.problem_type)
    ∷ member_text (codes "status") (decimal p.status)
    ∷ member_text (codes "title") (quoted p.title)
    ∷ member_text (codes "detail") (quoted p.detail)
    ∷ member_text (codes "ajar_error_code") (quoted p.ajar_error_code)
    ∷ [])

abbrev pub health_text : Text → Text
health_text status = object_text (member_text (codes "status") (quoted status) ∷ [])

abbrev pub reload_success_text : Text → ℕ → ℤ → Text
reload_success_text status views manifest_sequence = object_text (
    member_text (codes "status") (quoted status)
    ∷ member_text (codes "views") (decimal views)
    ∷ member_text (codes "manifest_sequence") (integer_text manifest_sequence)
    ∷ [])

abbrev whole_bytes : Body → Bytes
whole_bytes (whole body) = body
whole_bytes too_long = []

-- `into_body().collect().await?.to_bytes()`
abbrev pub body_bytes : Answer → Bytes
body_bytes response = elim response.body [
  | nothing ↦ []
  | bytes body ↦ body
  | problem p ↦ utf8 (problem_text p)
  | health status ↦ utf8 (health_text status)
  | reload_success status views sequence ↦ utf8 (reload_success_text status views sequence)
  | upstream body ↦ whole_bytes body
]

-- `contains`
unfoldable pub contains : Text → Text → Bool
unfolding starts_with
contains [] part = starts_with part []
contains (c ∷ s) part = starts_with part (c ∷ s) || contains s part

abbrev pub get_markdown_body : Test Bytes
get_markdown_body = do
  request ←
      build_request (codes "GET") (public_uri (codes "/article?x=1"))
        ((codes "accept", codes "text/markdown") ∷ []) []
  response ← request_public request
  returning (body_bytes response)

-- `assert_eq!` of a header and a value, and of a body and a text.
abbrev pub header_is : Answer → Text → Text → Bool
header_is response name value = elim (header response.headers name) [
  | none ↦ false
  | some found ↦ text_eq found value
]

abbrev pub body_is : Answer → Text → Bool
body_is response body = text_eq (body_bytes response) (utf8 body)

abbrev pub body_contains : Answer → Text → Bool
body_contains response part = contains (body_bytes response) (utf8 part)

abbrev pub post_reload : Test Answer
post_reload = do
  request ← build_request (codes "POST") (admin_uri (codes "/reload")) [] []
  request_admin request
