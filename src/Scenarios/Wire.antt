-- ===== src/Scenarios/Wire.antt =====
-- HTTP messages to run the tests of crates/serving/src/lib.rs with: an instance of the parameter
-- `Http`, with the header map of `Examples.Headers`. A body is whole, or longer than its cap.
use ajar_gateway.Common.{ℕ, Option, none, some, List, [], ◌∷◌, ltb, ◌==◌, if◌then◌else◌, length}
use ajar_gateway.Text.{Text, codes, starts_with, strip_prefix, split, from_first}
use ajar_gateway.Store.Model.{Bytes}
use ajar_gateway.Serving.Http.{Http, Request, first}
use ajar_gateway.Examples.Headers.{Headers, map_http}

pub data Body : Type 0 where
  whole : Bytes → Body
  too_long : Body

pub record Uri : Type 0 where
  pub scheme : Option Text
  pub authority : Option Text
  pub target : Text

abbrev target_of : Option Text → Text
target_of none = codes "/"
target_of (some target) = target

-- An address with the scheme http, or a path.
unfoldable pub parse_uri : Text → Option Uri
unfolding strip_prefix starts_with split from_first
parse_uri s = elim (strip_prefix (codes "http://") s) [
  | some rest ↦ some (record {
    scheme = some (codes "http");
    authority = first (split b'/' rest);
    target = target_of (from_first b'/' rest);
  })
  | none ↦
      if starts_with (codes "/") s
      then some (record { scheme = none; authority = none; target = s })
      else none
]

abbrev first_or_empty : List Text → Text
first_or_empty [] = []
first_or_empty (part ∷ _) = part

abbrev capped : Body → ℕ → Body
capped (whole bytes) limit = if ltb limit (length bytes) then too_long else whole bytes
capped too_long limit = too_long

abbrev reason : ℕ → Option Text
reason status =
    if status == 413
    then some (codes "Payload Too Large")
    else if status == 500
    then some (codes "Internal Server Error")
    else if status == 502
    then some (codes "Bad Gateway")
    else none

abbrev pub wire_http : Http Headers Text Uri Body
wire_http = record {
  empty = map_http.empty;
  get_all = map_http.get_all;
  keys = map_http.keys;
  remove = map_http.remove;
  insert = map_http.insert;
  append = map_http.append;
  header_name = map_http.header_name;
  header_value = map_http.header_value;
  static_value = map_http.static_value;
  value_text = map_http.value_text;
  parse_uri = parse_uri;
  scheme = λ uri. uri.scheme;
  authority = λ uri. uri.authority;
  path = λ uri. first_or_empty (split b'?' uri.target);
  path_and_query = λ uri. some uri.target;
  canonical_reason = reason;
  limited = capped;
  json_headers = map_http.json_headers;
}

-- A request as the server gets it: its address is the path.
abbrev pub received_request : Request Headers Uri Body → Request Headers Uri Body
received_request request = record request {
  uri = record (request.uri) { scheme = none; authority = none };
}

abbrev pub header : Headers → Text → Option Text
header headers name = first (map_http.get_all headers name)
