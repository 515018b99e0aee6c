-- ===== src/Serving/Headers.antt =====
-- Header handling in crates/serving/src/lib.rs: the constants, the readers, and the removal of
-- hop-by-hop headers.
pub mod Laws
pub mod Matching
use ajar_gateway.Common.{
  ℕ, Bool, true, false, ◌||◌, Option, none, some, List, [], ◌∷◌, ◌++◌, if◌then◌else◌, any, Result,
  ok, err, ltb,
}
use ajar_gateway.Text.{
  Text, codes, text_eq, split, trim, to_ascii_lowercase, eq_ignore_ascii_case, starts_with, join,
}
use ajar_gateway.Text.Number.{parse_u64}
use ajar_gateway.Serving.Http.{Http, first}

abbrev pub accept : Text
accept = codes "accept"

abbrev pub cache_control : Text
cache_control = codes "cache-control"

abbrev pub content_length : Text
content_length = codes "content-length"

abbrev pub content_type : Text
content_type = codes "content-type"

abbrev pub etag_header : Text
etag_header = codes "etag"

abbrev pub if_none_match : Text
if_none_match = codes "if-none-match"

abbrev pub link : Text
link = codes "link"

abbrev pub vary : Text
vary = codes "vary"

abbrev pub ajar_content_signature : Text
ajar_content_signature = codes "ajar-content-signature"

abbrev pub ajar_error_code : Text
ajar_error_code = codes "ajar-error-code"

abbrev pub hop_by_hop : List Text
hop_by_hop =
    codes "connection"
    ∷ codes "keep-alive"
    ∷ codes "te"
    ∷ codes "trailer"
    ∷ codes "transfer-encoding"
    ∷ codes "upgrade"
    ∷ []

abbrev pub candidate_matches : Text → Text → Bool
candidate_matches etag candidate =
    text_eq (trim candidate) (codes "*") || text_eq (trim candidate) etag

module _ {H V U B : Type 0} (http : Http H V U B) where
  -- The values of a header that are text.
  unfoldable pub texts : List V → List Text
  texts [] = []
  texts (v ∷ vs) =
      let rest = texts vs in elim (http.value_text v) [ none ↦ rest | some text ↦ text ∷ rest ]

  abbrev nonempty_join : List Text → Option Text
  nonempty_join [] = none
  nonempty_join (t ∷ ts) = some (join (codes ",") (t ∷ ts))

  unfoldable pub combined_accept_header : H → Option Text
  combined_accept_header headers = nonempty_join (texts (http.get_all headers accept))

  unfoldable pub if_none_match_matches : H → Text → Bool
  if_none_match_matches headers etag =
      any (λ text. any (candidate_matches etag) (split b',' text))
        (texts (http.get_all headers if_none_match))

  -- A value that no header can carry is left out.
  abbrev pub insert_header : H → Text → Text → H
  insert_header headers name value = elim (http.header_value value) [
    | none ↦ headers
    | some v ↦ http.insert headers name v
  ]

  abbrev first_part : List Text → Text
  first_part [] = []
  first_part (part ∷ parts) = part

  unfoldable pub is_html_content_type : H → Bool
  is_html_content_type headers = elim (first (http.get_all headers content_type)) [
    | none ↦ false
    | some value ↦ elim (http.value_text value) [
      | none ↦ false
      | some text ↦ eq_ignore_ascii_case (trim (first_part (split b';' text))) (codes "text/html")
    ]
  ]

  -- The names that the tokens of a `connection` header give; what is no header name is left out.
  unfoldable pub token_names : List Text → List Text
  token_names [] = []
  token_names (token ∷ tokens) =
      let rest = token_names tokens in
      elim (http.header_name (trim token)) [ none ↦ rest | some name ↦ name ∷ rest ]

  unfoldable pub connection_names : List Text → List Text
  connection_names [] = []
  connection_names (text ∷ more) = token_names (split b',' text) ++ connection_names more

  unfoldable pub hop_by_hop_names : H → List Text
  hop_by_hop_names headers =
      hop_by_hop ++ connection_names (texts (http.get_all headers (codes "connection")))

  abbrev pub is_proxy_name : Text → Bool
  is_proxy_name name = starts_with (codes "proxy-") (to_ascii_lowercase name)

  unfoldable pub proxy_names : List Text → List Text
  proxy_names [] = []
  proxy_names (name ∷ names) =
      let rest = proxy_names names in if is_proxy_name name then name ∷ rest else rest

  unfoldable pub remove_all : List Text → H → H
  remove_all [] headers = headers
  remove_all (name ∷ names) headers = remove_all names (http.remove headers name)

  unfoldable pub strip_hop_by_hop_headers : H → H
  strip_hop_by_hop_headers headers =
      remove_all (hop_by_hop_names headers ++ proxy_names (http.keys headers)) headers
