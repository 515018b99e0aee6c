-- ===== src/Serving/Http.antt =====
-- What crates/serving/src/lib.rs calls of the crates http, hyper, http-body-util and axum, as an
-- interface: header maps, header values, URIs and bodies. `HeaderLaws` states the documented
-- behaviour of a header map, a multimap from lower-case names to values.
use ajar_gateway.Common.{ℕ, ◌≡◌, ◌≢◌, ◌↔◌, Option, none, some, List, [], ◌∷◌, ◌++◌, true}
use ajar_gateway.Common.Int.{ℤ}
use ajar_gateway.Text.{Text, member}

-- H is `HeaderMap`, V is `HeaderValue`, U is `Uri`, B is a body that streams. A `HeaderName` is its
-- text, and a `StatusCode` its number.
pub record Http (H V U B : Type 0) : Type 0 where
  -- `HeaderMap`
  pub empty : H
  pub get_all : H → Text → List V
  pub keys : H → List Text
  pub remove : H → Text → H
  pub insert : H → Text → V → H
  pub append : H → Text → V → H
  -- `HeaderName::from_str`, `HeaderValue::from_str`, `HeaderValue::from_static`, and `to_str`
  pub header_name : Text → Option Text
  pub header_value : Text → Option V
  pub static_value : Text → V
  pub value_text : V → Option Text
  -- `Uri`
  pub parse_uri : Text → Option U
  pub scheme : U → Option Text
  pub authority : U → Option Text
  pub path : U → Text
  pub path_and_query : U → Option Text
  -- `StatusCode::canonical_reason`
  pub canonical_reason : ℕ → Option Text
  -- `Limited::new`
  pub limited : B → ℕ → B
  -- the headers of a response that axum makes of `Json(_)`
  pub json_headers : H

module _ {H V U B : Type 0} (http : Http H V U B) where
  open http use {get_all, keys, remove, insert, append, empty}

  pub record HeaderLaws : Type 0 where
    pub get_all-empty : (n : Text) → get_all empty n ≡ []
    pub get_all-remove_self : (h : H) (n : Text) → get_all (remove h n) n ≡ []
    pub get_all-remove_ne : (h : H) (n m : Text) → n ≢ m → get_all (remove h n) m ≡ get_all h m
    pub get_all-insert_self : (h : H) (n : Text) (v : V) → get_all (insert h n v) n ≡ v ∷ []
    pub get_all-insert_ne :
        (h : H) (n m : Text) (v : V) → n ≢ m → get_all (insert h n v) m ≡ get_all h m
    pub get_all-append_self :
        (h : H) (n : Text) (v : V) → get_all (append h n v) n ≡ get_all h n ++ v ∷ []
    pub get_all-append_ne :
        (h : H) (n m : Text) (v : V) → n ≢ m → get_all (append h n v) m ≡ get_all h m
    pub keys_iff : (h : H) (n : Text) → (member n (keys h) ≡ true) ↔ (get_all h n ≢ [])

-- `get`: the first value of the name.
abbrev pub first {ℓ} : {A : Type ℓ} → List A → Option A
first [] = none
first (x ∷ xs) = some x

pub record Request (H U B : Type 0) : Type 0 where
  pub method : Text
  pub uri : U
  pub headers : H
  pub body : B

pub record ProblemDetails : Type 0 where
  pub problem_type : Text
  pub status : ℕ
  pub title : Text
  pub detail : Text
  pub ajar_error_code : Text

-- The bodies that the gateway answers with.
pub data Content (B : Type 0) : Type 0 where
  nothing : Content B
  bytes : List ℕ → Content B
  problem : ProblemDetails → Content B
  health : (status : Text) → Content B
  reload_success : (status : Text) (views : ℕ) (manifest_sequence : ℤ) → Content B
  upstream : B → Content B

pub record Response (H B : Type 0) : Type 0 where
  pub status : ℕ
  pub headers : H
  pub body : Content B
