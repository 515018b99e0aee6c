-- ===== src/Serving/Negotiate.antt =====
-- Content negotiation in crates/serving/src/lib.rs. An `f32` is its class (`Text.Number`).
pub mod Quality
pub mod Laws
use ajar_gateway.Common.{
  ℕ, Bool, true, false, not, ◌&&◌, ◌||◌, Option, none, some, List, [], ◌∷◌, if◌then◌else◌, ◌≡◌,
  refl,
}
use ajar_gateway.Text.{
  Text, codes, text_eq, split, split_once, trim, trim_matches, to_ascii_lowercase,
  eq_ignore_ascii_case,
}
use ajar_gateway.Text.Number.{Float, positive, not_positive, nan, parse_f32}

pub data Representation : Type 0 where
  ajar_json markdown passthrough : Representation

abbrev pub ajar_json_type : Text
ajar_json_type = codes "application/ajar+json"

abbrev pub markdown_type : Text
markdown_type = codes "text/markdown"

abbrev pub unwrap_or_empty : Option Text → Text
unwrap_or_empty none = []
unwrap_or_empty (some s) = s

-- The name and the value of a parameter of an item.
unfoldable pub parameter_name : Text → Text
unfolding trim split_once
parameter_name parameter = trim (split_once b'=' (trim parameter)).0

unfoldable pub parameter_value : Text → Text
unfolding trim split_once trim_matches
parameter_value parameter =
    trim_matches b'"' (trim (unwrap_or_empty (split_once b'=' (trim parameter)).1))

-- `q`, and `invalid_q` as `none`, which no later parameter takes back.
abbrev pub with_quality : Option Float → Option Float → Option Float
with_quality none parsed = none
with_quality (some q) none = none
with_quality (some q) (some parsed) = some parsed

-- The loop over the parameters of an item.
unfoldable pub quality : List Text → Option Float → Option Float
unfolding parameter_name parameter_value eq_ignore_ascii_case parse_f32
quality [] q = q
quality (parameter ∷ parameters) q = quality parameters (
    if eq_ignore_ascii_case (parameter_name parameter) (codes "q")
    then with_quality q (parse_f32 (parameter_value parameter))
    else q)

-- `!(invalid_q || q <= 0.0)`
abbrev pub is_wanted : Option Float → Bool
is_wanted none = false
is_wanted (some not_positive) = false
is_wanted (some positive) = true
is_wanted (some nan) = true

abbrev pub head_of : List Text → Text
head_of [] = []
head_of (part ∷ parts) = part

abbrev pub tail_of : List Text → List Text
tail_of [] = []
tail_of (part ∷ parts) = parts

-- The media type of an item of the header, and whether the item asks for it.
unfoldable pub media_type : Text → Text
unfolding trim split to_ascii_lowercase
media_type item = to_ascii_lowercase (trim (head_of (split b';' item)))

unfoldable pub item_is_wanted : Text → Bool
unfolding quality split
item_is_wanted item = is_wanted (quality (tail_of (split b';' item)) (some positive))

-- The loop over the items; the flag is the variable `markdown`.
unfoldable pub negotiate_items : List Text → Bool → Representation
unfolding media_type item_is_wanted text_eq
negotiate_items [] seen_markdown = if seen_markdown then markdown else passthrough
negotiate_items (item ∷ items) seen_markdown =
    let is_ajar = text_eq (media_type item) ajar_json_type in
    let is_markdown = text_eq (media_type item) markdown_type in
    let wanted = item_is_wanted item in
    let rest = negotiate_items items (
      if not is_ajar && not is_markdown
      then seen_markdown
      else if wanted
      then true
      else seen_markdown) in
    if is_ajar && wanted then ajar_json else rest

unfoldable pub negotiate : Option Text → Bool → Representation
unfolding negotiate_items split
negotiate accept_header false = passthrough
negotiate none true = passthrough
negotiate (some header) true = negotiate_items (split b',' header) false
