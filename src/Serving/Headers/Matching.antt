-- ===== src/Serving/Headers/Matching.antt =====
-- The `if-none-match` header in crates/serving/src/lib.rs.
use ajar_gateway.Common.{
  ◌≡◌, refl, ◌↔◌, ◌⊎◌, true, false, ◌||◌, some, List, [], ◌∷◌, any, any_iff, Some, Some-map, arith,
}
use ajar_gateway.Text.{Text, codes, text_eq, split, trim}
use ajar_gateway.Text.Laws.{text_eq_iff}
use ajar_gateway.Text.Number.Plain.{IsPlain, split-IsPlain, trim-IsPlain}
use ajar_gateway.Serving.Http.{Http}
use ajar_gateway.Serving.Headers.{if_none_match, texts, candidate_matches, if_none_match_matches}

-- A candidate names a tag: by itself or by a star, with spaces around.
abbrev pub Names : Text → Text → Type 0
Names etag candidate = (trim candidate ≡ codes "*") ⊎ (trim candidate ≡ etag)

candidate_matches_iff :
    (etag candidate : Text) → (candidate_matches etag candidate ≡ true) ↔ Names etag candidate
candidate_matches_iff etag candidate =
    ground (arith, text_eq_iff (trim candidate) (codes "*"), text_eq_iff (trim candidate) etag)

-- A text names a tag in one of its candidates.
abbrev pub HasCandidate : Text → Text → Type 0
HasCandidate etag text = Some (Names etag) (split b',' text)

any_candidate_iff :
    (etag : Text) (candidates : List Text)
    → (any (candidate_matches etag) candidates ≡ true) ↔ Some (Names etag) candidates
any_candidate_iff etag candidates = (
  λ h.
      Some-map _ _ candidates (λ c. (candidate_matches_iff etag c).0)
        ((any_iff (candidate_matches etag) candidates).0 h),
  λ h.
      (any_iff (candidate_matches etag) candidates).1
        (Some-map _ _ candidates (λ c. (candidate_matches_iff etag c).1) h),
)

-- A quoted tag is no star.
no_star :
    (rest etag : Text)
    → (text_eq (b'"' ∷ rest) (codes "*") || text_eq (b'"' ∷ rest) etag || false || false)
      ≡ text_eq (b'"' ∷ rest) etag
unfolding text_eq
no_star rest etag = ground arith

module _ {H V U B : Type 0} (http : Http H V U B) where
  -- The client has the artifact exactly if a value of its `if-none-match` headers that is text has,
  -- between commas and up to spaces, the tag of the artifact or a star.
  pub if_none_match_matches_iff :
      (headers : H) (etag : Text)
      → (if_none_match_matches http headers etag ≡ true)
        ↔ Some (HasCandidate etag) (texts http (http.get_all headers if_none_match))
  unfolding if_none_match_matches
  if_none_match_matches_iff headers etag =
      let values = texts http (http.get_all headers if_none_match) in
      let matches = any_iff (λ text. any (candidate_matches etag) (split b',' text)) values in
      (
        λ h.
            Some-map _ _ values (λ text. (any_candidate_iff etag (split b',' text)).0)
              (matches.0 h),
        λ h.
            matches.1
              (Some-map _ _ values (λ text. (any_candidate_iff etag (split b',' text)).1) h),
      )

  texts_one :
      (value : V) (text : Text)
      → http.value_text value ≡ some text
      → texts http (value ∷ []) ≡ text ∷ []
  unfolding texts
  texts_one value text h = rw (h, texts) refl

  -- One value that is a quoted tag is compared as it is.
  pub if_none_match_matches_tag :
      (headers : H) (value : V) (rest etag : Text)
      → http.get_all headers if_none_match ≡ value ∷ []
      → http.value_text value ≡ some (b'"' ∷ rest)
      → IsPlain rest
      → if_none_match_matches http headers etag ≡ text_eq (b'"' ∷ rest) etag
  unfolding if_none_match_matches
  if_none_match_matches_tag headers value rest etag one is_text plain =
      let whole : IsPlain (b'"' ∷ rest) = (ground arith, plain) in
      rw one (
        rw (texts_one value (b'"' ∷ rest) is_text) (
          rw (split-IsPlain (b'"' ∷ rest) whole)
            (rw (trim-IsPlain (b'"' ∷ rest) whole) (no_star rest etag))))
