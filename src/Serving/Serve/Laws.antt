-- ===== src/Serving/Serve/Laws.antt =====
-- Freshness of the answers from the store in crates/serving/src/lib.rs.
use ajar_gateway.Common.{
  ℕ, ◌≤◌, ◌≡◌, ◌≢◌, refl, ap, ◌∙◌, ◌↔◌, inl, inr, Bool, true, false, Option, none, some, List, [],
  ◌∷◌, ◌++◌, arith, if◌then◌else◌, length, Bool-cases,
}
use ajar_gateway.Common.Int.{ℤ, pos, pos_part, ◌+ℤ◌, ◌-ℤ◌, ◌≤ℤ◌, ◌<ℤ◌, leb_ℤ, ltb_ℤ}
use ajar_gateway.Text.{Text, codes}
use ajar_gateway.Text.Number.{decimal}
use ajar_gateway.Store.Model.{StoredView}
use ajar_gateway.Store.Load.{PreparedContentStore}
use ajar_gateway.Serving.Http.{Http, HeaderLaws, Response, bytes}
use ajar_gateway.Serving.Headers.{if_none_match_matches, cache_control, etag_header, content_type}
use ajar_gateway.Serving.State.{ProxyState}
use ajar_gateway.Serving.Problem.{problem_response}
use ajar_gateway.Serving.Serve.{
  clamp_cache, serve_manifest, serve_view_index, serve_view_json, serve_view_markdown,
  unless_expired, expired_response,
}

-- The number of seconds that an answer may be cached for.
clamp_cache-bounds :
    (expires now : ℤ)
    → now <ℤ expires
    → (1 ≤ pos_part (clamp_cache (expires -ℤ now)))
      × (pos_part (clamp_cache (expires -ℤ now)) ≤ 3_600)
      × (now +ℤ pos (pos_part (clamp_cache (expires -ℤ now))) ≤ℤ expires)
clamp_cache-bounds expires now h = ground arith

-- `header_value`, as the values of a header.
abbrev values_of : {V : Type 0} → Option V → List V
values_of none = []
values_of (some v) = v ∷ []

module _ {H V U B : Type 0} (http : Http H V U B) where
  expired_status : (expired_response http).status ≡ 404
  unfolding problem_response
  expired_status = refl

module _ {H V U B : Type 0} (http : Http H V U B) {Addr Value : Type 0} where
  abbrev status_of : Response H B × ProxyState Addr Value → ℕ
  status_of answer = answer.0.status

  unless_expired_iff :
      (state : ProxyState Addr Value) (store : PreparedContentStore Value) (now : ℤ)
      (answer : Response H B × ProxyState Addr Value)
      → status_of answer ≢ 404
      → (status_of (unless_expired http state store now answer) ≡ 404)
        ↔ (store.manifest.expires_at_unix ≤ℤ now)
  unless_expired_iff state store now answer differs =
      elim (Bool-cases (ltb_ℤ now store.manifest.expires_at_unix)) [
        | inl fresh ↦ rw fresh (λ h. absurd (differs h), λ h. absurd (ground arith))
        | inr late ↦ rw late (λ _. ground arith, λ _. expired_status http)
      ]

  cached_or_ok :
      (b : Bool) (x y : Response H B × ProxyState Addr Value)
      → status_of x ≡ 304
      → status_of y ≡ 200
      → status_of (if b then x else y) ≢ 404
  cached_or_ok true x y p q h = omega arith
  cached_or_ok false x y p q h = omega arith

  manifest_late_iff :
      (state : ProxyState Addr Value) (store : PreparedContentStore Value) (headers : H) (now : ℤ)
      → (status_of (serve_manifest http state store headers now) ≡ 404)
        ↔ (store.manifest.expires_at_unix ≤ℤ now)
  unfolding serve_manifest
  manifest_late_iff state store headers now =
      elim (Bool-cases (leb_ℤ store.manifest.expires_at_unix now)) [
        | inl late ↦ rw late (λ _. ground arith, λ _. expired_status http)
        | inr fresh ↦ rw fresh (
          λ h. absurd (
              cached_or_ok (if_none_match_matches http headers store.manifest.etag) _ _ refl refl
                h),
          λ h. absurd (ground arith),
        )
      ]

  -- An answer from the store, be it the manifest, the index or a View in either form, is 404
  -- exactly if the manifest has expired: nothing is served at its expiry or later.
  pub serve-expired_iff :
      (state : ProxyState Addr Value) (store : PreparedContentStore Value) (view : StoredView)
      (headers : H) (now : ℤ)
      → ((status_of (serve_manifest http state store headers now) ≡ 404)
          ↔ (store.manifest.expires_at_unix ≤ℤ now))
        × ((status_of (serve_view_index http state store headers now) ≡ 404)
            ↔ (store.manifest.expires_at_unix ≤ℤ now))
        × ((status_of (serve_view_json http state store view headers now) ≡ 404)
            ↔ (store.manifest.expires_at_unix ≤ℤ now))
        × ((status_of (serve_view_markdown http state store view headers now) ≡ 404)
            ↔ (store.manifest.expires_at_unix ≤ℤ now))
  unfolding serve_view_index serve_view_json serve_view_markdown
  serve-expired_iff state store view headers now = (
    manifest_late_iff state store headers now,
    unless_expired_iff state store now _
        (cached_or_ok (if_none_match_matches http headers store.view_index.etag) _ _ refl refl),
    unless_expired_iff state store now _
        (cached_or_ok (if_none_match_matches http headers view.view.etag) _ _ refl refl),
    unless_expired_iff state store now _
        (cached_or_ok (if_none_match_matches http headers view.view.etag) _ _ refl refl),
  )

module _ {H V U B : Type 0} (http : Http H V U B) {Value : Type 0} where
  -- The manifest, as it is sent to be cached.
  pub record IsFreshManifest (store : PreparedContentStore Value) (now : ℤ)
      (response : Response H B) : Type 0 where
    pub seconds : ℕ
    pub some_time : 1 ≤ seconds
    pub an_hour : seconds ≤ 3_600
    pub before_expiry : now +ℤ pos seconds ≤ℤ store.manifest.expires_at_unix
    pub status_ok : response.status ≡ 200
    pub exact_bytes : response.body ≡ bytes store.manifest.bytes
    pub cached_for :
        http.get_all response.headers cache_control
        ≡ values_of (http.header_value (codes "max-age=" ++ decimal seconds))

module _ {H V U B : Type 0} (http : Http H V U B) (laws : HeaderLaws http) where
  open laws use {get_all-insert_self, get_all-insert_ne}

  insert_cache :
      (h : H) (o : Option V) (n : Text)
      → http.get_all h n ≡ []
      → http.get_all (elim o [ none ↦ h | some v ↦ http.insert h n v ]) n ≡ values_of o
  insert_cache h none n e = e
  insert_cache h (some v) n e = get_all-insert_self h n v

  insert_other :
      (h : H) (o : Option V) (n m : Text)
      → n ≢ m
      → http.get_all (elim o [ none ↦ h | some v ↦ http.insert h n v ]) m ≡ http.get_all h m
  insert_other h none n m ne = refl
  insert_other h (some v) n m ne = get_all-insert_ne h n m v ne

module _ {H V U B : Type 0} (http : Http H V U B) (laws : HeaderLaws http)
    {Addr Value : Type 0} where
  open laws use {get_all-empty, get_all-insert_ne}

  -- While the manifest has not expired, and unless the client has it already, it is sent with its
  -- exact bytes, to be cached for some time, for an hour at most, and never past its expiry.
  pub serve_manifest-IsFreshManifest :
      (state : ProxyState Addr Value) (store : PreparedContentStore Value) (headers : H) (now : ℤ)
      → now <ℤ store.manifest.expires_at_unix
      → if_none_match_matches http headers store.manifest.etag ≡ false
      → IsFreshManifest http store now (serve_manifest http state store headers now).0
  unfolding serve_manifest
  serve_manifest-IsFreshManifest state store headers now fresh new =
      let not_late : leb_ℤ store.manifest.expires_at_unix now ≡ false = ground arith in
      let (some_time, an_hour, before_expiry) =
        clamp_cache-bounds store.manifest.expires_at_unix now fresh in
      rw (not_late, new)
        (record {
          seconds = pos_part (clamp_cache (store.manifest.expires_at_unix -ℤ now));
          some_time = some_time;
          an_hour = an_hour;
          before_expiry = before_expiry;
          status_ok = refl;
          exact_bytes = refl;
          cached_for =
              insert_other http laws _ (http.header_value store.manifest.etag) etag_header
                cache_control (λ h. absurd (lengths h))
              ∙ insert_cache http laws _ _ cache_control (
                  get_all-insert_ne http.empty content_type cache_control _
                    (λ h. absurd (lengths' h))
                  ∙ get_all-empty cache_control);
        })
    where
      lengths : etag_header ≡ cache_control → ⊥
      lengths h = omega (arith, ap length h)

      lengths' : content_type ≡ cache_control → ⊥
      lengths' h = omega (arith, ap length h)
