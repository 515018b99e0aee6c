-- ===== src/Serving/Serve/Cached.antt =====
-- The answers of crates/serving/src/lib.rs to a client that has what it asks for.
use ajar_gateway.Common.{◌≡◌, ap, ◌↔◌, Bool, true, arith}
use ajar_gateway.Common.Int.{ℤ, ◌<ℤ◌}
use ajar_gateway.Store.Model.{Bytes, StoredView}
use ajar_gateway.Store.Load.{PreparedContentStore}
use ajar_gateway.Serving.Http.{Http, Response}
use ajar_gateway.Serving.Headers.{if_none_match_matches}
use ajar_gateway.Serving.State.{ProxyState}
use ajar_gateway.Serving.Problem.{empty_response, problem_response}
use ajar_gateway.Serving.Serve.{
  serve_manifest, serve_view_index, serve_view_json, serve_view_markdown,
}
use ajar_gateway.Serving.Serve.Cases.{
  Stored, expired, cached, fresh, serve_manifest-Stored, serve_view_index-Stored,
  serve_view_json-Stored, serve_view_markdown-Stored,
}

module _ {H V U B : Type 0} (http : Http H V U B) {Addr Value : Type 0} where
  -- The answer is 304 without headers and body, and nothing changes, exactly while the manifest has
  -- not expired and the client has named the tag.
  pub record NotModified (store : PreparedContentStore Value) (now : ℤ)
      (state : ProxyState Addr Value) (matched : Bool)
      (answer : Response H B × ProxyState Addr Value) : Type 0 where
    pub told_iff :
        (answer.0.status ≡ 304) ↔ ((now <ℤ store.manifest.expires_at_unix) × (matched ≡ true))
    pub nothing_else : answer.0.status ≡ 304 → answer ≡ (empty_response http 304, state)

  Stored-NotModified :
      (store : PreparedContentStore Value) (now : ℤ) (state counted : ProxyState Addr Value)
      (content : Bytes) (matched : Bool) (answer : Response H B × ProxyState Addr Value)
      → Stored http store now state counted content matched answer
      → NotModified store now state matched answer
  unfolding problem_response
  Stored-NotModified store now state counted content matched answer (expired late is) =
      let status : answer.0.status ≡ 404 =
        ap (λ (a : Response H B × ProxyState Addr Value). a.0.status) is in
      record {
        told_iff =
            (λ h. absurd (omega (arith, h, status)), λ k. absurd (ground (arith, late, k.0)));
        nothing_else = λ h. absurd (omega (arith, h, status));
      }
  Stored-NotModified store now state counted content matched answer (cached in_time same is) =
      record {
        told_iff = (
          λ _. (in_time, same),
          λ _. ap (λ (a : Response H B × ProxyState Addr Value). a.0.status) is,
        );
        nothing_else = λ _. is;
      }
  Stored-NotModified store now state counted content matched answer (fresh in_time new status _ _) =
      record {
        told_iff = (λ h. absurd (omega (arith, h, status)), λ k. absurd (ground (arith, new, k.1)));
        nothing_else = λ h. absurd (omega (arith, h, status));
      }

  -- A client is told that it has what it asks for, with 304, no headers and no body, exactly while
  -- the manifest has not expired and its headers name the tag: that of the manifest, that of the
  -- index, and for both forms of a View that of the View object. Nothing changes then.
  pub serve-NotModified :
      (state : ProxyState Addr Value) (store : PreparedContentStore Value) (view : StoredView)
      (headers : H) (now : ℤ)
      → NotModified store now state
          (if_none_match_matches http headers store.manifest.etag)
          (serve_manifest http state store headers now)
        × NotModified store now state
            (if_none_match_matches http headers store.view_index.etag)
            (serve_view_index http state store headers now)
        × NotModified store now state
            (if_none_match_matches http headers view.view.etag)
            (serve_view_json http state store view headers now)
        × NotModified store now state
            (if_none_match_matches http headers view.view.etag)
            (serve_view_markdown http state store view headers now)
  serve-NotModified state store view headers now = (
    Stored-NotModified store now state _ _ _ _ (serve_manifest-Stored http state store headers now),
    Stored-NotModified store now state _ _ _ _
        (serve_view_index-Stored http state store headers now),
    Stored-NotModified store now state _ _ _ _
        (serve_view_json-Stored http state store view headers now),
    Stored-NotModified store now state _ _ _ _
        (serve_view_markdown-Stored http state store view headers now),
  )
