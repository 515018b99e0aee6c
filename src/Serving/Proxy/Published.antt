-- ===== src/Serving/Proxy/Published.antt =====
-- From a file of the store directory to the answer that carries it, in crates/store/src/lib.rs and
-- crates/serving/src/lib.rs.
use ajar_gateway.Common.{
  ◌≡◌, ◌≢◌, refl, ap, Bool, true, false, Option, some, Result, ok, Some, arith, ◌∙◌, if_lem,
}
use ajar_gateway.Common.Int.{ℤ, ◌<ℤ◌}
use ajar_gateway.Text.{codes, text_eq, utf8}
use ajar_gateway.Text.Laws.{text_eq_iff}
use ajar_gateway.Store.Model.{Bytes, StoredView}
use ajar_gateway.Store.FilePath.{FilePath}
use ajar_gateway.Store.Backend.{FileSystem}
use ajar_gateway.Store.Validate.{Serde}
use ajar_gateway.Store.Load.{PreparedContentStore, load_view, view_for_request_target}
use ajar_gateway.Store.Load.Prepared.{IsPrepared}
use ajar_gateway.Store.Load.Listed.{ListsNames, load_view-read}
use ajar_gateway.Store.Load.Files.{IsPrepared-view_for_request_target}
use ajar_gateway.Serving.Http.{Http, Request, Response, bytes}
use ajar_gateway.Serving.Headers.{if_none_match_matches, combined_accept_header}
use ajar_gateway.Serving.Negotiate.{Representation, ajar_json, markdown, negotiate}
use ajar_gateway.Serving.State.{Shared, ProxyState, increment_requests_total}
use ajar_gateway.Serving.Problem.{ProxyHttpError}
use ajar_gateway.Serving.Serve.{serve_view_json, serve_view_markdown, render_markdown}
use ajar_gateway.Serving.Serve.Cases.{
  Stored, expired, cached, fresh, serve_view_json-Stored, serve_view_markdown-Stored,
}
use ajar_gateway.Serving.Upstream.{request_target}
use ajar_gateway.Serving.Proxy.{
  Exchange, Handled, manifest_path, readable, succeed, view_answer, from_store, current_store,
  with_store, proxy_request,
}

-- The bytes of a View in a representation.
pub data Represents (view : StoredView) : Representation → Bytes → Type 0 where
  as_json : Represents view ajar_json view.bytes
  as_markdown : Represents view markdown (utf8 (render_markdown view))

module _ {H V U B : Type 0} (http : Http H V U B) {Addr Value : Type 0} where
  -- An answer with status 200 and the given bytes.
  pub record IsSent (content : Bytes) (answer : Handled H B Addr Value) : Type 0 where
    pub response : Response H B
    pub is_ok : answer.0 ≡ ok response
    pub status_ok : response.status ≡ 200
    pub exact_bytes : response.body ≡ bytes content

  Stored-IsSent :
      (store : PreparedContentStore Value) (now : ℤ) (state counted : ProxyState Addr Value)
      (content : Bytes) (matched : Bool) (given : Response H B × ProxyState Addr Value)
      → now <ℤ store.manifest.expires_at_unix
      → matched ≡ false
      → Stored http store now state counted content matched given
      → IsSent content (succeed given)
  Stored-IsSent store now state counted content matched given in_time new (expired late _) =
      absurd (ground arith)
  Stored-IsSent store now state counted content matched given in_time new (cached _ same _) =
      absurd (cc)
  Stored-IsSent store now state counted content matched given in_time new
        (fresh _ _ status body _) =
      record { response = given.0; is_ok = refl; status_ok = status; exact_bytes = body }

module _ {H V U B : Type 0} (http : Http H V U B) {Addr Value : Type 0}
    (exchange : Request H U B → Exchange H B) where
  view_answer-IsSent :
      (store : PreparedContentStore Value) (view : StoredView) (state : ProxyState Addr Value)
      (request : Request H U B) (now : ℤ) (chosen : Representation) (content : Bytes)
      → Represents view chosen content
      → now <ℤ store.manifest.expires_at_unix
      → if_none_match_matches http request.headers view.view.etag ≡ false
      → IsSent http content (view_answer http exchange store view state request now chosen)
  view_answer-IsSent store view state request now _ _ as_json in_time new =
      Stored-IsSent http store now state _ view.bytes _
        (serve_view_json http state store view request.headers now) in_time new
        (serve_view_json-Stored http state store view request.headers now)
  view_answer-IsSent store view state request now _ _ as_markdown in_time new =
      Stored-IsSent http store now state _ (utf8 (render_markdown view)) _
        (serve_view_markdown http state store view request.headers now) in_time new
        (serve_view_markdown-Stored http state store view request.headers now)

  -- A GET that names a View of the store gets to it.
  with_store-view :
      (store : PreparedContentStore Value) (view : StoredView) (state : ProxyState Addr Value)
      (request : Request H U B) (now : ℤ)
      → request.method ≡ codes "GET"
      → http.path request.uri ≢ manifest_path
      → http.path request.uri ≢ store.manifest.views_index
      → view_for_request_target store (request_target http request.uri) ≡ some view
      → with_store http exchange state request now (ok (some store))
        ≡ view_answer http exchange store view state request now
            (negotiate (combined_accept_header http request.headers) true)
  unfolding from_store
  with_store-view store view state request now get other no_index found =
      let is_get : text_eq request.method (codes "GET") ≡ true =
        (text_eq_iff request.method (codes "GET")).1 get in
      let differs : text_eq (http.path request.uri) manifest_path ≡ false =
        ground (arith, text_eq_iff (http.path request.uri) manifest_path) in
      let differs_too : text_eq (http.path request.uri) store.manifest.views_index ≡ false =
        ground (arith, text_eq_iff (http.path request.uri) store.manifest.views_index) in
      rw (is_get, differs, differs_too, found)

  current_store-usable :
      (state : ProxyState Addr Value) (shared : Shared Value)
      → state.store ≡ some shared
      → shared.poisoned ≡ false
      → current_store (increment_requests_total state) ≡ ok (some shared.current)
  unfolding current_store
  current_store-usable state shared is_shared usable = ap readable is_shared ∙ by_lock
    where
      by_lock : readable (some shared) ≡ ok (some shared.current)
      by_lock =
          if_lem
            (λ (r : Result ProxyHttpError (Option (PreparedContentStore Value))).
              r ≡ ok (some shared.current))
            shared.poisoned _ _ (λ h. absurd (cc)) (λ _. refl)

module _ {H V U B : Type 0} (http : Http H V U B) {Addr Value S : Type 0} (serde : Serde Value)
    (fs : FileSystem S) (exchange : Request H U B → Exchange H B) where
  -- A file among the Views of the store directory is published: while the gateway serves the store
  -- that was loaded from the directory, behind a lock that is not poisoned, a GET of the file's
  -- request target, which is neither the path of the manifest nor that of the index, with an Accept
  -- header that chooses the View object or markdown, is answered with 200 and with the bytes of the
  -- View or with its markdown, before the manifest expires and unless the client names the tag of
  -- the View; and the bytes of the View are those that the file had, if the listing of the
  -- directory gave the names of its entries.
  pub proxy_request-IsSent :
      (s : S) (dir file : FilePath) (loaded_at now : ℤ) (state : ProxyState Addr Value)
      (shared : Shared Value) (prepared : IsPrepared serde fs s dir loaded_at shared.current)
      (view : StoredView) (request : Request H U B) (content : Bytes)
      → ListsNames fs
      → Some (λ p. p ≡ file) prepared.files
      → load_view serde fs s dir file ≡ ok (request_target http request.uri, view)
      → state.store ≡ some shared
      → shared.poisoned ≡ false
      → request.method ≡ codes "GET"
      → http.path request.uri ≢ manifest_path
      → http.path request.uri ≢ shared.current.manifest.views_index
      → Represents view (negotiate (combined_accept_header http request.headers) true) content
      → now <ℤ shared.current.manifest.expires_at_unix
      → if_none_match_matches http request.headers view.view.etag ≡ false
      → IsSent http content (proxy_request http exchange state request now)
        × (fs.read s file ≡ ok view.bytes)
  unfolding proxy_request
  proxy_request-IsSent s dir file loaded_at now state shared prepared view request content names
        listed loads is_shared usable get other no_index represents in_time new =
      let found =
        IsPrepared-view_for_request_target serde fs s dir loaded_at shared.current file
          (request_target http request.uri) view prepared listed loads in
      let counted = increment_requests_total state in
      let store_is = current_store-usable http exchange state shared is_shared usable in
      (
        rw
            (
              store_is,
              with_store-view http exchange shared.current view counted request now get other
                  no_index found,
            )
            (view_answer-IsSent http exchange shared.current view counted request now _ content
              represents in_time new),
        load_view-read serde fs s dir names prepared.files file (request_target http request.uri)
            view prepared.listed listed loads,
      )
