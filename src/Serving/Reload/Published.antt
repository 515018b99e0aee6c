-- ===== src/Serving/Reload/Published.antt =====
-- From a file that is put into the store directory to the answer that carries it, by way of
-- `reload_store`, in crates/serving/src/lib.rs.
use ajar_gateway.Common.{
  ◌≡◌, ◌≢◌, refl, sym, ◌∙◌, true, false, some, List, ok, ok-injective, subst, Some,
}
use ajar_gateway.Common.Int.{ℤ, ◌<ℤ◌, ◌≤ℤ◌}
use ajar_gateway.Text.{codes}
use ajar_gateway.Store.Model.{Bytes, StoredView}
use ajar_gateway.Store.FilePath.{FilePath, join_path}
use ajar_gateway.Store.Backend.{FileSystem}
use ajar_gateway.Store.Validate.{Serde}
use ajar_gateway.Store.Load.{
  PreparedContentStore, json_files, load_view, load_from_dir, manifest_sequence,
}
use ajar_gateway.Store.Load.Listed.{ListsNames}
use ajar_gateway.Store.Load.Prepared.{load_from_dir-IsPrepared}
use ajar_gateway.Serving.Http.{Http, Request}
use ajar_gateway.Serving.Headers.{if_none_match_matches, combined_accept_header}
use ajar_gateway.Serving.Negotiate.{negotiate}
use ajar_gateway.Serving.State.{Shared, ProxyState}
use ajar_gateway.Serving.Upstream.{request_target}
use ajar_gateway.Serving.Proxy.{Exchange, manifest_path, proxy_request}
use ajar_gateway.Serving.Proxy.Published.{Represents, IsSent, proxy_request-IsSent}
use ajar_gateway.Serving.Reload.{reload_store, reloaded_state}
use ajar_gateway.Serving.Reload.Swap.{with_current}
use ajar_gateway.Serving.Reload.Laws.{reload_store-swap}

module _ {H V U B : Type 0} (http : Http H V U B) {Addr Value S : Type 0} (serde : Serde Value)
    (fs : FileSystem S) (exchange : Request H U B → Exchange H B) where
  -- A reload publishes the files of the directory: where the directory loads, the lock is not
  -- poisoned and the manifest is not older than the one served, the reload is answered with 200, and
  -- a GET that comes next for the request target of a View's file, which is neither the path of the
  -- manifest nor that of the index, with an Accept header that chooses the View object or markdown,
  -- is answered with 200 and with the bytes of the View or with its markdown, before the new
  -- manifest expires and unless the client names the tag of the View; and the bytes of the View are
  -- those that the file had at the reload, if the listing of the directory gave the names of its
  -- entries.
  pub reload_store-IsSent :
      (s : S) (dir file : FilePath) (reloaded_at now : ℤ) (state : ProxyState Addr Value)
      (shared : Shared Value) (loaded : PreparedContentStore Value) (files : List FilePath)
      (view : StoredView) (request : Request H U B) (content : Bytes)
      → ListsNames fs
      → state.config.store_dir ≡ some dir
      → state.store ≡ some shared
      → shared.poisoned ≡ false
      → load_from_dir serde fs s dir reloaded_at ≡ ok loaded
      → manifest_sequence shared.current ≤ℤ manifest_sequence loaded
      → json_files fs s (join_path dir (codes "views")) ≡ ok files
      → Some (λ p. p ≡ file) files
      → load_view serde fs s dir file ≡ ok (request_target http request.uri, view)
      → request.method ≡ codes "GET"
      → http.path request.uri ≢ manifest_path
      → http.path request.uri ≢ loaded.manifest.views_index
      → Represents view (negotiate (combined_accept_header http request.headers) true) content
      → now <ℤ loaded.manifest.expires_at_unix
      → if_none_match_matches http request.headers view.view.etag ≡ false
      → ((reload_store http serde fs s state reloaded_at).0.status ≡ 200)
        × IsSent http content (
            proxy_request http exchange
              (reload_store http serde fs s state reloaded_at).1
              request
              now)
        × (fs.read s file ≡ ok view.bytes)
  reload_store-IsSent s dir file reloaded_at now state shared loaded files view request content
        names dir_is shared_is usable loads newer listed member loads_view get other no_index
        represents in_time new =
      let (status, after) =
        reload_store-swap http serde fs s state reloaded_at dir shared loaded dir_is shared_is loads
          usable newer in
      let prepared = load_from_dir-IsPrepared serde fs s dir reloaded_at loaded loads in
      let place =
        subst (Some (λ p. p ≡ file)) (ok-injective (sym listed ∙ prepared.listed)) member in
      let (is_sent, read) =
        proxy_request-IsSent http serde fs exchange s dir file reloaded_at now
          (reloaded_state (with_current state shared loaded) loaded)
          (record shared { current = loaded }) prepared view request content names place loads_view
          refl usable get other no_index represents in_time new in
      (
        status,
        subst (λ st. IsSent http content (proxy_request http exchange st request now)) (sym after)
            is_sent,
        read,
      )
