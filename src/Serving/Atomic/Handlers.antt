-- ===== src/Serving/Atomic/Handlers.antt =====
-- The handlers of crates/serving/src/lib.rs as rows of atomic operations: what they do to the shared
-- state does not depend on it beyond the configuration and the store that was read.
use ajar_gateway.Common.{ap, ◌∙◌, Bool, true, if◌then◌else◌, Option, none, some, Result, ok, err}
use ajar_gateway.Common.Int.{ℤ, leb_ℤ, ltb_ℤ}
use ajar_gateway.Text.{codes, text_eq}
use ajar_gateway.Store.Model.{StoredView}
use ajar_gateway.Store.Load.{PreparedContentStore, view_for_request_target}
use ajar_gateway.Serving.Http.{Http, Request, Response}
use ajar_gateway.Serving.Config.{ValidatedConfig}
use ajar_gateway.Serving.Headers.{if_none_match_matches, combined_accept_header}
use ajar_gateway.Serving.Negotiate.{Representation, ajar_json, markdown, passthrough, negotiate}
use ajar_gateway.Serving.Problem.{ProxyHttpError, empty_response, upstream_timeout, upstream_failed}
use ajar_gateway.Serving.Serve.{
  serve_manifest, serve_view_index, serve_view_json, serve_view_markdown, expired_response,
  unless_expired,
}
use ajar_gateway.Serving.Upstream.{request_target, build_upstream_request}
use ajar_gateway.Serving.Proxy.{
  Exchange, answered, failed, timed_out, manifest_path, succeed, returned, received, sent, forward,
  view_answer, target_answer, from_store, with_store,
}
use ajar_gateway.Serving.Atomic.{
  Counter, views_served, manifest_served, upstream_errors, negotiation_passthrough, increment,
}
use ajar_gateway.Serving.Atomic.Rows.{IsAtomic, pure, counted, noted, branched, preceded, chosen}

module _ {H V U B : Type 0} (http : Http H V U B) {Addr Value : Type 0}
    (config : ValidatedConfig Addr) (now : ℤ) where
  -- An answer from the store that is in time: already at the client, or sent and counted.
  sent_or_cached :
      (matched : Bool) (response : Response H B) (c : Counter)
      → IsAtomic {H = H} {B = B} {Addr = Addr} {Value = Value} config (λ state.
        succeed
          (if matched then (empty_response http 304, state) else (response, increment c state)))
  sent_or_cached matched response c =
      chosen config matched _ _ (pure config (ok (empty_response http 304)))
        (counted config (ok response) c)

  -- The same behind the check of the expiry.
  in_time_or_late :
      (store : PreparedContentStore Value) (matched : Bool) (response : Response H B) (c : Counter)
      → IsAtomic {Addr = Addr} config (λ state. succeed (
          unless_expired http state store now
            (if matched then (empty_response http 304, state) else (response, increment c state))))
  in_time_or_late store matched response c =
      chosen config (ltb_ℤ now store.manifest.expires_at_unix) _ _
        (sent_or_cached matched response c) (noted config (ok (expired_response http)))

  serve_manifest-IsAtomic :
      (store : PreparedContentStore Value) (headers : H)
      → IsAtomic {Addr = Addr} config
          (λ state. succeed (serve_manifest http state store headers now))
  unfolding serve_manifest
  serve_manifest-IsAtomic store headers =
      chosen config (leb_ℤ store.manifest.expires_at_unix now) _ _
        (noted config (ok (expired_response http)))
        (sent_or_cached (if_none_match_matches http headers store.manifest.etag) _ manifest_served)

  serve_view_index-IsAtomic :
      (store : PreparedContentStore Value) (headers : H)
      → IsAtomic {Addr = Addr} config
          (λ state. succeed (serve_view_index http state store headers now))
  unfolding serve_view_index
  serve_view_index-IsAtomic store headers =
      in_time_or_late store (if_none_match_matches http headers store.view_index.etag) _
        views_served

  serve_view_json-IsAtomic :
      (store : PreparedContentStore Value) (view : StoredView) (headers : H)
      → IsAtomic {Addr = Addr} config
          (λ state. succeed (serve_view_json http state store view headers now))
  unfolding serve_view_json
  serve_view_json-IsAtomic store view headers =
      in_time_or_late store (if_none_match_matches http headers view.view.etag) _ views_served

  serve_view_markdown-IsAtomic :
      (store : PreparedContentStore Value) (view : StoredView) (headers : H)
      → IsAtomic {Addr = Addr} config
          (λ state. succeed (serve_view_markdown http state store view headers now))
  unfolding serve_view_markdown
  serve_view_markdown-IsAtomic store view headers =
      in_time_or_late store (if_none_match_matches http headers view.view.etag) _ views_served

module _ {H V U B : Type 0} (http : Http H V U B) {Addr Value : Type 0}
    (config : ValidatedConfig Addr) (exchange : Request H U B → Exchange H B) where
  received-IsAtomic :
      (store : Option (PreparedContentStore Value)) (outcome : Exchange H B)
      → IsAtomic {Addr = Addr} config (λ state. received http store state outcome)
  received-IsAtomic store (answered status headers body) =
      pure config (ok (returned http store status headers body))
  received-IsAtomic store failed = counted config (err upstream_failed) upstream_errors
  received-IsAtomic store timed_out = counted config (err upstream_timeout) upstream_errors

  sent-IsAtomic :
      (store : Option (PreparedContentStore Value)) (built : Result ProxyHttpError (Request H U B))
      → IsAtomic {Addr = Addr} config (λ state. sent http exchange store state built)
  sent-IsAtomic store (err e) = pure config (err e)
  sent-IsAtomic store (ok request) = received-IsAtomic store (exchange request)

  forward-IsAtomic :
      (store : Option (PreparedContentStore Value)) (request : Request H U B)
      → IsAtomic {Addr = Addr} config (λ state. forward http exchange store state request)
  unfolding forward
  forward-IsAtomic store request =
      let run = sent-IsAtomic store (build_upstream_request http config request) in
      record {
        answer = run.answer;
        effects = run.effects;
        acts = λ state same.
            ap (λ c. sent http exchange store state (build_upstream_request http c request)) same
            ∙ run.acts state same;
      }

  view_answer-IsAtomic :
      (store : PreparedContentStore Value) (view : StoredView) (request : Request H U B) (now : ℤ)
      (wanted : Representation)
      → IsAtomic {Addr = Addr} config
          (λ state. view_answer http exchange store view state request now wanted)
  view_answer-IsAtomic store view request now ajar_json =
      serve_view_json-IsAtomic http config now store view request.headers
  view_answer-IsAtomic store view request now markdown =
      serve_view_markdown-IsAtomic http config now store view request.headers
  view_answer-IsAtomic store view request now passthrough =
      preceded config negotiation_passthrough _ (forward-IsAtomic (some store) request)

  target_answer-IsAtomic :
      (store : PreparedContentStore Value) (request : Request H U B) (now : ℤ)
      (found : Option StoredView)
      → IsAtomic {Addr = Addr} config
          (λ state. target_answer http exchange store state request now found)
  target_answer-IsAtomic store request now none = forward-IsAtomic (some store) request
  target_answer-IsAtomic store request now (some view) =
      view_answer-IsAtomic store view request now
        (negotiate (combined_accept_header http request.headers) true)

  from_store-IsAtomic :
      (store : PreparedContentStore Value) (request : Request H U B) (now : ℤ)
      → IsAtomic {Addr = Addr} config (λ state. from_store http exchange store state request now)
  unfolding from_store
  from_store-IsAtomic store request now =
      branched config (text_eq (http.path request.uri) manifest_path) _ _
        (serve_manifest-IsAtomic http config now store request.headers)
        (branched config (text_eq (http.path request.uri) store.manifest.views_index) _ _
          (serve_view_index-IsAtomic http config now store request.headers)
          (target_answer-IsAtomic store request now
            (view_for_request_target store (request_target http request.uri))))

  -- What a request does once it has read the store is a row of atomic operations, and neither they
  -- nor the answer depend on the state that they meet.
  pub with_store-IsAtomic :
      (request : Request H U B) (now : ℤ)
      (snapshot : Result ProxyHttpError (Option (PreparedContentStore Value)))
      → IsAtomic {Addr = Addr} config (λ state. with_store http exchange state request now snapshot)
  with_store-IsAtomic request now (err e) = pure config (err e)
  with_store-IsAtomic request now (ok none) = forward-IsAtomic none request
  with_store-IsAtomic request now (ok (some store)) =
      branched config (text_eq request.method (codes "GET")) _ _
        (from_store-IsAtomic store request now) (forward-IsAtomic (some store) request)
