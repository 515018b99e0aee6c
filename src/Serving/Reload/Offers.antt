-- ===== src/Serving/Reload/Offers.antt =====
-- What the requests of crates/serving/src/lib.rs are answered with while reloads run beside them.
use ajar_gateway.Common.{◌≡◌, List, [], ◌∷◌, ◌++◌, some, ok, subst, All, All-split}
use ajar_gateway.Common.Int.{ℤ}
use ajar_gateway.Store.Model.{Bytes}
use ajar_gateway.Store.Backend.{FileSystem}
use ajar_gateway.Store.Validate.{Serde}
use ajar_gateway.Store.Load.{PreparedContentStore}
use ajar_gateway.Serving.Http.{Http, Request, Response, bytes}
use ajar_gateway.Serving.State.{ProxyState, increment_requests_total}
use ajar_gateway.Serving.Proxy.{Exchange, current_store, with_store, proxy_request}
use ajar_gateway.Serving.Proxy.Routes.{with_store-Routed}
use ajar_gateway.Serving.Proxy.Offer.{IsOffered}
use ajar_gateway.Serving.Proxy.Contents.{Routed-IsOffered}
use ajar_gateway.Serving.Reload.{Rest}
use ajar_gateway.Serving.Reload.Steps.{System, Flight, arrive, finish, Reach, here, and_then}
use ajar_gateway.Serving.Reload.Invariants.{IsSourced, IsSound, ReadsSourced, Reach-IsSound}

module _ {H V U B : Type 0} (http : Http H V U B) {Addr Value S : Type 0} (serde : Serde Value)
    (fs : FileSystem S) where
  -- A request that nothing runs beside is answered in two steps as `proxy_request` answers it.
  pub proxy_request-Reach :
      (exchange : Request H U B → Exchange H B) (state : ProxyState Addr Value)
      (pending : List (PreparedContentStore Value)) (settling : List (Rest Value))
      (in_flight : List (Flight (Request H U B) Value)) (r : Request H U B) (now : ℤ)
      → Reach http serde fs
          (record { state = state; pending = pending; settling = settling; in_flight = in_flight })
          (record {
            state = (proxy_request http exchange state r now).1;
            pending = pending;
            settling = settling;
            in_flight = in_flight;
          })
  unfolding proxy_request
  proxy_request-Reach exchange state pending settling in_flight r now =
      and_then _ _ _ (and_then _ _ _ (here _) (arrive state pending settling in_flight r)) (
        finish (increment_requests_total state) pending settling [] in_flight
          (record { asked = r; snapshot = current_store (increment_requests_total state) }) exchange
          now)

  -- However requests and reloads run beside each other from a state whose stores are prepared, the
  -- content of an answer is that of one prepared store, the one that the request read when it came
  -- in, also where another store has been swapped in since: the request is a GET that asks for it,
  -- and its manifest has not expired when it is answered.
  pub Reach-IsOffered :
      (a b : System (Request H U B) Addr Value) (before after : List (Flight (Request H U B) Value))
      (flight : Flight (Request H U B) Value) (exchange : Request H U B → Exchange H B) (now : ℤ)
      (response : Response H B) (content : Bytes)
      → IsSound serde fs a
      → Reach http serde fs a b
      → b.in_flight ≡ before ++ flight ∷ after
      → (with_store http exchange b.state flight.asked now flight.snapshot).0 ≡ ok response
      → response.body ≡ bytes content
      → (store : PreparedContentStore Value) × (flight.snapshot ≡ ok (some store))
        × IsSourced serde fs store
        × IsOffered http store flight.asked now content
  Reach-IsOffered a b before after flight exchange now response content sound path is_flight
        answered body =
      let reading = (Reach-IsSound http serde fs a b path sound).reading in
      let (_, sourced, _) =
        All-split (ReadsSourced serde fs) before flight after
          (subst (All (ReadsSourced serde fs)) is_flight reading) in
      let (store, is_store, offered) =
        Routed-IsOffered http exchange b.state flight.asked now flight.snapshot _ response content
          (with_store-Routed http exchange b.state flight.asked now flight.snapshot) answered
          body in
      (store, is_store, sourced store is_store, offered)
