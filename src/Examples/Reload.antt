-- ===== src/Examples/Reload.antt =====
-- Instances of the theorems on the steps of crates/serving, at a run in which a reload swaps the
-- store while a request is under way.
use ajar_gateway.Common.{ℕ, ◌≡◌, refl, subst, some-injective, true, some, [], ◌∷◌, ok, arith}
use ajar_gateway.Text.{Text, text_eq, starts_with, strip_prefix}
use ajar_gateway.Store.Load.{PreparedContentStore}
use ajar_gateway.Store.Load.Prepared.{load_from_dir-IsPrepared}
use ajar_gateway.Serving.Http.{Request, Response, bytes}
use ajar_gateway.Serving.Headers.{if_none_match_matches, texts}
use ajar_gateway.Serving.Config.{validate}
use ajar_gateway.Serving.State.{Shared, ProxyState, increment_requests_total}
use ajar_gateway.Serving.Serve.{serve_manifest}
use ajar_gateway.Serving.Proxy.{manifest_path, current_store, with_store, from_store}
use ajar_gateway.Serving.Proxy.Offer.{IsOffered}
use ajar_gateway.Serving.Reload.{try_swap, advance, counting, clearing, announcing}
use ajar_gateway.Serving.Reload.Swap.{with_current}
use ajar_gateway.Serving.Reload.Steps.{
  System, Flight, arrive, finish, load, swap, settle, Reach, here, and_then, NotOlder,
  Reach-NotOlder,
}
use ajar_gateway.Serving.Reload.Invariants.{
  IsQuietSystem, Reach-IsQuiet, IsSound, IsSourced, Reach-IsSound,
}
use ajar_gateway.Serving.Reload.Publication.{IsHistory, Reach-IsHistory}
use ajar_gateway.Serving.Reload.Offers.{Reach-IsOffered}
use ajar_gateway.Serving.Start.{start}
use ajar_gateway.Serving.Start.Laws.{started, IsServing, start-Reach}
use ajar_gateway.Examples.Headers.{Headers, map_http}
use ajar_gateway.Examples.Site.{dir, site_fs, site_serde, site_store, today, site_loads}
use ajar_gateway.Examples.Serving.{config, state, shared, headers, get_page, origin}

abbrev get_manifest : Request Headers Text ℕ
get_manifest = record get_page { uri = manifest_path }

abbrev counted : ProxyState ℕ ℕ
counted = increment_requests_total state

abbrev flight : Flight (Request Headers Text ℕ) ℕ
flight = record { asked = get_manifest; snapshot = current_store counted }

-- The request comes in, and a reload loads its directory and writes it under the lock.
abbrev swapped : System (Request Headers Text ℕ) ℕ ℕ
swapped = record {
  state = with_current counted shared (site_store 3);
  pending = [];
  settling = counting (site_store 3) ∷ [];
  in_flight = flight ∷ [];
}

writes : try_swap shared (site_store 3) ≡ ok (record shared { current = site_store 3 })
unfolding try_swap
writes = refl

steps_to_swapped : Reach map_http site_serde site_fs (started state) swapped
steps_to_swapped =
    and_then _ _ _
      (and_then _ _ _ (and_then _ _ _ (here (started state)) (arrive state [] [] [] get_manifest))
        (load counted [] [] (flight ∷ []) 3 today dir (site_store 3) refl site_loads))
      (swap counted [] [] [] (flight ∷ []) shared (record shared { current = site_store 3 })
        (site_store 3) refl writes)

-- The reload is counted and clears the flag, the request is answered, and the reload has still to
-- write its line.
abbrev answered_state : ProxyState ℕ ℕ
answered_state =
    (with_store map_http origin
      (advance (clearing (site_store 3)) (advance (counting (site_store 3)) swapped.state))
      get_manifest today (current_store counted)).1

abbrev last : System (Request Headers Text ℕ) ℕ ℕ
last = record {
  state = answered_state;
  pending = [];
  settling = announcing (site_store 3) ∷ [];
  in_flight = [];
}

steps : Reach map_http site_serde site_fs (started state) last
steps =
    and_then _ _ _
      (and_then _ _ _
        (and_then _ _ _ steps_to_swapped
          (settle swapped.state [] [] [] (flight ∷ []) (counting (site_store 3))))
        (settle (advance (counting (site_store 3)) swapped.state) [] [] [] (flight ∷ [])
          (clearing (site_store 3))))
      (finish _ [] (announcing (site_store 3) ∷ []) [] [] flight origin today)

Reach-NotOlder_example : NotOlder state.store last.state.store
Reach-NotOlder_example = Reach-NotOlder map_http site_serde site_fs (started state) last steps

Reach-IsQuiet_example : IsQuietSystem last
Reach-IsQuiet_example =
    Reach-IsQuiet map_http site_serde site_fs (started state) last steps (omega arith)

served_at_start : (x : Shared ℕ) → some shared ≡ some x → IsSourced site_serde site_fs x.current
served_at_start x h =
    subst (λ (y : Shared ℕ). IsSourced site_serde site_fs y.current) (some-injective _ _ h)
      (record {
        files = 3;
        dir = dir;
        loaded_at = today;
        prepared =
            load_from_dir-IsPrepared site_serde site_fs 3 dir today (site_store 3) site_loads;
      })

IsSound-at_start : IsSound {R = Request Headers Text ℕ} site_serde site_fs (started state)
IsSound-at_start = record { served = served_at_start; waiting = tt; reading = tt }

Reach-IsSound_example : IsSound site_serde site_fs last
Reach-IsSound_example =
    Reach-IsSound map_http site_serde site_fs (started state) last steps IsSound-at_start

starts : start map_http site_serde site_fs 3 (λ bound address. true) config today ≡ ok state
unfolding start validate text_eq starts_with strip_prefix
starts = rw site_loads

start-Reach_example : IsServing map_http site_serde site_fs 3 config today state last
start-Reach_example =
    start-Reach map_http site_serde site_fs 3 (λ bound address. true) config today state last starts
      steps

abbrev manifest_answer : Response Headers ℕ
manifest_answer = (serve_manifest map_http swapped.state (site_store 3) headers today).0

manifest_is_answered :
    (with_store map_http origin swapped.state get_manifest today (current_store counted)).0
    ≡ ok manifest_answer
unfolding current_store from_store if_none_match_matches texts text_eq serve_manifest
manifest_is_answered = refl

manifest_bytes : manifest_answer.body ≡ bytes (3 ∷ [])
unfolding if_none_match_matches texts text_eq serve_manifest
manifest_bytes = refl

Reach-IsOffered_example :
    (store : PreparedContentStore ℕ) × (current_store counted ≡ ok (some store))
    × IsSourced site_serde site_fs store
    × IsOffered map_http store get_manifest today (3 ∷ [])
Reach-IsOffered_example =
    Reach-IsOffered map_http site_serde site_fs (started state) swapped [] [] flight origin today
      manifest_answer (3 ∷ []) IsSound-at_start steps_to_swapped refl manifest_is_answered
      manifest_bytes

Reach-IsHistory_example : IsHistory site_serde site_fs (started state) last
Reach-IsHistory_example =
    Reach-IsHistory map_http site_serde site_fs (started state) last IsSound-at_start steps
