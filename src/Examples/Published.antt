-- ===== src/Examples/Published.antt =====
-- A View of the site of `Site`, published by the gateway of `Serving`.
use ajar_gateway.Common.{
  ℕ, ◌≡◌, ◌≢◌, refl, sym, subst, true, false, [], ◌∷◌, All, Some, inl, ok, ok-injective, arith, ◌∙◌,
}
use ajar_gateway.Text.{Text, codes, text_eq, split, starts_with, join}
use ajar_gateway.Text.Decode.{to_str}
use ajar_gateway.Store.FilePath.{join_path, extension, file_name, components}
use ajar_gateway.Store.Load.{json_files, json_entries, load_view}
use ajar_gateway.Store.FilePath.Names.{IsName}
use ajar_gateway.Store.Load.Listed.{IsEntry, ListsNames}
use ajar_gateway.Store.Load.Prepared.{IsPrepared, load_from_dir-IsPrepared}
use ajar_gateway.Serving.Http.{Request}
use ajar_gateway.Serving.Headers.{if_none_match_matches, combined_accept_header, texts}
use ajar_gateway.Serving.Negotiate.{negotiate}
use ajar_gateway.Serving.Upstream.{request_target}
use ajar_gateway.Serving.Proxy.{manifest_path, proxy_request}
use ajar_gateway.Serving.Reload.{reload_store}
use ajar_gateway.Serving.Reload.Published.{reload_store-IsSent}
use ajar_gateway.Serving.Proxy.Published.{Represents, as_json, IsSent, proxy_request-IsSent}
use ajar_gateway.Examples.Headers.{Headers, map_http}
use ajar_gateway.Examples.Site.{
  dir, site_fs, site_serde, site_store, stored_view, today, view_file, view_loads, site_loads,
}
use ajar_gateway.Examples.Serving.{state, shared, origin}

abbrev get_view : Request Headers Text ℕ
get_view = record {
  method = codes "GET";
  uri = codes "/a";
  headers = (codes "accept", codes "application/ajar+json") ∷ [];
  body = 0;
}

prepared : IsPrepared site_serde site_fs 3 dir today (site_store 3)
prepared = load_from_dir-IsPrepared site_serde site_fs 3 dir today (site_store 3) site_loads

files_are : json_files site_fs 3 (join_path dir (codes "views")) ≡ ok (view_file ∷ [])
unfolding json_files json_entries extension file_name components to_str join_path starts_with
    text_eq split
files_are = refl

is_listed : Some (λ p. p ≡ view_file) prepared.files
is_listed =
    subst (Some (λ p. p ≡ view_file)) (ok-injective (sym files_are ∙ prepared.listed)) (inl refl)

pub a_json-IsName : IsName (codes "a.json")
unfolding text_eq
a_json-IsName = record { some_byte = refl; no_slash = ground arith; not_here = refl; not_up = refl }

pub notes_txt-IsName : IsName (codes "notes.txt")
unfolding text_eq
notes_txt-IsName = record {
  some_byte = refl;
  no_slash = ground arith;
  not_here = refl;
  not_up = refl;
}

site_names : ListsNames site_fs
site_names = record {
  names = λ s path entries h.
      subst (All IsEntry) (ok-injective h) (a_json-IsName, (notes_txt-IsName, tt));
}

target_is :
    load_view site_serde site_fs 3 dir view_file
    ≡ ok (request_target map_http (codes "/a"), stored_view)
unfolding request_target
target_is = view_loads

chooses :
    Represents stored_view
      (negotiate (combined_accept_header map_http get_view.headers) true)
      stored_view.bytes
unfolding negotiate combined_accept_header texts text_eq join
chooses = as_json

not_manifest : codes "/a" ≢ manifest_path
not_manifest h = absurd (cc)

not_index : codes "/a" ≢ codes "/views.json"
not_index h = absurd (cc)

not_cached : if_none_match_matches map_http get_view.headers stored_view.view.etag ≡ false
unfolding if_none_match_matches texts text_eq
not_cached = refl

proxy_request-IsSent_example :
    IsSent map_http stored_view.bytes (proxy_request map_http origin state get_view today)
    × (site_fs.read 3 view_file ≡ ok stored_view.bytes)
proxy_request-IsSent_example =
    proxy_request-IsSent map_http site_serde site_fs origin 3 dir view_file today today state shared
      prepared stored_view get_view stored_view.bytes site_names is_listed target_is refl refl refl
      not_manifest not_index chooses (omega arith) not_cached

reload_store-IsSent_example :
    ((reload_store map_http site_serde site_fs 3 state today).0.status ≡ 200)
    × IsSent map_http stored_view.bytes (
        proxy_request map_http origin
          (reload_store map_http site_serde site_fs 3 state today).1
          get_view
          today)
    × (site_fs.read 3 view_file ≡ ok stored_view.bytes)
reload_store-IsSent_example =
    reload_store-IsSent map_http site_serde site_fs origin 3 dir view_file today today state shared
      (site_store 3) (view_file ∷ []) stored_view get_view stored_view.bytes site_names refl refl
      refl site_loads (omega arith) files_are (inl refl) target_is refl not_manifest not_index
      chooses (omega arith) not_cached
