-- ===== src/Serving/Proxy/Returned.antt =====
-- The headers of the origin's answer on its way back to the client, in crates/serving/src/lib.rs.
use ajar_gateway.Common.{
  ℕ, ◌≡◌, ◌≢◌, refl, sym, ap, ◌∙◌, Bool, true, false, ◌&&◌, Option, List, [], ◌∷◌, ◌++◌,
  if◌then◌else◌,
}
use mathlib.Core.List.{append-nil}
use ajar_gateway.Text.{Text}
use ajar_gateway.Store.Load.{PreparedContentStore}
use ajar_gateway.Serving.Http.{Http, HeaderLaws}
use ajar_gateway.Serving.Headers.{link, is_html_content_type, strip_hop_by_hop_headers}
use ajar_gateway.Serving.Headers.Laws.{is_hop_by_hop, strip_hop_by_hop_headers-get_all}
use ajar_gateway.Serving.Proxy.{ajar_manifest_link, is_some, returned}

module _ {H V U B : Type 0} (http : Http H V U B) (laws : HeaderLaws http) where
  open laws use {get_all-append_self, get_all-append_ne}

  -- The link that is added to a page of a site with a store.
  abbrev pub added : Bool → List V
  added true = http.static_value ajar_manifest_link ∷ []
  added false = []

  linked_self :
      (b : Bool) (h : H)
      → http.get_all
          (if b then http.append h link (http.static_value ajar_manifest_link) else h)
          link
        ≡ http.get_all h link ++ added b
  linked_self true h = get_all-append_self h link _
  linked_self false h = sym (append-nil (http.get_all h link))

  linked_other :
      (b : Bool) (h : H) (m : Text)
      → link ≢ m
      → http.get_all (if b then http.append h link (http.static_value ajar_manifest_link) else h) m
        ≡ http.get_all h m
  linked_other true h m ne = get_all-append_ne h link m _ ne
  linked_other false h m ne = refl

  -- The client gets the headers of the origin without the hop-by-hop ones, and behind the links of
  -- the origin one to the manifest, exactly if there is a store and the answer is HTML.
  pub returned-get_all :
      {Value : Type 0} (store : Option (PreparedContentStore Value)) (status : ℕ) (h : H) (body : B)
      → (http.get_all (returned http store status h body).headers link
          ≡ (if is_hop_by_hop http h link then [] else http.get_all h link)
            ++ added (is_some store && is_html_content_type http (strip_hop_by_hop_headers http h)))
        × ((m : Text)
            → link ≢ m
            → http.get_all (returned http store status h body).headers m
              ≡ (if is_hop_by_hop http h m then [] else http.get_all h m))
  unfolding returned
  returned-get_all store status h body =
      let html = is_some store && is_html_content_type http (strip_hop_by_hop_headers http h) in
      (
        linked_self html (strip_hop_by_hop_headers http h)
            ∙ ap (λ vs. vs ++ added html) (strip_hop_by_hop_headers-get_all http laws h link),
        λ m ne.
            linked_other html (strip_hop_by_hop_headers http h) m ne
            ∙ strip_hop_by_hop_headers-get_all http laws h m,
      )
