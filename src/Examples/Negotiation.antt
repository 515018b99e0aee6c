-- ===== src/Examples/Negotiation.antt =====
-- The cases of the test `negotiation_matrix` of crates/serving/src/lib.rs.
use ajar_gateway.Common.{◌≡◌, refl, true, false, none, some}
use ajar_gateway.Text.{codes}
use ajar_gateway.Serving.Negotiate.{ajar_json, markdown, passthrough, negotiate}

plain_json : negotiate (some (codes "application/ajar+json")) true ≡ ajar_json
unfolding negotiate
plain_json = refl

json_with_parameters :
    negotiate (some (codes "application/ajar+json; profile=core; q=0.7")) true ≡ ajar_json
unfolding negotiate
json_with_parameters = refl

plain_markdown : negotiate (some (codes "text/markdown")) true ≡ markdown
unfolding negotiate
plain_markdown = refl

json_is_preferred :
    negotiate (some (codes "text/markdown;q=1, application/ajar+json;q=0.1")) true ≡ ajar_json
unfolding negotiate
json_is_preferred = refl

refused_json :
    negotiate (some (codes "application/ajar+json;q=0, text/markdown;q=1")) true ≡ markdown
unfolding negotiate
refused_json = refl

refused_markdown : negotiate (some (codes "text/markdown;q=0")) true ≡ passthrough
unfolding negotiate
refused_markdown = refl

wildcard : negotiate (some (codes "*/*")) true ≡ passthrough
unfolding negotiate
wildcard = refl

no_accept_header : negotiate (some (codes "this is not an accept header")) true ≡ passthrough
unfolding negotiate
no_accept_header = refl

no_view : negotiate (some (codes "application/ajar+json")) false ≡ passthrough
unfolding negotiate
no_view = refl

no_header : negotiate none true ≡ passthrough
unfolding negotiate
no_header = refl
