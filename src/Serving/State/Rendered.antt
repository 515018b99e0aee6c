-- ===== src/Serving/State/Rendered.antt =====
-- The text of the metrics in crates/serving/src/lib.rs.
use ajar_gateway.Common.{ℕ, ◌≡◌, refl, sym, ap, ◌∙◌, [], ◌∷◌, ◌++◌, arith, drop}
use mathlib.Core.List.{append_assoc, append-nil}
use ajar_gateway.Text.{Text, codes}
use ajar_gateway.Text.Number.{decimal}
use ajar_gateway.Text.Number.Laws.{append_cancel, decimal-injective}
use ajar_gateway.Text.Number.Plain.{IsPlain, decimal-IsPlain}
use ajar_gateway.Serving.State.{Metrics, line, render}

-- Two plain texts that end at the same newline.
cut_line :
    (s t u v : Text) → IsPlain s → IsPlain t → s ++ b'\n' ∷ u ≡ t ++ b'\n' ∷ v → (s ≡ t) × (u ≡ v)
cut_line [] [] u v p q e = ground arith
cut_line [] (y ∷ t) u v p (q, qs) e = absurd (ground arith)
cut_line (x ∷ s) [] u v (p, ps) q e = absurd (ground arith)
cut_line (x ∷ s) (y ∷ t) u v (p, ps) (q, qs) e = ground (arith, cut_line s t u v ps qs)

line-append :
    (name : Text) (n : ℕ) (u : Text) → line name n ++ u ≡ name ++ (b' ' ∷ (decimal n ++ b'\n' ∷ u))
line-append name n u = simp append_assoc

-- Lines of one name with the same text have the same number.
cut_number :
    (name : Text) (m n : ℕ) (u v : Text) → line name m ++ u ≡ line name n ++ v → (m ≡ n) × (u ≡ v)
cut_number name m n u v e =
    let (_, rest) =
      append_cancel name name _ _ refl (sym (line-append name m u) ∙ e ∙ line-append name n v) in
    let (digits, behind) =
      cut_line (decimal m) (decimal n) u v (decimal-IsPlain m) (decimal-IsPlain n)
        (ap (drop 1) rest) in
    (decimal-injective m n digits, behind)

last_number : (name : Text) (m n : ℕ) → line name m ≡ line name n → m ≡ n
last_number name m n e =
    (cut_number name m n [] [] (append-nil (line name m) ∙ e ∙ sym (append-nil (line name n)))).0

-- What the metrics endpoint prints tells every counter: metrics with the same text are the same.
pub render-injective : (a b : Metrics) → render a ≡ render b → a ≡ b
unfolding render
render-injective a b e =
    let (requests, e1) = cut_number (codes "requests_total") _ _ _ _ e in
    let (errors, e2) = cut_number (codes "upstream_errors_total") _ _ _ _ e1 in
    let (views, e3) = cut_number (codes "views_served_total") _ _ _ _ e2 in
    let (manifests, e4) = cut_number (codes "manifest_served_total") _ _ _ _ e3 in
    let (passed, e5) = cut_number (codes "negotiation_passthrough_total") _ _ _ _ e4 in
    let (reloads, e6) = cut_number (codes "store_reloads_total") _ _ _ _ e5 in
    let failures = last_number (codes "store_reload_failures_total") _ _ e6 in
    λ i. record {
      requests_total = requests i;
      upstream_errors_total = errors i;
      views_served_total = views i;
      manifest_served_total = manifests i;
      negotiation_passthrough_total = passed i;
      store_reloads_total = reloads i;
      store_reload_failures_total = failures i;
    }
