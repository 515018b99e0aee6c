-- ===== src/Store/Target.antt =====
-- `request_target_from_view_url` of crates/store/src/lib.rs.
use ajar_gateway.Common.{
  ◌≡◌, refl, ap, sym, ◌∙◌, ◌↔◌, inl, inr, Option, none, some, [], ◌∷◌, ◌++◌, arith, if◌then◌else◌,
  Result, ok, err, Option-cases, Bool-cases, ◌==◌, ==_iff, ok-injective,
}
use ajar_gateway.Text.{Text, codes, is_empty, starts_with, strip_prefix, from_first}
use ajar_gateway.Text.Laws.{
  Lacks, strip_prefix-eq-some, from_first-FoundAt, from_first-Lacks, from_first-append,
  Lacks-from_first,
}
use ajar_gateway.Store.Error.{StoreLoadError, invalid_view_url}

-- `strip_prefix("http://").or_else(|| strip_prefix("https://"))`
abbrev after_scheme : Text → Option Text
after_scheme url = elim (strip_prefix (codes "http://") url) [
  | some rest ↦ some rest
  | none ↦ strip_prefix (codes "https://") url
]

-- The path of an absolute URL, without its scheme and what stands before the first slash.
abbrev path_of : Option Text → Text
path_of none = codes "/"
path_of (some path) = path

unfoldable pub request_target_from_view_url : Text → Result StoreLoadError Text
unfolding starts_with strip_prefix from_first
request_target_from_view_url url =
    if is_empty url
    then err invalid_view_url
    else if starts_with (codes "/") url
    then ok url
    else elim (after_scheme url) [
      | some rest ↦ ok (path_of (from_first b'/' rest))
      | none ↦ err invalid_view_url
    ]

pub data Scheme : Type 0 where
  http https : Scheme

abbrev pub prefix : Scheme → Text
prefix http = codes "http://"
prefix https = codes "https://"

-- The URLs that a view may have, each with the request target under which it is stored.
pub data HasTarget (url target : Text) : Type 0 where
  path : (rest : Text) → url ≡ b'/' ∷ rest → target ≡ url → HasTarget url target
  absolute :
      (scheme : Scheme) (host rest : Text)
      → Lacks b'/' host
      → url ≡ prefix scheme ++ (host ++ b'/' ∷ rest)
      → target ≡ b'/' ∷ rest
      → HasTarget url target
  bare :
      (scheme : Scheme) (host : Text)
      → Lacks b'/' host
      → url ≡ prefix scheme ++ host
      → target ≡ codes "/"
      → HasTarget url target

target-prefix :
    (scheme : Scheme) (rest : Text)
    → request_target_from_view_url (prefix scheme ++ rest) ≡ ok (path_of (from_first b'/' rest))
unfolding request_target_from_view_url
target-prefix http rest = refl
target-prefix https rest = refl

target-slash : (rest : Text) → request_target_from_view_url (b'/' ∷ rest) ≡ ok (b'/' ∷ rest)
unfolding request_target_from_view_url
target-slash rest = refl

HasTarget-target :
    {url target : Text} → HasTarget url target → request_target_from_view_url url ≡ ok target
HasTarget-target (path rest u t) = rw (t, u) (target-slash rest)
HasTarget-target (absolute scheme host rest l u t) =
    rw (u, t)
      (target-prefix scheme (host ++ b'/' ∷ rest)
        ∙ ap (λ p. ok (path_of p)) (from_first-append b'/' host rest l))
HasTarget-target (bare scheme host l u t) =
    rw (u, t) (target-prefix scheme host ∙ ap (λ p. ok (path_of p)) (Lacks-from_first b'/' host l))

absolute-HasTarget :
    (scheme : Scheme) (url rest target : Text)
    → url ≡ prefix scheme ++ rest
    → ◌≡◌ {A = Result StoreLoadError Text} (ok (path_of (from_first b'/' rest))) (ok target)
    → HasTarget url target
absolute-HasTarget scheme url rest target u e = elim (Option-cases (from_first b'/' rest)) [
  | inl missing ↦
      bare scheme rest (from_first-Lacks b'/' rest missing) u (sym (ok-injective (rw missing at e)))
  | inr (found, at_slash) ↦
      let f = from_first-FoundAt b'/' rest found at_slash in
      absolute scheme f.before f.behind f.before_lacks
        (u
          ∙ ap (λ r. prefix scheme ++ r) f.whole
          ∙ ap (λ r. prefix scheme ++ (f.before ++ r)) f.found)
        (sym (ok-injective (rw at_slash at e)) ∙ f.found)
]

target-HasTarget :
    (url target : Text) → request_target_from_view_url url ≡ ok target → HasTarget url target
unfolding request_target_from_view_url
target-HasTarget [] target e = absurd (cc)
target-HasTarget (c ∷ url) target e = elim (Bool-cases (b'/' == c)) [
  | inl slash ↦ path url (ground (arith, ==_iff b'/' c)) (ground arith)
  | inr other ↦ elim (Option-cases (strip_prefix (codes "http://") (c ∷ url))) [
    | inr (rest, found) ↦
        absolute-HasTarget http (c ∷ url) rest target (strip_prefix-eq-some (prefix http) _ found)
          (ground arith)
    | inl missing ↦ elim (Option-cases (strip_prefix (codes "https://") (c ∷ url))) [
      | inr (rest, found) ↦
          absolute-HasTarget https (c ∷ url) rest target
            (strip_prefix-eq-some (prefix https) _ found) (ground arith)
      | inl missing' ↦ absurd (ground arith)
    ]
  ]
]

-- `request_target_from_view_url` succeeds on exactly the URLs that start with a slash, which are
-- their own target, and those of scheme http or https: the target is then all from the first
-- slash behind the scheme, or `/` where there is none.
pub request_target_from_view_url_iff :
    (url target : Text) → (request_target_from_view_url url ≡ ok target) ↔ HasTarget url target
request_target_from_view_url_iff url target = (target-HasTarget url target, HasTarget-target)
