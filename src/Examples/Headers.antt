-- ===== src/Examples/Headers.antt =====
-- A header map for crates/serving/src/lib.rs: the pairs in the order of insertion. It obeys the laws
-- that the proofs ask for.
use ajar_gateway.Common.{
  ℕ, ◌≡◌, ◌≢◌, ◌↔◌, refl, ◌∙◌, true, false, none, some, List, [], ◌∷◌, ◌++◌, if◌then◌else◌, arith,
  Bool-cases, inl, inr,
}
use mathlib.Core.List.{append-nil}
use ajar_gateway.Text.{Text, codes, text_eq, member, to_ascii_lowercase, starts_with, strip_prefix}
use ajar_gateway.Text.Laws.{text_eq_iff, text_eq_refl}
use ajar_gateway.Serving.Http.{Http, HeaderLaws}

abbrev pub Headers : Type 0
Headers = List (Text × Text)

abbrev pub values : Headers → Text → List Text
values [] n = []
values ((k, v) ∷ h) n = let rest = values h n in if text_eq k n then v ∷ rest else rest

abbrev pub names : Headers → List Text
names [] = []
names ((k, _) ∷ h) = k ∷ names h

abbrev pub without : Headers → Text → Headers
without [] n = []
without ((k, v) ∷ h) n = let rest = without h n in if text_eq k n then rest else (k, v) ∷ rest

abbrev pub with_last : Headers → Text → Text → Headers
with_last h n v = h ++ (n, v) ∷ []

-- Addresses are texts; all of them are of scheme http.
abbrev pub map_http : Http Headers Text Text ℕ
map_http = record {
  empty = [];
  get_all = values;
  keys = names;
  remove = without;
  insert = λ h n v. with_last (without h n) n v;
  append = with_last;
  header_name = λ t. some (to_ascii_lowercase t);
  header_value = λ t. some t;
  static_value = λ t. t;
  value_text = λ v. some v;
  parse_uri = λ t. some t;
  scheme = λ u. if starts_with (codes "http://") u then some (codes "http") else none;
  authority = λ u. strip_prefix (codes "http://") u;
  path = λ u. u;
  path_and_query = λ u. some u;
  canonical_reason = λ status. none;
  limited = λ body limit. body;
  json_headers = (codes "content-type", codes "application/json") ∷ [];
}

values-append : (h k : Headers) (n : Text) → values (h ++ k) n ≡ values h n ++ values k n
values-append [] k n = refl
values-append ((j, v) ∷ h) k n = ground (arith, values-append h k n)

values-without_self : (h : Headers) (n : Text) → values (without h n) n ≡ []
values-without_self [] n = refl
values-without_self ((k, v) ∷ h) n = elim (Bool-cases (text_eq k n)) [
  | inl e ↦ rw e (values-without_self h n)
  | inr e ↦ rw (e, e) (values-without_self h n)
]

values-without_ne : (h : Headers) (n m : Text) → n ≢ m → values (without h n) m ≡ values h m
values-without_ne [] n m ne = refl
values-without_ne ((k, v) ∷ h) n m ne = elim (Bool-cases (text_eq k n)) [
  | inl e ↦ rw (e, other k n m e ne) (values-without_ne h n m ne)
  | inr e ↦ rw (e, values-without_ne h n m ne)
]
  where
    other : (k n m : Text) → text_eq k n ≡ true → n ≢ m → text_eq k m ≡ false
    other k n m e ne = ground (arith, text_eq_iff k n, text_eq_iff k m)

values-last_self : (h : Headers) (n v : Text) → values (with_last h n v) n ≡ values h n ++ v ∷ []
values-last_self h n v = rw (values-append h ((n, v) ∷ []) n, text_eq_refl n)

values-last_ne : (h : Headers) (n m v : Text) → n ≢ m → values (with_last h n v) m ≡ values h m
values-last_ne h n m v ne =
    let differ : text_eq n m ≡ false = ground (arith, text_eq_iff n m) in
    rw (values-append h ((n, v) ∷ []) m, differ) (append-nil (values h m))

names_iff : (h : Headers) (n : Text) → (member n (names h) ≡ true) ↔ (values h n ≢ [])
names_iff [] n = ground arith
names_iff ((k, v) ∷ h) n = ground (arith, names_iff h n, text_eq_iff n k, text_eq_iff k n)

pub map_http_laws : HeaderLaws map_http
map_http_laws = record {
  get_all-empty = λ n. refl;
  get_all-remove_self = values-without_self;
  get_all-remove_ne = values-without_ne;
  get_all-insert_self = λ h n v. values-last_self (without h n) n v ∙ rw (values-without_self h n);
  get_all-insert_ne =
      λ h n m v ne. values-last_ne (without h n) n m v ne ∙ values-without_ne h n m ne;
  get_all-append_self = values-last_self;
  get_all-append_ne = λ h n m v ne. values-last_ne h n m v ne;
  keys_iff = names_iff;
}
