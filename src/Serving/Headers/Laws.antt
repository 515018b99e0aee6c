-- ===== src/Serving/Headers/Laws.antt =====
-- What `strip_hop_by_hop_headers` of crates/serving/src/lib.rs removes, and what it keeps.
use ajar_gateway.Common.{
  ◌≡◌, refl, sym, ◌∙◌, Bool, true, false, ◌&&◌, ◌||◌, List, [], ◌∷◌, ◌++◌, if◌then◌else◌, arith,
  Bool-cases, inl, inr,
}
use ajar_gateway.Text.{Text, codes, text_eq, member}
use ajar_gateway.Text.Laws.{text_eq_iff}
use ajar_gateway.Serving.Http.{Http, HeaderLaws}
use ajar_gateway.Serving.Headers.{
  hop_by_hop, texts, connection_names, hop_by_hop_names, is_proxy_name, proxy_names, remove_all,
  strip_hop_by_hop_headers,
}

member-append : (n : Text) (xs ys : List Text) → member n (xs ++ ys) ≡ (member n xs || member n ys)
member-append n [] ys = refl
member-append n (x ∷ xs) ys = ground (arith, member-append n xs ys)

module _ {H V U B : Type 0} (http : Http H V U B) where
  -- The names that the `connection` headers give.
  abbrev pub nominated : H → List Text
  nominated h = connection_names http (texts http (http.get_all h (codes "connection")))

  abbrev pub is_hop_by_hop : H → Text → Bool
  is_hop_by_hop h m = member m hop_by_hop || (member m (nominated h) || is_proxy_name http m)

  member-proxy_names :
      (m : Text) (ks : List Text)
      → member m (proxy_names http ks) ≡ (member m ks && is_proxy_name http m)
  unfolding proxy_names
  member-proxy_names m [] = refl
  member-proxy_names m (k ∷ ks) = ground (arith, text_eq_iff m k, member-proxy_names m ks)

  module _ (laws : HeaderLaws http) where
    remove-get_all :
        (h : H) (n m : Text)
        → http.get_all (http.remove h n) m ≡ (if text_eq m n then [] else http.get_all h m)
    remove-get_all h n m = elim (Bool-cases (text_eq m n)) [
      | inl same ↦ rw same (rw ((text_eq_iff m n).0 same) (laws.get_all-remove_self h n))
      | inr other ↦
          rw other (laws.get_all-remove_ne h n m (λ e. cc (other, (text_eq_iff m n).1 (sym e))))
    ]

    merge :
        (b c : Bool) (vs : List V)
        → (if b then [] else if c then [] else vs) ≡ (if c || b then [] else vs)
    merge true c vs = ground arith
    merge false c vs = ground arith

    remove_all-get_all :
        (ns : List Text) (h : H) (m : Text)
        → http.get_all (remove_all http ns h) m ≡ (if member m ns then [] else http.get_all h m)
    unfolding remove_all
    remove_all-get_all [] h m = refl
    remove_all-get_all (n ∷ ns) h m =
        remove_all-get_all ns (http.remove h n) m
        ∙ rw (remove-get_all h n m) (merge (member m ns) (text_eq m n) (http.get_all h m))

    absent : (h : H) (m : Text) → member m (http.keys h) ≡ false → http.get_all h m ≡ []
    absent h m e = go (http.get_all h m) refl
      where
        go : (vs : List V) → http.get_all h m ≡ vs → vs ≡ []
        go [] q = refl
        go (v ∷ vs) q = absurd (cc (e, (laws.keys_iff h m).1 (λ z. cc (q, z))))

    drop_absent :
        (a b c p : Bool) (vs : List V)
        → (c ≡ false → vs ≡ [])
        → (if (a || b) || (c && p) then [] else vs) ≡ (if a || (b || p) then [] else vs)
    drop_absent true b c p vs h = refl
    drop_absent false true c p vs h = refl
    drop_absent false false true p vs h = refl
    drop_absent false false false true vs h = h refl
    drop_absent false false false false vs h = refl

    -- After `strip_hop_by_hop_headers` a header of the fixed list, one that a `connection` header
    -- names and one that begins with `proxy-` has no value; every other header has the values it
    -- had, in their order.
    pub strip_hop_by_hop_headers-get_all :
        (h : H) (m : Text)
        → http.get_all (strip_hop_by_hop_headers http h) m
          ≡ (if is_hop_by_hop h m then [] else http.get_all h m)
    unfolding strip_hop_by_hop_headers hop_by_hop_names
    strip_hop_by_hop_headers-get_all h m =
        remove_all-get_all (hop_by_hop_names http h ++ proxy_names http (http.keys h)) h m
        ∙ rw
            (
              member-append m (hop_by_hop_names http h) (proxy_names http (http.keys h)),
              member-append m hop_by_hop (nominated h),
              member-proxy_names m (http.keys h),
            )
            (drop_absent (member m hop_by_hop) (member m (nominated h)) (member m (http.keys h))
              (is_proxy_name http m) (http.get_all h m) (absent h m))

    nominated_stripped : (h : H) → nominated (strip_hop_by_hop_headers http h) ≡ []
    unfolding connection_names texts text_eq
    nominated_stripped h = rw (strip_hop_by_hop_headers-get_all h (codes "connection"))

    absorb :
        (a n p : Bool) (vs : List V)
        → (if a || (false || p) then [] else if a || (n || p) then [] else vs)
          ≡ (if a || (n || p) then [] else vs)
    absorb true n p vs = refl
    absorb false true true vs = refl
    absorb false true false vs = refl
    absorb false false true vs = refl
    absorb false false false vs = refl

    -- Stripping a second time changes no header.
    pub strip_hop_by_hop_headers_idempotent :
        (h : H) (m : Text)
        → http.get_all (strip_hop_by_hop_headers http (strip_hop_by_hop_headers http h)) m
          ≡ http.get_all (strip_hop_by_hop_headers http h) m
    strip_hop_by_hop_headers_idempotent h m =
        strip_hop_by_hop_headers-get_all (strip_hop_by_hop_headers http h) m
        ∙ rw (nominated_stripped h, strip_hop_by_hop_headers-get_all h m)
            (absorb (member m hop_by_hop) (member m (nominated h)) (is_proxy_name http m)
              (http.get_all h m))
