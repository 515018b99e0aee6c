-- ===== src/Serving/Negotiate/Laws.antt =====
-- `negotiate` of crates/serving/src/lib.rs against what the header offers.
use mathlib.Core.List.{Perm, Permᴰ}
use mathlib.Core.Bool.{Bool-set}
use mathlib.Core.Logic.{∥∥₁_elim}
use ajar_gateway.Common.{
  ◌≡◌, refl, sym, ◌∙◌, ◌↔◌, ◌⊎◌, inl, inr, Bool, true, false, ◌&&◌, ◌||◌, List, [], ◌∷◌,
  if◌then◌else◌, some, arith, any, Some, Bool-cases,
}
use ajar_gateway.Text.{Text, text_eq, split, trim, to_ascii_lowercase}
use ajar_gateway.Text.Laws.{text_eq_iff}
use ajar_gateway.Serving.Negotiate.Quality.{Accepts, quality-Accepts}
use ajar_gateway.Serving.Negotiate.{
  Representation, ajar_json, markdown, passthrough, ajar_json_type, markdown_type, media_type,
  head_of, tail_of, item_is_wanted, negotiate_items, negotiate,
}

-- The item asks for the kind: what stands before its first `;` is the kind, up to case and the white
-- space around it, and what stands behind, taken apart at each `;`, lets it through.
abbrev pub Asks : Text → Text → Type 0
Asks kind item =
    (to_ascii_lowercase (trim (head_of (split b';' item))) ≡ kind)
    × Accepts (tail_of (split b';' item))

abbrev asks : Text → Text → Bool
asks kind item = text_eq (media_type item) kind && item_is_wanted item

both_iff :
    {P Q : Type 0} (a b : Bool) → ((a ≡ true) ↔ P) → ((b ≡ true) ↔ Q) → (a && b ≡ true) ↔ (P × Q)
both_iff a b f g = ground (arith, f, g)

either_iff :
    {P Q : Type 0} (a b : Bool) → ((a ≡ true) ↔ P) → ((b ≡ true) ↔ Q) → (a || b ≡ true) ↔ (P ⊎ Q)
either_iff a b f g = ground (arith, f, g)

asks_iff : (kind item : Text) → (asks kind item ≡ true) ↔ Asks kind item
unfolding media_type item_is_wanted
asks_iff kind item =
    both_iff (text_eq (media_type item) kind) (item_is_wanted item)
      (text_eq_iff (media_type item) kind) (quality-Accepts (tail_of (split b';' item)))

any-asks :
    (kind : Text) (items : List Text) → (any (asks kind) items ≡ true) ↔ Some (Asks kind) items
any-asks kind [] = (λ h. absurd (cc), λ h. absurd h)
any-asks kind (item ∷ items) =
    either_iff (asks kind item) (any (asks kind) items) (asks_iff kind item) (any-asks kind items)

-- The answer, from which kinds are asked for at all.
abbrev answer : Bool → Bool → Representation
answer ajar md = if ajar then ajar_json else if md then markdown else passthrough

negotiate_items-answer :
    (items : List Text) (seen : Bool)
    → negotiate_items items seen
      ≡ answer (any (asks ajar_json_type) items) (seen || any (asks markdown_type) items)
unfolding negotiate_items
negotiate_items-answer [] seen = ground arith
negotiate_items-answer (item ∷ items) seen = ground (
  arith,
  text_eq_iff (media_type item) ajar_json_type,
  text_eq_iff (media_type item) markdown_type,
  negotiate_items-answer items true,
  negotiate_items-answer items seen,
)

-- What `negotiate` is to choose, given the items of the header.
pub data Chosen (items : List Text) (r : Representation) : Type 0 where
  json_asked : Some (Asks ajar_json_type) items → r ≡ ajar_json → Chosen items r
  markdown_asked :
      ¬ (Some (Asks ajar_json_type) items)
      → Some (Asks markdown_type) items
      → r ≡ markdown
      → Chosen items r
  nothing_asked :
      ¬ (Some (Asks ajar_json_type) items)
      → ¬ (Some (Asks markdown_type) items)
      → r ≡ passthrough
      → Chosen items r

not-any-asks :
    (kind : Text) (items : List Text) → any (asks kind) items ≡ false → ¬ (Some (Asks kind) items)
not-any-asks kind items h s = absurd (cc (h, (any-asks kind items).1 s))

not-Asks :
    (kind : Text) (items : List Text) → ¬ (Some (Asks kind) items) → any (asks kind) items ≡ false
not-Asks kind items h = elim (Bool-cases (any (asks kind) items)) [
  | inl found ↦ absurd (h ((any-asks kind items).0 found))
  | inr missing ↦ missing
]

answer-Chosen :
    (items : List Text) (r : Representation)
    → answer (any (asks ajar_json_type) items) (any (asks markdown_type) items) ≡ r
    → Chosen items r
answer-Chosen items r h = elim (Bool-cases (any (asks ajar_json_type) items)) [
  | inl ajar ↦ json_asked ((any-asks _ items).0 ajar) (sym (rw ajar at h))
  | inr no_ajar ↦ elim (Bool-cases (any (asks markdown_type) items)) [
    | inl md ↦
        markdown_asked (not-any-asks _ items no_ajar) ((any-asks _ items).0 md)
          (sym (rw (no_ajar, md) at h))
    | inr no_md ↦
        nothing_asked (not-any-asks _ items no_ajar) (not-any-asks _ items no_md)
          (sym (rw (no_ajar, no_md) at h))
  ]
]

Chosen-answer :
    (items : List Text) (r : Representation)
    → Chosen items r
    → answer (any (asks ajar_json_type) items) (any (asks markdown_type) items) ≡ r
Chosen-answer items r (json_asked a e) = rw ((any-asks _ items).1 a) (sym e)
Chosen-answer items r (markdown_asked a m e) =
    rw (not-Asks ajar_json_type items a, (any-asks markdown_type items).1 m) (sym e)
Chosen-answer items r (nothing_asked a m e) =
    rw (not-Asks ajar_json_type items a, not-Asks markdown_type items m) (sym e)

negotiate-answer :
    (header : Text)
    → negotiate (some header) true
      ≡ answer
          (any (asks ajar_json_type) (split b',' header))
          (any (asks markdown_type) (split b',' header))
unfolding negotiate
negotiate-answer header = negotiate_items-answer (split b',' header) false

-- Where there is a view, `negotiate` answers with the View object exactly if some item of the
-- header asks for it, with markdown exactly if an item asks for that and none for the object, and
-- leaves the rest to the origin.
pub negotiate-Chosen :
    (header : Text) (r : Representation)
    → (negotiate (some header) true ≡ r) ↔ Chosen (split b',' header) r
negotiate-Chosen header r = (
  λ h. answer-Chosen (split b',' header) r (sym (negotiate-answer header) ∙ h),
  λ c. negotiate-answer header ∙ Chosen-answer (split b',' header) r c,
)

any-permᴰ : (p : Text → Bool) {xs ys : List Text} → Permᴰ xs ys → any p xs ≡ any p ys
any-permᴰ p Permᴰ.nil = refl
any-permᴰ p (Permᴰ.cons e q) = rw (e, any-permᴰ p q)
any-permᴰ p (Permᴰ.swap {a} {b} e f) = rw (← e, ← f) (or_swap (p a) (p b) _)
  where
    or_swap : (x y z : Bool) → (x || (y || z)) ≡ (y || (x || z))
    or_swap x y z = ground arith
any-permᴰ p (Permᴰ.trans q r) = any-permᴰ p q ∙ any-permᴰ p r

any-perm : (p : Text → Bool) {xs ys : List Text} → Perm xs ys → any p xs ≡ any p ys
any-perm p q = ∥∥₁_elim q (Bool-set _ _) (any-permᴰ p)

-- The order of the items does not matter.
pub negotiate-perm :
    (h k : Text)
    → Perm (split b',' h) (split b',' k)
    → negotiate (some h) true ≡ negotiate (some k) true
negotiate-perm h k q =
    negotiate-answer h
    ∙ rw (any-perm (asks ajar_json_type) q, any-perm (asks markdown_type) q)
        (sym (negotiate-answer k))
