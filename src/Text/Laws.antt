-- ===== src/Text/Laws.antt =====
-- Laws of the text functions.
use ajar_gateway.Common.{
  ℕ, ◌<◌, ◌≡◌, ◌≢◌, refl, sym, ◌∙◌, ◌↔◌, true, none, some, ◌++◌, ◌==◌, Bool-cases, inl, inr, ==_iff,
  ==_refl, arith, [], ◌∷◌, All, ltb,
}
use ajar_gateway.Text.{Text, text_eq, utf8, strip_prefix, from_first}

pub text_eq_iff : (s t : Text) → (text_eq s t ≡ true) ↔ (s ≡ t)
unfolding text_eq
text_eq_iff [] [] = ground arith
text_eq_iff [] (y ∷ t) = ground arith
text_eq_iff (x ∷ s) [] = ground arith
text_eq_iff (x ∷ s) (y ∷ t) = ground (arith, text_eq_iff s t)

pub text_eq_refl : (s : Text) → text_eq s s ≡ true
text_eq_refl s = (text_eq_iff s s).1 refl

abbrev pub IsAscii : Text → Type 0
IsAscii s = All (λ c. c < 128) s

-- An ASCII text is its own bytes.
pub utf8_ascii : (s : Text) → IsAscii s → utf8 s ≡ s
unfolding utf8
utf8_ascii [] h = refl
utf8_ascii (c ∷ s) (p, h) = let low : ltb c 0x80 ≡ true = ground arith in rw (low, utf8_ascii s h)

-- A text whose bytes are ASCII is ASCII.
pub utf8-IsAscii : (s : Text) → IsAscii (utf8 s) → IsAscii s
unfolding utf8
utf8-IsAscii [] h = tt
utf8-IsAscii (c ∷ s) h = ground (arith, utf8-IsAscii s)

pub utf8-eq_ascii : (s t : Text) → IsAscii t → utf8 s ≡ t → s ≡ t
utf8-eq_ascii s t h e = sym (utf8_ascii s (utf8-IsAscii s (rw e h))) ∙ e

pub strip_prefix-eq-some : (p s : Text) {r : Text} → strip_prefix p s ≡ some r → s ≡ p ++ r
unfolding strip_prefix
strip_prefix-eq-some [] s h = ground arith
strip_prefix-eq-some (x ∷ p) [] h = cc
strip_prefix-eq-some (x ∷ p) (y ∷ s) {r} h = ground (arith, strip_prefix-eq-some p s {r = r})

-- `c` does not occur.
abbrev pub Lacks : ℕ → Text → Type 0
Lacks c s = All (λ x. x ≢ c) s

-- Where `from_first` finds `c`: behind a text that lacks it.
pub record FoundAt (c : ℕ) (s r : Text) : Type 0 where
  pub before : Text
  pub behind : Text
  pub before_lacks : Lacks c before
  pub found : r ≡ c ∷ behind
  pub whole : s ≡ before ++ r

pub from_first-FoundAt : (c : ℕ) (s r : Text) → from_first c s ≡ some r → FoundAt c s r
unfolding from_first
from_first-FoundAt c [] r h = absurd (cc)
from_first-FoundAt c (x ∷ s) r h = elim (Bool-cases (x == c)) [
  | inl same ↦ record {
    before = [];
    behind = s;
    before_lacks = tt;
    found = ground (arith, ==_iff x c);
    whole = ground arith;
  }
  | inr other ↦
      let f : FoundAt c s r = from_first-FoundAt c s r (ground arith) in
      record {
        before = x ∷ f.before;
        behind = f.behind;
        before_lacks = (ground arith, f.before_lacks);
        found = f.found;
        whole = cc f.whole;
      }
]

pub from_first-Lacks : (c : ℕ) (s : Text) → from_first c s ≡ none → Lacks c s
unfolding from_first
from_first-Lacks c [] h = tt
from_first-Lacks c (x ∷ s) h = ground (arith, from_first-Lacks c s)

pub from_first-append : (c : ℕ) (s t : Text) → Lacks c s → from_first c (s ++ c ∷ t) ≡ some (c ∷ t)
unfolding from_first
from_first-append c [] t h = rw (==_refl c)
from_first-append c (x ∷ s) t (p, h) = ground (arith, from_first-append c s t h)

pub Lacks-from_first : (c : ℕ) (s : Text) → Lacks c s → from_first c s ≡ none
unfolding from_first
Lacks-from_first c [] h = refl
Lacks-from_first c (x ∷ s) (p, h) = ground (arith, Lacks-from_first c s h)
