-- ===== src/Serving/Negotiate/Quality.antt =====
-- What lets an item of the Accept header through in `negotiate` of crates/serving/src/lib.rs: the
-- parameters named `q` behind its media type.
use ajar_gateway.Common.{
  ◌≡◌, ◌≢◌, refl, sym, ap, ◌∙◌, ◌↔◌, ◌⊎◌, inl, inr, true, false, Bool-cases, Option-cases, Option,
  none, some, some-injective, List, [], ◌∷◌, ◌++◌, All, arith,
}
use ajar_gateway.Text.{Text, codes, split_once, trim, trim_matches, eq_ignore_ascii_case}
use ajar_gateway.Text.Number.{Float, positive, not_positive, nan, parse_f32}
use ajar_gateway.Serving.Negotiate.{
  parameter_name, parameter_value, unwrap_or_empty, with_quality, quality, is_wanted,
}

-- The parameter is named `q`, in either case, up to the white space around the name.
abbrev pub IsQuality : Text → Type 0
IsQuality p = eq_ignore_ascii_case (trim (split_once b'=' (trim p)).0) (codes "q") ≡ true

abbrev pub IsOther : Text → Type 0
IsOther p = eq_ignore_ascii_case (trim (split_once b'=' (trim p)).0) (codes "q") ≡ false

-- The number behind the first `=`, up to white space and then quotation marks around it.
abbrev pub Gives : Text → Float → Type 0
Gives p f =
    parse_f32 (trim_matches b'"' (trim (unwrap_or_empty (split_once b'=' (trim p)).1))) ≡ some f

-- The parameter is not named `q`, or it is and has a number.
abbrev pub IsReadable : Text → Type 0
IsReadable p = IsOther p ⊎ (IsQuality p × (f : Float) × Gives p f)

-- The last parameter named `q` gives `f`, and those before it have numbers too.
pub record LastQuality (parameters : List Text) (f : Float) : Type 0 where
  pub before : List Text
  pub parameter : Text
  pub after : List Text
  pub placed : parameters ≡ before ++ parameter ∷ after
  pub named : IsQuality parameter
  pub gives : Gives parameter f
  pub read_before : All IsReadable before
  pub last : All IsOther after

-- The parameters of an item let it through: none is named `q`, or each of these has a number and
-- the last number is not zero or below.
pub data Accepts (parameters : List Text) : Type 0 where
  no_quality : All IsOther parameters → Accepts parameters
  last_quality : (f : Float) → f ≢ not_positive → LastQuality parameters f → Accepts parameters

quality-other :
    (p : Text) (ps : List Text) (q : Option Float) → IsOther p → quality (p ∷ ps) q ≡ quality ps q
unfolding quality parameter_name
quality-other p ps q h = rw h refl

quality-named :
    (p : Text) (ps : List Text) (q : Option Float) (parsed : Option Float)
    → IsQuality p
    → parse_f32 (parameter_value p) ≡ parsed
    → quality (p ∷ ps) q ≡ quality ps (with_quality q parsed)
unfolding quality parameter_name
quality-named p ps q parsed h k = rw (h, k) refl

quality-none : (ps : List Text) → quality ps none ≡ none
unfolding quality
quality-none [] = refl
quality-none (p ∷ ps) = elim (Bool-cases (eq_ignore_ascii_case (parameter_name p) (codes "q"))) [
  | inl h ↦ rw h (quality-none ps)
  | inr h ↦ rw h (quality-none ps)
]

-- What the loop ends with is the number before it, or that of the last parameter named `q`.
abbrev Ends : List Text → Float → Float → Type 0
Ends ps first f = (All IsOther ps × (first ≡ f)) ⊎ LastQuality ps f

later_quality :
    (p : Text) (ps : List Text) (f : Float)
    → IsReadable p
    → LastQuality ps f
    → LastQuality (p ∷ ps) f
later_quality p ps f readable l = record {
  before = p ∷ l.before;
  parameter = l.parameter;
  after = l.after;
  placed = ap (λ xs. p ∷ xs) l.placed;
  named = l.named;
  gives = l.gives;
  read_before = (readable, l.read_before);
  last = l.last;
}

quality-Ends :
    (ps : List Text) (first f : Float) → quality ps (some first) ≡ some f → Ends ps first f
unfolding quality parameter_name parameter_value
quality-Ends [] first f h = inl (tt, some-injective _ _ h)
quality-Ends (p ∷ ps) first f h =
    elim (Bool-cases (eq_ignore_ascii_case (parameter_name p) (codes "q"))) [
      | inl named ↦ elim (Option-cases (parse_f32 (parameter_value p))) [
        | inl e ↦
            let never : none ≡ some f =
              sym (quality-none ps) ∙ sym (quality-named p ps (some first) none named e) ∙ h in
            absurd (cc (never))
        | inr (g, e) ↦
            elim (quality-Ends ps g f
              (sym (quality-named p ps (some first) (some g) named e) ∙ h)) [
                | inl (others, same) ↦ inr (record {
                  before = [];
                  parameter = p;
                  after = ps;
                  placed = refl;
                  named = named;
                  gives = e ∙ ap some same;
                  read_before = tt;
                  last = others;
                })
                | inr l ↦ inr (later_quality p ps f (inr (named, g, e)) l)
              ]
      ]
      | inr other ↦
          elim (quality-Ends ps first f (sym (quality-other p ps (some first) other) ∙ h)) [
            | inl (others, same) ↦ inl ((other, others), same)
            | inr l ↦ inr (later_quality p ps f (inl other) l)
          ]
    ]

quality-others : (ps : List Text) (q : Option Float) → All IsOther ps → quality ps q ≡ q
unfolding quality
quality-others [] q h = refl
quality-others (p ∷ ps) q (h, hs) = quality-other p ps q h ∙ quality-others ps q hs

-- What is readable and before a parameter named `q` does not count.
quality-last :
    (before : List Text) (p : Text) (after : List Text) (first f : Float)
    → All IsReadable before
    → IsQuality p
    → Gives p f
    → All IsOther after
    → quality (before ++ p ∷ after) (some first) ≡ some f
unfolding parameter_value
quality-last [] p after first f _ named gives others =
    quality-named p after (some first) (some f) named gives ∙ quality-others after (some f) others
quality-last (b ∷ before) p after first f (inl other, readable) named gives others =
    quality-other b (before ++ p ∷ after) (some first) other
    ∙ quality-last before p after first f readable named gives others
quality-last (b ∷ before) p after first f (inr (is_q, g, has), readable) named gives others =
    quality-named b (before ++ p ∷ after) (some first) (some g) is_q has
    ∙ quality-last before p after g f readable named gives others

wanted-number :
    (q : Option Float) → is_wanted q ≡ true → (f : Float) × (f ≢ not_positive) × (q ≡ some f)
wanted-number none h = absurd (ground (arith, h))
wanted-number (some not_positive) h = absurd (ground (arith, h))
wanted-number (some positive) h = (positive, λ e. absurd (cc (e)), refl)
wanted-number (some nan) h = (nan, λ e. absurd (cc (e)), refl)

number-wanted : (f : Float) → f ≢ not_positive → is_wanted (some f) ≡ true
number-wanted not_positive h = absurd (h refl)
number-wanted positive h = refl
number-wanted nan h = refl

pub quality-Accepts :
    (ps : List Text) → (is_wanted (quality ps (some positive)) ≡ true) ↔ Accepts ps
quality-Accepts ps = (to, from)
  where
    to : is_wanted (quality ps (some positive)) ≡ true → Accepts ps
    to h =
        let (f, above, ends) = wanted-number (quality ps (some positive)) h in
        elim (quality-Ends ps positive f ends) [
          | inl (others, _) ↦ no_quality others
          | inr l ↦ last_quality f above l
        ]

    from : Accepts ps → is_wanted (quality ps (some positive)) ≡ true
    from (no_quality others) = ap is_wanted (quality-others ps (some positive) others)
    from (last_quality f above l) =
        ap (λ xs. is_wanted (quality xs (some positive))) l.placed
        ∙ ap is_wanted (
            quality-last l.before l.parameter l.after positive f l.read_before l.named l.gives
              l.last)
        ∙ number-wanted f above
