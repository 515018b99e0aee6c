-- ===== src/Scenarios/Json.antt =====
-- A JSON reader, to run the tests of crates/serving/src/lib.rs with. It reads whole numbers, and the
-- escapes of one character.
use ajar_gateway.Common.{
  ℕ, zero, suc, ◌+◌, ◌*◌, Bool, true, false, Option, none, some, List, [], ◌∷◌, ◌++◌, leb, ◌==◌,
  if◌then◌else◌, length,
}
use ajar_gateway.Text.{Text, codes, text_eq}
use ajar_gateway.Text.Number.{parse_u64}

infixl 1 ◌>>=◌
abbrev pub ◌>>=◌ : {A B : Type 0} → Option A → (A → Option B) → Option B
none >>= f = none
some a >>= f = f a

pub data Token : Type 0 where
  lbrace rbrace lbrack rbrack comma colon : Token
  string word : Text → Token

-- Where the lexer is: between tokens, in a string, behind a backslash in one, in a word.
pub data Place : Type 0 where
  between : Place
  in_string escaped in_word : Text → Place

abbrev unescaped : ℕ → ℕ
unescaped c = if c == b'n' then 10 else if c == b't' then 9 else if c == b'r' then 13 else c

abbrev punctuation : ℕ → Option Token
punctuation c =
    if c == b'{'
    then some lbrace
    else if c == b'}'
    then some rbrace
    else if c == b'['
    then some lbrack
    else if c == b']'
    then some rbrack
    else if c == b','
    then some comma
    else if c == b':'
    then some colon
    else none

-- One character between tokens, behind the tokens `done`.
abbrev step_between : List Token → ℕ → Place × List Token
step_between done c = elim (punctuation c) [
  | some token ↦ (between, done ++ token ∷ [])
  | none ↦
      if c == 34
      then (in_string [], done)
      else if leb c 32
      then (between, done)
      else (in_word (c ∷ []), done)
]

abbrev step : Place → ℕ → Place × List Token
step between c = step_between [] c
step (in_string s) c =
    if c == 34
    then (between, string s ∷ [])
    else if c == 92
    then (escaped s, [])
    else (in_string (s ++ c ∷ []), [])
step (escaped s) c = (in_string (s ++ unescaped c ∷ []), [])
step (in_word w) c = elim (punctuation c) [
  | some token ↦ (between, word w ∷ token ∷ [])
  | none ↦ if leb c 32 then (between, word w ∷ []) else (in_word (w ++ c ∷ []), [])
]

unfoldable pub lex : Place → Text → Option (List Token)
lex between [] = some []
lex (in_word w) [] = some (word w ∷ [])
lex _ [] = none
lex place (c ∷ s) =
    let (next, tokens) = step place c in
    elim (lex next s) [ none ↦ none | some rest ↦ some (tokens ++ rest) ]

mutual
  pub data Json : Type 0 where
    null : Json
    boolean : Bool → Json
    number : ℕ → Json
    text : Text → Json
    array : Items → Json
    object : Fields → Json

  pub data Items : Type 0 where
    no_items : Items
    item : Json → Items → Items

  pub data Fields : Type 0 where
    no_fields : Fields
    field : Text → Json → Fields → Fields

abbrev word_value : Text → Option Json
word_value w =
    if text_eq w (codes "null")
    then some null
    else if text_eq w (codes "true")
    then some (boolean true)
    else if text_eq w (codes "false")
    then some (boolean false)
    else elim (parse_u64 w) [ none ↦ none | some n ↦ some (number n) ]

-- Every call costs a unit of fuel, and takes a token or is followed by one that does.
unfoldable mutual
  pub parse_value : ℕ → List Token → Option (Json × List Token)
  parse_value (suc f) (string s ∷ ts) = some (text s, ts)
  parse_value (suc f) (word w ∷ ts) = do value ← word_value w; some (value, ts)
  parse_value (suc f) (lbrack ∷ rbrack ∷ ts) = some (array no_items, ts)
  parse_value (suc f) (lbrack ∷ ts) = do (items, rest) ← parse_items f ts; some (array items, rest)
  parse_value (suc f) (lbrace ∷ rbrace ∷ ts) = some (object no_fields, ts)
  parse_value (suc f) (lbrace ∷ ts) = do
    (fields, rest) ← parse_fields f ts
    some (object fields, rest)
  parse_value _ _ = none

  parse_items : ℕ → List Token → Option (Items × List Token)
  parse_items zero ts = none
  parse_items (suc f) ts = do (value, rest) ← parse_value f ts; more_items f value rest

  more_items : ℕ → Json → List Token → Option (Items × List Token)
  more_items (suc f) value (comma ∷ ts) = do
    (items, rest) ← parse_items f ts
    some (item value items, rest)
  more_items (suc f) value (rbrack ∷ ts) = some (item value no_items, ts)
  more_items _ value _ = none

  parse_fields : ℕ → List Token → Option (Fields × List Token)
  parse_fields (suc f) (string key ∷ colon ∷ ts) = do
    (value, rest) ← parse_value f ts
    more_fields f key value rest
  parse_fields _ _ = none

  more_fields : ℕ → Text → Json → List Token → Option (Fields × List Token)
  more_fields (suc f) key value (comma ∷ ts) = do
    (fields, rest) ← parse_fields f ts
    some (field key value fields, rest)
  more_fields (suc f) key value (rbrace ∷ ts) = some (field key value no_fields, ts)
  more_fields _ key value _ = none

abbrev whole : Json × List Token → Option Json
whole (value, []) = some value
whole (value, _ ∷ _) = none

unfoldable pub parse_json : Text → Option Json
unfolding lex parse_value text_eq parse_u64
parse_json s = do
  tokens ← lex between s
  read ← parse_value (3 * length tokens + 1) tokens
  whole read
