-- ===== src/Protocol/Values.antt =====
-- A JSON value after `JSON.parse`, and what the protocol asks of it.
use cantelop_sdk.Prelude.{
  ℕ, Bool, true, false, not, ◌&&◌, Option, none, some, List, [], ◌∷◌, leb, any, String, str_eq,
  if◌then◌else◌, Number, natural, is_safe_natural,
}

mutual
  pub data Value : Type 0 where
    null : Value
    boolean : Bool → Value
    number : Number → Value
    string : String → Value
    array : Elements → Value
    object : Members → Value

  pub data Elements : Type 0 where
    no_elements : Elements
    element : Value → Elements → Elements

  pub data Members : Type 0 where
    no_members : Members
    member : String → Value → Members → Members

-- `value[key]`; the parser leaves one member of each name.
unfoldable pub get : String → Members → Option Value
get key no_members = none
get key (member name value rest) =
    let further = get key rest in if str_eq name key then some value else further

-- `Object.keys`.
unfoldable pub keys : Members → List String
keys no_members = []
keys (member name value rest) = name ∷ keys rest

abbrev pub has : String → Members → Bool
has key ms = elim (get key ms) [ none ↦ false | some v ↦ true ]

abbrev pub includes : List String → String → Bool
includes names name = any (λ n. str_eq n name) names

-- No key is outside the list.
abbrev pub only_keys : List String → Members → Bool
only_keys names ms = not (any (λ k. not (includes names k)) (keys ms))

-- `isRecord`.
abbrev pub as_record : Option Value → Option Members
as_record (some (object ms)) = some ms
as_record _ = none

abbrev pub as_string : Option Value → Option String
as_string (some (string s)) = some s
as_string _ = none

-- A string of the pattern.
abbrev pub is_match : (String → Bool) → Option Value → Bool
is_match p (some (string s)) = p s
is_match p _ = false

abbrev pub is_string : Option Value → Bool
is_string = is_match λ s. true

abbrev pub equals : String → Option Value → Bool
equals t = is_match λ s. str_eq s t

abbrev pub is_boolean : Option Value → Bool
is_boolean (some (boolean b)) = true
is_boolean _ = false

abbrev pub is_null : Option Value → Bool
is_null (some null) = true
is_null _ = false

-- An integer between the bounds, which are safe.
abbrev pub is_within : ℕ → ℕ → Option Value → Bool
is_within low high (some (number (natural n))) = leb low n && leb n high
is_within low high _ = false

abbrev pub is_safe : Option Value → Bool
is_safe (some (number n)) = is_safe_natural n
is_safe _ = false

-- Missing, or as the test asks.
abbrev pub is_optional : (Option Value → Bool) → Option Value → Bool
is_optional p none = true
is_optional p (some v) = p (some v)
