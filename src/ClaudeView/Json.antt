-- ===== src/ClaudeView/Json.antt =====
-- The text that `JSON.stringify` writes, as far as the view of a Claude Session holds values of a
-- kind, and its size in UTF-8 bytes.
use Prim.Native.Nat.{◌/◌, ◌%◌}
use cantelop_sdk.Prelude.{
  ℕ, ◌+◌, ◌≡◌, refl, Bool, true, false, ◌&&◌, ◌||◌, List, [], ◌∷◌, ◌++◌, ltb, leb, ◌==◌,
  if◌then◌else◌, arith, sum_by, sum_by-append, String, codes,
}
use cantelop_sdk.Stream.{Text, byte_length, utf8_size}

hex_digit : ℕ → ℕ
hex_digit n = if ltb n 10 then 48 + n else 87 + n

-- `\u` and four hexadecimal digits.
unicode_escape : ℕ → Text
unfolding hex_digit
unicode_escape c =
    92
    ∷ 117
    ∷ hex_digit (c / 4096)
    ∷ hex_digit (c / 256 % 16)
    ∷ hex_digit (c / 16 % 16)
    ∷ hex_digit (c % 16)
    ∷ []

-- A control character, or half of a surrogate pair.
needs_escape : ℕ → Bool
needs_escape c = ltb c 32 || (leb 55296 c && leb c 57343)

escape : ℕ → Text
unfolding unicode_escape needs_escape
escape c =
    if c == 34 || c == 92
    then 92 ∷ c ∷ []
    else if c == 8
    then codes "\\b"
    else if c == 9
    then codes "\\t"
    else if c == 10
    then codes "\\n"
    else if c == 12
    then codes "\\f"
    else if c == 13
    then codes "\\r"
    else if needs_escape c
    then unicode_escape c
    else c ∷ []

escape_all : Text → Text
unfolding escape
escape_all [] = []
escape_all (c ∷ cs) = escape c ++ escape_all cs

unfoldable pub quote : Text → Text
unfolding escape_all
quote cs = 34 ∷ (escape_all cs ++ 34 ∷ [])

unfoldable pub boolean_text : Bool → Text
boolean_text true = codes "true"
boolean_text false = codes "false"

unfoldable pub comma_join : List Text → Text
comma_join [] = []
comma_join (t ∷ []) = t
comma_join (t ∷ u ∷ rest) = t ++ 44 ∷ comma_join (u ∷ rest)

unfoldable pub array : List Text → Text
array ts = 91 ∷ (comma_join ts ++ 93 ∷ [])

unfoldable pub object : List Text → Text
object ts = 123 ∷ (comma_join ts ++ 125 ∷ [])

unfoldable pub member : String → Text → Text
unfolding quote
member name value = quote (codes name) ++ 58 ∷ value

-- A text with the comma behind it.
abbrev pub with_comma : Text → ℕ
with_comma t = byte_length t + 1

pub byte_length-append : (s t : Text) → byte_length (s ++ t) ≡ byte_length s + byte_length t
byte_length-append s t = sum_by-append utf8_size s t

comma_join-size :
    (t : Text) (ts : List Text) → byte_length (comma_join (t ∷ ts)) + 1 ≡ sum_by with_comma (t ∷ ts)
unfolding comma_join
comma_join-size t [] = omega arith
comma_join-size t (u ∷ ts) =
    omega (arith, comma_join-size u ts, byte_length-append t (44 ∷ comma_join (u ∷ ts)))

pub object-size :
    (t : Text) (ts : List Text) → byte_length (object (t ∷ ts)) ≡ sum_by with_comma (t ∷ ts) + 1
unfolding object
object-size t ts =
    omega (arith, comma_join-size t ts, byte_length-append (comma_join (t ∷ ts)) (125 ∷ []))

pub member-size :
    (name : String) (value : Text)
    → byte_length (member name value) ≡ byte_length (quote (codes name)) + 1 + byte_length value
unfolding member
member-size name value = omega (arith, byte_length-append (quote (codes name)) (58 ∷ value))

abbrev pub separator : List Text → ℕ
separator [] = 0
separator (_ ∷ _) = 1

-- An array loses the size of its first element and of the comma behind it.
pub array-shift :
    (t : Text) (ts : List Text)
    → byte_length (array (t ∷ ts)) ≡ byte_length (array ts) + (byte_length t + separator ts)
unfolding array comma_join
array-shift t [] = omega (arith, byte_length-append t (93 ∷ []))
array-shift t (u ∷ ts) = omega (
  arith,
  byte_length-append (t ++ 44 ∷ comma_join (u ∷ ts)) (93 ∷ []),
  byte_length-append t (44 ∷ comma_join (u ∷ ts)),
  byte_length-append (comma_join (u ∷ ts)) (93 ∷ []),
)

pub flag_size : (t : Bool) → byte_length (boolean_text t) ≡ 4 + (if t then 0 else 1)
unfolding boolean_text
flag_size true = refl
flag_size false = refl
