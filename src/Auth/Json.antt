-- ===== src/Auth/Json.antt =====
-- Parsed JSON, its canonical text (canonicalJsonStringify of server/src/lib/gateway-x-token.js) and
-- `String(value)`. The text of a number is the one that JavaScript prints.
use crypto_gateway_rp.Common.{
  ℕ, ◌+◌, ◌-◌, ◌/◌, ◌%◌, Bool, true, false, ◌&&◌, ◌||◌, Option, none, some, List, [], ◌∷◌, ◌++◌,
  ltb, leb, ◌==◌, if◌then◌else◌,
}
use crypto_gateway_rp.Text.{Text, codes, eq_text}

mutual
  pub data Json : Type 0 where
    null : Json
    boolean : Bool → Json
    -- Whether it is finite, and its text.
    number : Bool → Text → Json
    text : Text → Json
    array : Items → Json
    object : Members → Json
    -- What JSON.parse never gives, such as undefined.
    unsupported : Json

  pub data Items : Type 0 where
    no_items : Items
    item : Json → Items → Items

  pub data Members : Type 0 where
    no_members : Members
    member : Text → Json → Members → Members

-- `body[key]`, `none` where it is undefined.
unfoldable pub property : Text → Members → Option Json
property key no_members = none
property key (member k v ms) = let rest = property key ms in if eq_text k key then some v else rest

-- The order of `sort()`, by code units.
unfoldable pub lt_text : Text → Text → Bool
lt_text [] [] = false
lt_text [] (y ∷ ys) = true
lt_text (x ∷ xs) [] = false
lt_text (x ∷ xs) (y ∷ ys) = ltb x y || x == y && lt_text xs ys

-- A member's key and the text of its value, where the value has one.
abbrev pub Part : Type 0
Part = Text × Option Text

unfoldable pub insert_part : Part → List Part → List Part
insert_part p [] = p ∷ []
insert_part p (q ∷ qs) =
    let rest = insert_part p qs in if lt_text q.0 p.0 then q ∷ rest else p ∷ q ∷ qs

abbrev hex_digit : ℕ → ℕ
hex_digit d = if ltb d 10 then b'0' + d else b'a' + d - 10

unicode_escape : ℕ → Text
unicode_escape c =
    b'\\'
    ∷ b'u'
    ∷ hex_digit (c / 4096 % 16)
    ∷ hex_digit (c / 256 % 16)
    ∷ hex_digit (c / 16 % 16)
    ∷ hex_digit (c % 16)
    ∷ []

-- A code unit of a JSON string; surrogates that stand alone are escaped as well.
escape_unit : ℕ → Text
unfolding unicode_escape
escape_unit c =
    if c == b'"'
    then codes "\\\""
    else if c == b'\\'
    then codes "\\\\"
    else if c == 8
    then codes "\\b"
    else if c == 9
    then codes "\\t"
    else if c == 10
    then codes "\\n"
    else if c == 12
    then codes "\\f"
    else if c == 13
    then codes "\\r"
    else if ltb c 32 || leb 0xd800 c && leb c 0xdfff
    then unicode_escape c
    else c ∷ []

abbrev is_pair : ℕ → ℕ → Bool
is_pair c d = leb 0xd800 c && leb c 0xdbff && leb 0xdc00 d && leb d 0xdfff

escape : Text → Text
unfolding escape_unit
escape [] = []
escape (c ∷ []) = escape_unit c
escape (c ∷ d ∷ s) =
    let both = c ∷ d ∷ escape s in
    let one = escape_unit c ++ escape (d ∷ s) in if is_pair c d then both else one

-- `JSON.stringify` of a text.
unfoldable pub quoted : Text → Text
unfolding escape
quoted s = b'"' ∷ escape s ++ codes "\""

-- Where no part is missing: the parts with commas between them.
abbrev pub with_comma : Option Text → Option Text → Option Text
with_comma (some s) (some t) = some (s ++ b',' ∷ t)
with_comma _ _ = none

unfoldable pub member_texts : List Part → Option Text
unfolding quoted
member_texts [] = some []
member_texts ((k, none) ∷ ps) = none
member_texts ((k, some v) ∷ []) = some (quoted k ++ b':' ∷ v)
member_texts ((k, some v) ∷ q ∷ ps) =
    with_comma (some (quoted k ++ b':' ∷ v)) (member_texts (q ∷ ps))

abbrev pub enclosed : ℕ → ℕ → Option Text → Option Text
enclosed a b none = none
enclosed a b (some s) = some (a ∷ s ++ b ∷ [])

-- `none` is an exception.
unfoldable mutual
  unfolding quoted insert_part member_texts

  pub canonical_json_stringify : Json → Option Text
  canonical_json_stringify null = some (codes "null")
  canonical_json_stringify (boolean b) = some (if b then codes "true" else codes "false")
  canonical_json_stringify (number finite t) = if finite then some t else none
  canonical_json_stringify (text s) = some (quoted s)
  canonical_json_stringify (array xs) = enclosed b'[' b']' (item_texts xs)
  canonical_json_stringify (object ms) = enclosed b'{' b'}' (member_texts (sorted_parts ms))
  canonical_json_stringify unsupported = none

  pub item_texts : Items → Option Text
  item_texts no_items = some []
  item_texts (item v no_items) = canonical_json_stringify v
  item_texts (item v (item w xs)) = with_comma (canonical_json_stringify v) (item_texts (item w xs))

  pub sorted_parts : Members → List Part
  sorted_parts no_members = []
  sorted_parts (member k v ms) = insert_part (k, canonical_json_stringify v) (sorted_parts ms)

-- `String(value)`.
unfoldable mutual
  pub string_of : Json → Text
  string_of null = codes "null"
  string_of (boolean b) = if b then codes "true" else codes "false"
  string_of (number finite t) = t
  string_of (text s) = s
  string_of (array xs) = strings_of xs
  string_of (object ms) = codes "[object Object]"
  string_of unsupported = codes "undefined"

  pub element_string : Json → Text
  element_string null = []
  element_string (boolean b) = if b then codes "true" else codes "false"
  element_string (number finite t) = t
  element_string (text s) = s
  element_string (array xs) = strings_of xs
  element_string (object ms) = codes "[object Object]"
  element_string unsupported = []

  pub strings_of : Items → Text
  strings_of no_items = []
  strings_of (item v no_items) = element_string v
  strings_of (item v (item w xs)) = element_string v ++ b',' ∷ strings_of (item w xs)
