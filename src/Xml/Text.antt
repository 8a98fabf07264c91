-- ===== src/Xml/Text.antt =====
-- bteng/xml_parser/parser.py: what its regular expressions and its conversions take, on texts of ASCII
-- characters.
use Prim.Native.Char.{code}
use Prim.Native.String.{[], ◌∷◌}
use bteng.Prelude.{
  ℕ, String, ℤ, Bool, true, false, Option, none, some, ◌&&◌, ◌||◌, leb, ◌==◌, if◌then◌else◌, str_eq,
}
use bteng.Value.{int_of, float_of, text}
use bteng.Xml.{Checked, valid, invalid, not_literal, not_a_number}

-- \w
abbrev is_word : ℕ → Bool
is_word c =
    (leb b'0' c && leb c b'9')
    || (leb b'A' c && leb c b'Z')
    || (leb b'a' c && leb c b'z')
    || (c == b'_')

-- \s, which is what `strip` takes off
abbrev is_space : ℕ → Bool
is_space c = (leb 9 c && leb c 13) || (leb 28 c && leb c 32)

-- `$` of a regular expression, which holds in front of a last line feed too
ends : String → Bool
ends [] = true
ends (c ∷ []) = code c == 10
ends (c ∷ d ∷ rest) = false

-- `(\w+)\}$`, or `(\w*)\}$` behind a character of the key
key_part : String → Option String
unfolding ends
key_part [] = none
key_part (c ∷ rest) = elim (key_part rest) [
  | some key ↦ if is_word (code c) then some (c ∷ key) else none
  | none ↦ if (code c == b'}') && ends rest then some [] else none
]

-- _parse_attr, and _is_bb_ref: the key, `none` for a text that is no reference.
unfoldable pub parse_attr : String → Option String
unfolding key_part
parse_attr [] = none
parse_attr (c ∷ rest) =
    if code c == b'{'
    then elim (key_part rest) [ none ↦ none | some key ↦ if str_eq key "" then none else some key ]
    else none

lstrip : String → String
lstrip [] = []
lstrip (c ∷ rest) = let below = lstrip rest in if is_space (code c) then below else c ∷ rest

rstrip : String → String
rstrip [] = []
rstrip (c ∷ rest) =
    let below = rstrip rest in if is_space (code c) && str_eq below "" then [] else c ∷ below

-- `raw.strip()`
unfoldable pub strip : String → String
unfolding lstrip rstrip
strip raw = rstrip (lstrip raw)

closes : String → Bool
closes [] = false
closes (c ∷ []) = code c == b'}'
closes (c ∷ d ∷ rest) = closes (d ∷ rest)

opens : String → Bool
unfolding closes
opens [] = false
opens (c ∷ rest) = (code c == b'{') && closes rest

-- _BRACE_FORM_RE
unfoldable pub has_brace_form : String → Bool
unfolding strip opens
has_brace_form raw = opens (strip raw)

-- A number from a text, which has to be a literal.
abbrev pub literal_number : Bool → Option ℤ → Checked ℤ
literal_number true o = invalid not_literal
literal_number false none = invalid not_a_number
literal_number false (some z) = valid z

-- _int_attr, with _reject_bb_ref
unfoldable pub int_attr : String → Checked ℤ
unfolding has_brace_form strip
int_attr raw = literal_number (has_brace_form raw) (int_of (text (strip raw)))

-- _float_attr
unfoldable pub float_attr : String → Checked ℤ
unfolding has_brace_form strip
float_attr raw = literal_number (has_brace_form raw) (float_of (text (strip raw)))
