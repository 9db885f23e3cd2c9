-- ===== src/Prelude/Text.antt =====
-- What the program uses of Rust's `str` and `Path`, over the characters of the native texts.
use Prim.Native.Nat.{ℕ, zero, suc, ◌+◌, ◌/◌, ◌%◌}
use Prim.Native.Char.{code}
use Prim.Native.String.{String, ◌++◌ as text_append}
use mathlib.Core.Bool.{Bool, true, false, ◌&&◌, ◌||◌}
use mathlib.Core.List.{List, [], ◌∷◌, ◌++◌}
use mathlib.Core.Option.{Option, none, some}
use text.Mathlib.Text.{starts_with}
use inkbridge.Prelude.Lists.{length}
use inkbridge.Prelude.Tests.{ltb, leb, eqb, if◌then◌else◌, ◌==◌, string_key}

-- `format!` of the parts.
unfoldable pub concat : List String → String
concat [] = ""
concat (s ∷ ss) = text_append s (concat ss)

-- `char::is_whitespace`: the code points with the property White_Space.
unfoldable pub is_whitespace : ℕ → Bool
is_whitespace c =
    (leb 0x9 c && leb c 0xd)
    || (eqb c 0x20
        || (eqb c 0x85
            || (eqb c 0xa0
                || (eqb c 0x1680
                    || ((leb 0x2000 c && leb c 0x200a)
                        || ((leb 0x2028 c && leb c 0x2029)
                            || (eqb c 0x202f || (eqb c 0x205f || eqb c 0x3000))))))))

-- `s.trim().is_empty()`
unfoldable pub is_blank : String → Bool
unfolding is_whitespace
is_blank String.[] = true
is_blank (String.◌∷◌ c s) = is_whitespace (code c) && is_blank s

-- The components of a path between slashes, in order.
split_slash : String → String → List String
split_slash acc String.[] = acc ∷ []
split_slash acc (String.◌∷◌ c s) =
    if eqb (code c) b'/'
    then acc ∷ split_slash "" s
    else split_slash (text_append acc (String.◌∷◌ c "")) s

-- The last normal component: empty components and inner "." are skipped, ".." is no file name.
last_component : List String → Option String → Option String
last_component [] found = found
last_component (c ∷ cs) found =
    last_component cs (if c == "" || c == "." then found else if c == ".." then none else some c)

-- `Path::file_name`
unfoldable pub file_name : String → Option String
unfolding split_slash last_component
file_name path = last_component (split_slash "" path) none

-- What follows the last dot, and whether a character stands before it.
after_dot : String → Bool → Option String → Option String
after_dot String.[] started found = found
after_dot (String.◌∷◌ c s) started found =
    after_dot s true (if eqb (code c) b'.' then (if started then some s else none) else found)

-- `Path::extension`
unfoldable pub extension : String → Option String
unfolding file_name after_dot
extension path = elim (file_name path) [ none ↦ none | some name ↦ after_dot name false none ]

abbrev ascii_lower : ℕ → ℕ
ascii_lower c = if leb b'A' c && leb c b'Z' then c + 32 else c

-- `eq_ignore_ascii_case`
unfoldable pub eq_ignore_ascii_case : String → String → Bool
eq_ignore_ascii_case String.[] String.[] = true
eq_ignore_ascii_case (String.◌∷◌ c s) (String.◌∷◌ d t) =
    eqb (ascii_lower (code c)) (ascii_lower (code d)) && eq_ignore_ascii_case s t
eq_ignore_ascii_case _ _ = false

-- `chars().take(n).collect()`
unfoldable pub take_chars : ℕ → String → String
take_chars zero s = ""
take_chars (suc n) String.[] = ""
take_chars (suc n) (String.◌∷◌ c s) = String.◌∷◌ c (take_chars n s)

-- `strip_suffix`
unfoldable pub strip_suffix : String → String → Option String
strip_suffix suffix String.[] = if "" == suffix then some "" else none
strip_suffix suffix (String.◌∷◌ c s) =
    if String.◌∷◌ c s == suffix
    then some ""
    else elim (strip_suffix suffix s) [ none ↦ none | some t ↦ some (String.◌∷◌ c t) ]

-- `s.contains(part)`
unfoldable pub contains_text : String → String → Bool
contains_text String.[] part = starts_with "" part
contains_text (String.◌∷◌ c s) part = starts_with (String.◌∷◌ c s) part || contains_text s part

-- `s.chars().all(..)` on the characters' numbers.
unfoldable pub all_chars : (ℕ → Bool) → String → Bool
all_chars p String.[] = true
all_chars p (String.◌∷◌ c s) = p (code c) && all_chars p s

-- `char::is_ascii_alphanumeric`
abbrev pub is_ascii_alphanumeric : ℕ → Bool
is_ascii_alphanumeric c =
    (leb b'0' c && leb c b'9') || ((leb b'A' c && leb c b'Z') || (leb b'a' c && leb c b'z'))

-- `char::is_ascii_hexdigit`
abbrev pub is_ascii_hexdigit : ℕ → Bool
is_ascii_hexdigit c =
    (leb b'0' c && leb c b'9') || ((leb b'A' c && leb c b'F') || (leb b'a' c && leb c b'f'))

-- The bytes of one character in UTF-8.
abbrev utf8_char : ℕ → List ℕ
utf8_char c =
    if ltb c 0x80
    then c ∷ []
    else if ltb c 0x800
    then (0xc0 + c / 64) ∷ (0x80 + c % 64) ∷ []
    else if ltb c 0x10000
    then (0xe0 + c / 4096) ∷ (0x80 + c / 64 % 64) ∷ (0x80 + c % 64) ∷ []
    else (0xf0 + c / 262144) ∷ (0x80 + c / 4096 % 64) ∷ (0x80 + c / 64 % 64) ∷ (0x80 + c % 64) ∷ []

-- `as_bytes()`
unfoldable pub utf8 : String → List ℕ
utf8 String.[] = []
utf8 (String.◌∷◌ c s) = utf8_char (code c) ++ utf8 s

abbrev digit : ℕ → String
digit d =
    if eqb d 0
    then "0"
    else if eqb d 1
    then "1"
    else if eqb d 2
    then "2"
    else if eqb d 3
    then "3"
    else if eqb d 4
    then "4"
    else if eqb d 5
    then "5"
    else if eqb d 6
    then "6"
    else if eqb d 7
    then "7"
    else if eqb d 8
    then "8"
    else "9"

digits : ℕ → ℕ → String → String
digits zero n acc = acc
digits (suc fuel) n acc =
    let acc' = text_append (digit (n % 10)) acc in
    let rest = digits fuel (n / 10) acc' in if ltb n 10 then acc' else rest

-- `format!("{}")` of a u64, which has at most twenty digits.
unfoldable pub decimal : ℕ → String
unfolding digits
decimal n = digits 20 n ""

-- `s.len()`
unfoldable pub byte_length : String → ℕ
unfolding utf8
byte_length s = length (utf8 s)
