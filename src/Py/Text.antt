-- ===== src/Py/Text.antt =====
-- `str.replace` of one character, `str.join`, and texts character by character.
pub mod Quoting
use Prim.Native.Char.{Char, code}
use sql_observability.Base.{ℕ, String, ◌<>◌, List, [], ◌∷◌, nat_beq, if◌then◌else◌}

-- `s.replace(c, by)` for a character, given by its code
unfoldable pub replace : ℕ → String → String → String
replace c by String.[] = ""
replace c by (String.◌∷◌ ch s) =
    let rest = replace c by s in if nat_beq (code ch) c then by <> rest else String.◌∷◌ ch rest

-- `sep.join(parts)`
unfoldable pub join : String → List String → String
join sep [] = ""
join sep (s ∷ []) = s
join sep (s ∷ t ∷ rest) = s <> sep <> join sep (t ∷ rest)

-- `list(s)`: the characters, each as a text
unfoldable pub characters : String → List String
characters String.[] = []
characters (String.◌∷◌ ch s) = String.◌∷◌ ch "" ∷ characters s

-- What T-SQL reads of a text that stands in quotes with closing character `c`: the characters up to
-- a `c` that is not doubled, and what follows it. (In quotes, though not in brackets, T-SQL also drops
-- a backslash that ends a line, with the end of the line; that is left out here.)
abbrev pub push : Char → String × String → String × String
push ch (name, rest) = (String.◌∷◌ ch name, rest)

unfoldable pub read_quoted : ℕ → String → String × String
read_quoted c String.[] = ("", "")
read_quoted c (String.◌∷◌ ch String.[]) =
    if nat_beq (code ch) c then ("", "") else (String.◌∷◌ ch "", "")
read_quoted c (String.◌∷◌ ch (String.◌∷◌ d s)) =
    let doubled = read_quoted c s in
    let onward = read_quoted c (String.◌∷◌ d s) in
    if nat_beq (code ch) c
    then (if nat_beq (code d) c then push ch doubled else ("", String.◌∷◌ d s))
    else push ch onward
