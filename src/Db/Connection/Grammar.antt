-- ===== src/Db/Connection/Grammar.antt =====
-- Connection strings as ODBC documents them: attributes separated by semicolons, each a name, an
-- equals sign and a value. A value that begins with a brace ends at the closing brace, in which a
-- doubled closing brace stands for one; any other value ends at the semicolon.
use Prim.Native.Char.{Char, code}
use Prim.Native.String.append
use sql_observability.Base.{
  ◌≡◌, refl, ap, ◌∙◌, ℕ, String, ◌<>◌, Bool, true, false, not, ◌&&◌, List, [], ◌∷◌, nat_beq,
  if◌then◌else◌, and-eq-true, arith,
}

-- Where a reader stands: in a name, before a value, in one, in braces, behind a closing brace.
pub data Place : Type 0 where
  name start plain braced closing : Place

-- What is left of the name and of the value, and the attributes that follow.
abbrev pub Reading : Type 0
Reading = String × (String × List (String × String))

abbrev pub to_name : Char → Reading → Reading
to_name ch r = (String.◌∷◌ ch r.0, r.1)

abbrev pub to_value : Char → Reading → Reading
to_value ch r = ("", (String.◌∷◌ ch r.1.0, r.1.1))

abbrev pub first_of : Reading → List (String × String)
first_of r = (r.0, r.1.0) ∷ r.1.1

-- A semicolon, an equals sign and the braces are 59, 61, 123 and 125.
unfoldable pub read : Place → String → Reading
read place String.[] = ("", ("", []))
read name (String.◌∷◌ ch s) =
    let next = read name s in
    let value = read start s in
    if nat_beq (code ch) 59
    then ("", ("", first_of next))
    else (if nat_beq (code ch) 61 then ("", value.1) else to_name ch next)
read start (String.◌∷◌ ch s) =
    let next = read name s in
    let inside = read braced s in
    let value = read plain s in
    if nat_beq (code ch) 123
    then inside
    else (if nat_beq (code ch) 59 then ("", ("", first_of next)) else to_value ch value)
read plain (String.◌∷◌ ch s) =
    let next = read name s in
    let value = read plain s in
    if nat_beq (code ch) 59 then ("", ("", first_of next)) else to_value ch value
read braced (String.◌∷◌ ch s) =
    let after = read closing s in
    let inside = read braced s in if nat_beq (code ch) 125 then after else to_value ch inside
read closing (String.◌∷◌ ch s) =
    let next = read name s in
    let inside = read braced s in
    let after = read closing s in
    if nat_beq (code ch) 59
    then ("", ("", first_of next))
    else (if nat_beq (code ch) 125 then to_value ch inside else after)

unfoldable pub read_attributes : String → List (String × String)
unfolding read
read_attributes s = first_of (read name s)

-- No character of the text has this code.
unfoldable pub lacks : ℕ → String → Bool
lacks c String.[] = true
lacks c (String.◌∷◌ ch s) = not (nat_beq (code ch) c) && lacks c s

-- A value that needs no braces: it has no semicolon and does not begin with a brace.
unfoldable pub is_plain : String → Bool
unfolding lacks
is_plain String.[] = true
is_plain (String.◌∷◌ ch s) = not (nat_beq (code ch) 123) && lacks 59 (String.◌∷◌ ch s)

abbrev pub equals : Char
equals = "="

abbrev pub semicolon : Char
semicolon = ";"

abbrev pub close : Char
close = "}"

abbrev pub open_brace : Char
open_brace = "{"

pub one-append : (ch : Char) (t : String) → (String.◌∷◌ ch "" <> t) ≡ String.◌∷◌ ch t
one-append ch t = append.cons ch "" t ∙ ap (String.◌∷◌ ch) (append.nil t)

pub read-name :
    (k t : String)
    → lacks 59 k ≡ true
    → lacks 61 k ≡ true
    → read name (k <> String.◌∷◌ equals t) ≡ (k, (read start t).1)
unfolding read lacks
read-name String.[] t h j = ap (read name) (append.nil (String.◌∷◌ equals t))
read-name (String.◌∷◌ ch s) t h j =
    let (not_semicolon, others) = and-eq-true (not (nat_beq (code ch) 59)) (lacks 59 s) h in
    let (not_equals, others_too) = and-eq-true (not (nat_beq (code ch) 61)) (lacks 61 s) j in
    let e1 : nat_beq (code ch) 59 ≡ false = ground (arith, not_semicolon) in
    let e2 : nat_beq (code ch) 61 ≡ false = ground (arith, not_equals) in
    ap (read name) (append.cons ch s (String.◌∷◌ equals t))
    ∙ rw (e1, e2, read-name s t others others_too) refl

read-plain_last : (v : String) → lacks 59 v ≡ true → read plain v ≡ ("", (v, []))
unfolding read lacks
read-plain_last String.[] h = refl
read-plain_last (String.◌∷◌ ch s) h =
    let (this, others) = and-eq-true (not (nat_beq (code ch) 59)) (lacks 59 s) h in
    let other : nat_beq (code ch) 59 ≡ false = ground (arith, this) in
    rw (other, read-plain_last s others) refl

read-plain :
    (v t : String)
    → lacks 59 v ≡ true
    → read plain (v <> String.◌∷◌ semicolon t) ≡ ("", (v, read_attributes t))
unfolding read lacks read_attributes
read-plain String.[] t h = ap (read plain) (append.nil (String.◌∷◌ semicolon t))
read-plain (String.◌∷◌ ch s) t h =
    let (this, others) = and-eq-true (not (nat_beq (code ch) 59)) (lacks 59 s) h in
    let other : nat_beq (code ch) 59 ≡ false = ground (arith, this) in
    ap (read plain) (append.cons ch s (String.◌∷◌ semicolon t))
    ∙ rw (other, read-plain s t others) refl

pub read-start_last : (v : String) → is_plain v ≡ true → read start v ≡ ("", (v, []))
unfolding read lacks is_plain
read-start_last String.[] h = refl
read-start_last (String.◌∷◌ ch s) h =
    let (this, others) = and-eq-true (not (nat_beq (code ch) 123)) _ h in
    let other : nat_beq (code ch) 123 ≡ false = ground (arith, this) in
    rw other (read-plain_last (String.◌∷◌ ch s) others)

pub read-start :
    (v t : String)
    → is_plain v ≡ true
    → read start (v <> String.◌∷◌ semicolon t) ≡ ("", (v, read_attributes t))
unfolding read lacks is_plain read_attributes
read-start String.[] t h = ap (read start) (append.nil (String.◌∷◌ semicolon t))
read-start (String.◌∷◌ ch s) t h =
    let (this, others) = and-eq-true (not (nat_beq (code ch) 123)) _ h in
    let other : nat_beq (code ch) 123 ≡ false = ground (arith, this) in
    let (this_too, rest) = and-eq-true (not (nat_beq (code ch) 59)) (lacks 59 s) others in
    let plain_too : nat_beq (code ch) 59 ≡ false = ground (arith, this_too) in
    ap (read start) (append.cons ch s (String.◌∷◌ semicolon t))
    ∙ rw (other, plain_too, read-plain s t rest) refl

pub read-braced :
    (v t : String)
    → lacks 125 v ≡ true
    → read braced (v <> String.◌∷◌ close (String.◌∷◌ semicolon t)) ≡ ("", (v, read_attributes t))
unfolding read lacks read_attributes
read-braced String.[] t h =
    ap (read braced) (append.nil (String.◌∷◌ close (String.◌∷◌ semicolon t)))
read-braced (String.◌∷◌ ch s) t h =
    let (this, others) = and-eq-true (not (nat_beq (code ch) 125)) (lacks 125 s) h in
    let other : nat_beq (code ch) 125 ≡ false = ground (arith, this) in
    ap (read braced) (append.cons ch s (String.◌∷◌ close (String.◌∷◌ semicolon t)))
    ∙ rw (other, read-braced s t others) refl
