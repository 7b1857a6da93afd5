-- ===== src/Py/Text/Quoting.antt =====
-- The texts that src/collectors puts in brackets or quotes, with the closing character doubled.
use Prim.Native.Char.{Char, code}
use Prim.Native.String.append
use package.text.Mathlib.TextEquality.{Char-path}
use sql_observability.Base.{
  ◌≡◌, refl, sym, ap, ◌∙◌, ℕ, String, ◌<>◌, true, false, nat_beq, nat_beq→eq, nat_beq_refl,
  Bool-cases, inl, inr,
}
use sql_observability.Py.Text.{replace, push, read_quoted}

abbrev pub bracket : Char
bracket = "]"

abbrev pub quote : Char
quote = "'"

read_quoted-cons :
    (c : ℕ) (ch : Char) (t : String)
    → nat_beq (code ch) c ≡ false
    → read_quoted c (String.◌∷◌ ch t) ≡ push ch (read_quoted c t)
unfolding read_quoted
read_quoted-cons c ch String.[] h = rw h refl
read_quoted-cons c ch (String.◌∷◌ d s) h = rw h refl

module _ (q : Char) where
  -- the closing character, twice
  abbrev pub doubled : String
  doubled = String.◌∷◌ q (String.◌∷◌ q "")

  read_quoted_closed :
      (next : Char) (rest : String)
      → nat_beq (code next) (code q) ≡ false
      → read_quoted (code q) (String.◌∷◌ q (String.◌∷◌ next rest)) ≡ ("", String.◌∷◌ next rest)
  unfolding read_quoted
  read_quoted_closed next rest h = rw (nat_beq_refl (code q), h) refl

  doubled-append : (s t : String) → (doubled <> s) <> t ≡ String.◌∷◌ q (String.◌∷◌ q (s <> t))
  doubled-append s t =
      let inner : (doubled <> s) ≡ String.◌∷◌ q (String.◌∷◌ q s) =
        append.cons q (String.◌∷◌ q "") s
        ∙ ap (String.◌∷◌ q) (append.cons q "" s ∙ ap (String.◌∷◌ q) (append.nil s)) in
      ap (λ x. x <> t) inner
      ∙ append.cons q (String.◌∷◌ q s) t
      ∙ ap (String.◌∷◌ q) (append.cons q s t)

  replace-closing :
      (ch : Char) (s : String)
      → nat_beq (code ch) (code q) ≡ true
      → replace (code q) doubled (String.◌∷◌ ch s) ≡ doubled <> replace (code q) doubled s
  unfolding replace
  replace-closing ch s h = rw h refl

  replace-other :
      (ch : Char) (s : String)
      → nat_beq (code ch) (code q) ≡ false
      → replace (code q) doubled (String.◌∷◌ ch s) ≡ String.◌∷◌ ch (replace (code q) doubled s)
  unfolding replace
  replace-other ch s h = rw h refl

  read_quoted_doubled :
      (t : String)
      → read_quoted (code q) (String.◌∷◌ q (String.◌∷◌ q t)) ≡ push q (read_quoted (code q) t)
  unfolding read_quoted
  read_quoted_doubled t = rw (nat_beq_refl (code q)) refl

-- A text in which the closing character is doubled is read back whole from before that character,
-- if what follows it begins with another character.
pub read_quoted-replace :
    (q : Char) (name : String) (next : Char) (rest : String)
    → nat_beq (code next) (code q) ≡ false
    → read_quoted
        (code q)
        (replace (code q) (doubled q) name <> String.◌∷◌ q (String.◌∷◌ next rest))
      ≡ (name, String.◌∷◌ next rest)
unfolding replace
read_quoted-replace q String.[] next rest h =
    ap (read_quoted (code q)) (append.nil (String.◌∷◌ q (String.◌∷◌ next rest)))
    ∙ read_quoted_closed q next rest h
read_quoted-replace q (String.◌∷◌ ch s) next rest h =
    let tail = String.◌∷◌ q (String.◌∷◌ next rest) in
    let onward = replace (code q) (doubled q) s in
    let below = read_quoted-replace q s next rest h in
    elim (Bool-cases (nat_beq (code ch) (code q))) [
      | inl closing ↦
          ap (λ x. read_quoted (code q) (x <> tail)) (replace-closing q ch s closing)
          ∙ ap (read_quoted (code q)) (doubled-append q onward tail)
          ∙ read_quoted_doubled q (onward <> tail)
          ∙ ap (push q) below
          ∙ ap (λ d. (String.◌∷◌ d s, String.◌∷◌ next rest))
              (sym (Char-path ch q (nat_beq→eq (code ch) (code q) closing)))
      | inr other ↦
          ap (λ x. read_quoted (code q) (x <> tail)) (replace-other q ch s other)
          ∙ ap (read_quoted (code q)) (append.cons ch onward tail)
          ∙ read_quoted-cons (code q) ch (onward <> tail) other
          ∙ ap (push ch) below
    ]
