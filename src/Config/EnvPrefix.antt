-- ===== src/Config/EnvPrefix.antt =====
-- src/config.py, `env_var_prefix`: the prefix of an instance's environment variables.
use Prim.Native.Char.{Char, code}
use sql_observability.Base.{
  ℕ, zero, suc, ◌-◌, ◌≡◌, refl, String, Bool, true, ◌&&◌, ◌||◌, arith, leb, if◌then◌else◌,
  Bool-cases, inl, inr, false, and-eq-true,
}

is_digit : ℕ → Bool
is_digit c = leb b'0' c && leb c b'9'

is_upper : ℕ → Bool
is_upper c = leb b'A' c && leb c b'Z'

is_lower : ℕ → Bool
is_lower c = leb b'a' c && leb c b'z'

-- The character at an index, or the default past the end.
pick : Char → String → ℕ → Char
pick d String.[] i = d
pick d (String.◌∷◌ ch s) zero = ch
pick d (String.◌∷◌ ch s) (suc i) = pick d s i

-- `re.sub(r"[^A-Za-z0-9]", "_", ...)` and then `.upper()`, on one character
env_char : Char → Char
unfolding is_digit is_upper is_lower pick
env_char ch =
    if is_digit (code ch) || is_upper (code ch)
    then ch
    else if is_lower (code ch)
    then pick "_" "ABCDEFGHIJKLMNOPQRSTUVWXYZ" (code ch - 97)
    else "_"

unfoldable pub env_var_prefix : String → String
unfolding env_char
env_var_prefix String.[] = ""
env_var_prefix (String.◌∷◌ ch s) = String.◌∷◌ (env_char ch) (env_var_prefix s)

-- Capitals, digits and underscores: what a name in a .env file may hold.
pub is_env_code : ℕ → Bool
unfolding is_digit is_upper
is_env_code c = is_digit c || is_upper c || (leb b'_' c && leb c b'_')

abbrev pub IsEnvName : String → Type 0
IsEnvName String.[] = Unit
IsEnvName (String.◌∷◌ ch s) = (is_env_code (code ch) ≡ true) × IsEnvName s

pick-IsEnvName :
    (d : Char) (s : String) (i : ℕ)
    → is_env_code (code d) ≡ true
    → IsEnvName s
    → is_env_code (code (pick d s i)) ≡ true
unfolding pick
pick-IsEnvName d String.[] i h k = h
pick-IsEnvName d (String.◌∷◌ ch s) zero h k = k.0
pick-IsEnvName d (String.◌∷◌ ch s) (suc i) h k = pick-IsEnvName d s i h k.1

all_env : String → Bool
all_env String.[] = true
all_env (String.◌∷◌ ch s) = is_env_code (code ch) && all_env s

all_env-IsEnvName : (s : String) → all_env s ≡ true → IsEnvName s
unfolding all_env
all_env-IsEnvName String.[] h = tt
all_env-IsEnvName (String.◌∷◌ ch s) h =
    let (this, rest) = and-eq-true (is_env_code (code ch)) (all_env s) h in
    (this, all_env-IsEnvName s rest)

abbrev capitals : String
capitals = "ABCDEFGHIJKLMNOPQRSTUVWXYZ"

capitals-IsEnvName : IsEnvName capitals
unfolding all_env is_env_code
capitals-IsEnvName = all_env-IsEnvName capitals refl

abbrev underscore : Char
underscore = "_"

underscore-is_env : is_env_code (code underscore) ≡ true
unfolding is_env_code
underscore-is_env = refl

kept-is_env : (c : ℕ) → (is_digit c || is_upper c) ≡ true → is_env_code c ≡ true
unfolding is_env_code
kept-is_env c h = ground arith

pick_if-is_env :
    (b : Bool) (i : ℕ)
    → is_env_code (code (if b then pick underscore capitals i else underscore)) ≡ true
pick_if-is_env true i = pick-IsEnvName underscore capitals i underscore-is_env capitals-IsEnvName
pick_if-is_env false i = underscore-is_env

env_char-is_env : (ch : Char) → is_env_code (code (env_char ch)) ≡ true
unfolding env_char
env_char-is_env ch = elim (Bool-cases (is_digit (code ch) || is_upper (code ch))) [
  | inl here ↦ rw here (kept-is_env (code ch) here)
  | inr there ↦ rw there (pick_if-is_env (is_lower (code ch)) (code ch - 97))
]

-- Whatever the instance is called, the prefix is made of capitals, digits and underscores.
pub env_var_prefix-IsEnvName : (name : String) → IsEnvName (env_var_prefix name)
unfolding env_var_prefix
env_var_prefix-IsEnvName String.[] = tt
env_var_prefix-IsEnvName (String.◌∷◌ ch s) = (env_char-is_env ch, env_var_prefix-IsEnvName s)
