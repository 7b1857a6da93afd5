-- ===== src/Py/Yaml.antt =====
-- What `yaml.safe_load` returns, as far as the program reads it: no floats and no timestamps.
-- A mapping lists its keys in order, each once.
use sql_observability.Base.{
  ℕ, suc, String, Bool, true, false, not, ◌&&◌, Option, none, some, List, [], ◌∷◌, ◌==◌, nat_beq,
  if◌then◌else◌,
}
use sql_observability.Base.Int.{ℤ, pos, negsuc}
use sql_observability.Py.Errors.{Result, ok, err, key_error, attribute_error}

mutual
  pub data Yaml : Type 0 where
    null : Yaml
    bool : Bool → Yaml
    int : ℤ → Yaml
    text : String → Yaml
    list : Items → Yaml
    dict : Fields → Yaml

  pub data Items : Type 0 where
    nil : Items
    item : Yaml → Items → Items

  pub data Fields : Type 0 where
    end : Fields
    field : String → Yaml → Fields → Fields

abbrev pub elements : Items → List Yaml
elements nil = []
elements (item v vs) = v ∷ elements vs

-- `d.items()`
abbrev pub entries : Fields → List (String × Yaml)
entries end = []
entries (field k v fs) = (k, v) ∷ entries fs

-- `d.get(k)`, which is `none` where the key is missing
abbrev pub find : String → Fields → Option Yaml
find k end = none
find k (field j v fs) = if j == k then some v else find k fs

-- `k in d`
abbrev pub has : Fields → String → Bool
has fs k = elim (find k fs) [ none ↦ false | some v ↦ true ]

-- `d.get(k, default)`
abbrev pub get_or : Fields → String → Yaml → Yaml
get_or fs k d = elim (find k fs) [ none ↦ d | some v ↦ v ]

-- `v.get(k, default)`, where `v` need not be a mapping
abbrev pub get_in : Yaml → String → Yaml → Result Yaml
get_in (dict fs) k d = ok (get_or fs k d)
get_in _ k d = err attribute_error

-- `d[k]`
abbrev pub subscript : Fields → String → Result Yaml
subscript fs k = elim (find k fs) [ none ↦ err (key_error k) | some v ↦ ok v ]

-- `bool(v)`
abbrev pub truthy : Yaml → Bool
truthy null = false
truthy (bool b) = b
truthy (int (pos n)) = not (nat_beq n 0)
truthy (int (negsuc n)) = true
truthy (text s) = not (s == "")
truthy (list nil) = false
truthy (list (item v vs)) = true
truthy (dict end) = false
truthy (dict (field k v fs)) = true

abbrev pub size : Fields → ℕ
size end = 0
size (field k v fs) = suc (size fs)

-- a bool counts as the integer 0 or 1
abbrev as_number : Yaml → Option ℤ
as_number (bool true) = some (pos 1)
as_number (bool false) = some (pos 0)
as_number (int n) = some n
as_number _ = none

abbrev pub int_eq : ℤ → ℤ → Bool
int_eq (pos a) (pos b) = nat_beq a b
int_eq (negsuc a) (negsuc b) = nat_beq a b
int_eq _ _ = false

abbrev number_eq : Option ℤ → Option ℤ → Bool
number_eq (some a) (some b) = int_eq a b
number_eq _ _ = false

-- `a == b`: mappings compare without regard to the order of their keys.
unfoldable mutual
  pub yaml_eq : Yaml → Yaml → Bool
  yaml_eq null b = elim b [ null ↦ true | _ ↦ false ]
  yaml_eq (bool x) b = number_eq (as_number (bool x)) (as_number b)
  yaml_eq (int x) b = number_eq (some x) (as_number b)
  yaml_eq (text s) b = elim b [ text t ↦ s == t | _ ↦ false ]
  yaml_eq (list xs) b = elim b [ list ys ↦ items_eq xs (elements ys) | _ ↦ false ]
  yaml_eq (dict fs) b = elim b [ dict gs ↦ nat_beq (size fs) (size gs) && within fs gs | _ ↦ false ]

  pub items_eq : Items → List Yaml → Bool
  items_eq nil ys = elim ys [ [] ↦ true | _ ↦ false ]
  items_eq (item x xs) ys = elim ys [ [] ↦ false | y ∷ ys' ↦ yaml_eq x y && items_eq xs ys' ]

  pub within : Fields → Fields → Bool
  within end gs = true
  within (field k v fs) gs = elim (find k gs) [
    | none ↦ false
    | some w ↦ yaml_eq v w && within fs gs
  ]

-- a list or a mapping cannot be an element of a set
abbrev pub hashable : Yaml → Bool
hashable (list vs) = false
hashable (dict fs) = false
hashable _ = true
