-- ===== src/Py/Errors.antt =====
-- Exceptions as values. `ConfigError` of src/config.py carries its message as data.
use sql_observability.Base.{ℕ, ◌≡◌, refl, ◌⊎◌, inl, inr, String, Bool, true, false, List, [], ◌∷◌}

-- The messages of `ConfigError`.
pub data ConfigProblem : Type 0 where
  file_not_found not_a_mapping : ConfigProblem
  missing_top_level : List String → ConfigProblem
  repository_not_a_mapping : ConfigProblem
  missing_repository : List String → ConfigProblem
  instances_not_a_list : ConfigProblem
  instance_not_a_mapping : ℕ → ConfigProblem
  missing_instance : ℕ → List String → ConfigProblem
  duplicate_names : ConfigProblem
  tasks_not_a_mapping : ConfigProblem
  task_not_a_mapping : String → ConfigProblem
  missing_task : String → List String → ConfigProblem

pub data Error : Type 0 where
  key_error : String → Error
  config_error : ConfigProblem → Error
  type_error value_error attribute_error index_error : Error
  -- raised by the database driver, with its message
  driver_error : String → Error

pub data Result {ℓ} (A : Type ℓ) : Type ℓ where
  err : Error → Result A
  ok : A → Result A

-- A call that returns nothing, or raises.
abbrev pub Check : Type 0
Check = Result (Unit {0})

infixl 5 ◌>>=◌ ◌>>◌
abbrev pub ◌>>=◌ {ℓ κ} : {A : Type ℓ} {B : Type κ} → Result A → (A → Result B) → Result B
err raised >>= next = err raised
ok value >>= next = next value

abbrev pub ◌>>◌ {ℓ} : {B : Type ℓ} → Check → Result B → Result B
check >> next = check >>= λ _. next

-- `if bad: raise e`
abbrev pub raise_if : Bool → Error → Check
raise_if true e = err e
raise_if false e = ok tt

pub >>=-eq-ok {ℓ κ} :
    {A : Type ℓ} {B : Type κ} (first : Result A) (next : A → Result B) {final : B}
    → (first >>= next) ≡ ok final
    → (value : A) × (first ≡ ok value) × (next value ≡ ok final)
>>=-eq-ok (err raised) next h = absurd (cc)
>>=-eq-ok (ok value) next h = (value, refl, h)

pub ok_inj {ℓ} : {A : Type ℓ} {a b : A} → ok a ≡ ok b → a ≡ b
ok_inj h = cc

abbrev pub is_ok {ℓ} : {A : Type ℓ} → Result A → Bool
is_ok (ok a) = true
is_ok (err e) = false

-- A list comprehension whose element expression may raise.
abbrev pub traverse {ℓ κ} : {A : Type ℓ} {B : Type κ} → (A → Result B) → List A → Result (List B)
traverse f [] = ok []
traverse f (x ∷ xs) = do y ← f x; ys ← traverse f xs; ok (y ∷ ys)

pub Result-cases {ℓ} :
    {A : Type ℓ} (r : Result A) → ((a : A) × (r ≡ ok a)) ⊎ ((e : Error) × (r ≡ err e))
Result-cases (ok a) = inl (a, refl)
Result-cases (err e) = inr (e, refl)

pub >>-eq-ok {ℓ} :
    {B : Type ℓ} (m : Check) (k : Result B) {b : B} → (m >> k) ≡ ok b → (m ≡ ok tt) × (k ≡ ok b)
>>-eq-ok (ok u) k h = (refl, h)
>>-eq-ok (err e) k h = (cc, cc)
