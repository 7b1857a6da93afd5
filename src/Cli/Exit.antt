-- ===== src/Cli/Exit.antt =====
-- The exit code of run.py, and the instances that a failing one leaves untouched.
use sql_observability.Base.{
  ◌≡◌, refl, ap, subst, ◌⊎◌, inl, inr, ℕ, Bool, true, Option, none, some, List, [], ◌∷◌, All, arith,
  if◌then◌else◌, Bool-cases, Option-cases,
}
use sql_observability.Py.Errors.{
  ok_inj, Result, ok, err, is_ok, config_error, not_a_mapping, >>=-eq-ok, >>-eq-ok,
}
use sql_observability.Py.Yaml.{Yaml, dict, null, Fields, find, has, get_or, subscript, elements}
use sql_observability.Db.Server.{World, Server, roll_back, ◌>>=◌}
use sql_observability.Config.{required_instance_keys, load_config, validate_config}
use sql_observability.Config.Shape.{IsMappingWith, IsConfig}
use sql_observability.Config.Soundness.{validate_config-IsConfig}
use sql_observability.Tasks.Registry.{Task}
use sql_observability.Cli.{Outside, try_instance, each_instance, main}

module _ (w : World) (o : Outside) (config : Fields) (t : Task) (dry_run : Bool) where
  -- Every instance's turn comes, each on the server that the one before left behind, and each
  -- returns.
  abbrev pub IsAllDone : List Yaml → Server → Type 0
  IsAllDone [] s = Unit
  IsAllDone (dict fs ∷ rest) s =
      (is_ok (try_instance w o config t dry_run fs (get_or fs "name" null) s).0 ≡ true)
      × IsAllDone rest
          (roll_back (try_instance w o config t dry_run fs (get_or fs "name" null) s).1)
  IsAllDone (v ∷ rest) s = ⊥

  pub each_instance-cons :
      (fs : Fields) (rest : List Yaml) (exit_code : ℕ) (s : Server)
      → has fs "name" ≡ true
      → each_instance w o config t dry_run (dict fs ∷ rest) exit_code s
        ≡ each_instance w o config t dry_run rest
            (if is_ok (try_instance w o config t dry_run fs (get_or fs "name" null) s).0
              then exit_code
              else 1)
            (roll_back (try_instance w o config t dry_run fs (get_or fs "name" null) s).1)
  unfolding each_instance
  each_instance-cons fs rest exit_code s h = elim (Option-cases (find "name" fs)) [
    | inl missing ↦ absurd (ground (arith, missing, h))
    | inr (v, there) ↦
        let named : v ≡ get_or fs "name" null = rw (get_or, there) refl in
        rw (each_instance, there)
          (ap
            (λ n.
              each_instance w o config t dry_run rest
                (if is_ok (try_instance w o config t dry_run fs n s).0 then exit_code else 1)
                (roll_back (try_instance w o config t dry_run fs n s).1))
            named)
  ]

  -- Once an instance has failed, the exit code is 1.
  each_instance_failed :
      (vs : List Yaml) (s : Server)
      → All (IsMappingWith required_instance_keys) vs
      → (each_instance w o config t dry_run vs 1 s).0 ≡ ok 1
  unfolding each_instance
  each_instance_failed [] s h = refl
  each_instance_failed (dict fs ∷ rest) s h =
      let attempt = try_instance w o config t dry_run fs (get_or fs "name" null) s in
      rw (each_instance-cons fs rest 1 s h.0.0) (elim (Bool-cases (is_ok attempt.0)) [
        | inl done ↦ rw done (each_instance_failed rest _ h.1)
        | inr failed ↦ rw failed (each_instance_failed rest _ h.1)
      ])
  each_instance_failed (v ∷ rest) s h = absurd (h.0)

  -- For entries with the required keys, the loop ends with exit code 0 if every instance's turn
  -- ends without an exception, and with 1 otherwise.
  pub each_instance-exit :
      (vs : List Yaml) (s : Server)
      → All (IsMappingWith required_instance_keys) vs
      → (((each_instance w o config t dry_run vs 0 s).0 ≡ ok 0) × IsAllDone vs s)
        ⊎ (((each_instance w o config t dry_run vs 0 s).0 ≡ ok 1) × ¬ IsAllDone vs s)
  unfolding each_instance
  each_instance-exit [] s h = inl (refl, tt)
  each_instance-exit (dict fs ∷ rest) s h =
      let attempt = try_instance w o config t dry_run fs (get_or fs "name" null) s in
      rw (each_instance-cons fs rest 0 s h.0.0) (elim (Bool-cases (is_ok attempt.0)) [
        | inl done ↦ rw done (elim (each_instance-exit rest (roll_back attempt.1) h.1) [
          | inl (e, all_done) ↦ inl (e, (refl, all_done))
          | inr (e, not_done) ↦ inr (e, λ d. not_done d.1)
        ])
        | inr failed ↦
            rw failed (inr (each_instance_failed rest (roll_back attempt.1) h.1, λ d. absurd (cc)))
      ])
  each_instance-exit (v ∷ rest) s h = absurd (h.0)

pub load_config-IsConfig :
    (file : Option (Result Yaml)) (config : Fields) → load_config file ≡ ok config → IsConfig config
unfolding load_config
load_config-IsConfig none config h = absurd (cc)
load_config-IsConfig (some parsed) config h =
    let (data', e, h1) = >>=-eq-ok parsed _ h in
    let (fs, e2, h2) =
      >>=-eq-ok (elim data' [ dict f ↦ ok f | _ ↦ err (config_error not_a_mapping) ]) _ h1 in
    let (valid, h3) = >>-eq-ok (validate_config fs) _ h2 in
    subst IsConfig (ok_inj h3) (validate_config-IsConfig fs valid)

-- If the configuration loads, the program ends by itself, with exit code 0 or 1.
pub main-exit :
    (w : World) (o : Outside) (file : Option (Result Yaml)) (t : Task) (dry_run : Bool) (s : Server)
    (config : Fields)
    → load_config file ≡ ok config
    → ((main w o file t dry_run s).0 ≡ ok 0) ⊎ ((main w o file t dry_run s).0 ≡ ok 1)
unfolding main ◌>>=◌
main-exit w o file t dry_run s config loaded =
    let c = load_config-IsConfig file config loaded in
    rw (loaded, subscript, c.instances_at)
      (elim (each_instance-exit w o config t dry_run (elements c.instances) s c.instance_keys) [
        | inl (e, all_done) ↦ inl e
        | inr (e, not_done) ↦ inr e
      ])
