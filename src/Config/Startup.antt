-- ===== src/Config/Startup.antt =====
-- What the checks of the environment at startup let through (src/config/env.validation.ts).
use zk_api.Common.{
  ◌≡◌, refl, sym, ◌∙◌, if◌then◌else◌, ◌⊎◌, inl, inr, ◌↔◌, Bool, true, false, not, Option, some,
  List, [], ◌∷◌, ◌++◌, map, arith, filter, any, All, Bool-cases,
}
use zk_api.Common.Exec.{Result, ok, err}
use zk_api.Common.Text.{Text}
use zk_api.Config.{
  Env, is_set, prod, profile, find_placeholders, is_placeholder, split, sort, insert_name,
  prod_required, prod_refused, key_material_env, missing, refused, placeholders, push_unless_empty,
  StartupError, key_material, keys_outside_enclave_allowed, assert_no_key_material_in_env,
  profile_errors, validate_environment,
}

module _ {A : Type 0} (p : A → Bool) where
  filter_none : (xs : List A) → filter p xs ≡ [] → All (λ x. p x ≡ false) xs
  filter_none [] h = tt
  filter_none (x ∷ xs) h = elim (Bool-cases (p x)) [
    | inl e ↦ ground (arith, h, e)
    | inr e ↦ (e, filter_none xs (ground (arith, h, e)))
  ]

  none_filter : (xs : List A) → All (λ x. p x ≡ false) xs → filter p xs ≡ []
  none_filter [] h = refl
  none_filter (x ∷ xs) h = ground (arith, h.0, none_filter xs h.1)

insert_nonempty : (n : Text) (ns : List Text) → insert_name n ns ≡ [] → ⊥
insert_nonempty n [] h = ground arith
insert_nonempty n (m ∷ ns) h = ground arith

sort_nil : (ns : List Text) → sort ns ≡ [] → ns ≡ []
sort_nil [] h = refl
sort_nil (n ∷ ns) h = absurd (insert_nonempty n (sort ns) h)

map_nil : {A B : Type 0} (f : A → B) (xs : List A) → map f xs ≡ [] → xs ≡ []
map_nil f [] h = refl
map_nil f (x ∷ xs) h = ground arith

pushed_nothing :
    (ms rs ps : List Text)
    → push_unless_empty missing ms
        ++ push_unless_empty refused rs
        ++ push_unless_empty placeholders ps
      ≡ []
    → (ms ≡ []) × (rs ≡ []) × (ps ≡ [])
pushed_nothing [] [] [] h = (refl, refl, refl)
pushed_nothing [] [] (p ∷ ps) h = ground arith
pushed_nothing [] (r ∷ rs) ps h = ground arith
pushed_nothing (m ∷ ms) rs ps h = ground arith

ok_inj : {E A : Type 0} {a b : A} → Path (Result E A) (ok a) (ok b) → a ≡ b
ok_inj h = ground arith

-- What production asks of its environment.
pub record IsEnclosed (hostname_of : Text → Option Text) (env : Env) : Type 0 where
  pub required_set : All (λ name. not (is_set env name) ≡ false) prod_required
  pub local_unset : All (λ name. is_set env name ≡ false) prod_refused
  pub real_values : All (λ entry. any (is_placeholder hostname_of) (split b',' entry.1) ≡ false) env
  pub keys_inside :
      (keys_outside_enclave_allowed env ≡ true)
      ⊎ All (λ name. is_set env name ≡ false) key_material_env

module _ (hostname_of : Text → Option Text) (env : Env) (h : profile env ≡ some prod) where
  errors_of_prod :
      profile_errors hostname_of env
      ≡ ok (
          push_unless_empty missing (filter (λ name. not (is_set env name)) prod_required)
          ++ push_unless_empty refused (filter (is_set env) prod_refused)
          ++ push_unless_empty placeholders (find_placeholders hostname_of env))
  unfolding profile_errors
  errors_of_prod = rw (h, profile_errors) refl

  inside_of_prod : assert_no_key_material_in_env env ≡ (
      if keys_outside_enclave_allowed env
      then ok tt
      else elim (filter (is_set env) key_material_env) [
        | [] ↦ ok tt
        | n ∷ ns ↦ err (key_material (n ∷ ns))
      ])
  unfolding assert_no_key_material_in_env keys_outside_enclave_allowed
  inside_of_prod = rw (h, assert_no_key_material_in_env) refl

  no_problems :
      profile_errors hostname_of env ≡ ok []
      → (filter (λ name. not (is_set env name)) prod_required ≡ [])
        × (filter (is_set env) prod_refused ≡ [])
        × (find_placeholders hostname_of env ≡ [])
  no_problems e = pushed_nothing _ _ _ (ok_inj (sym errors_of_prod ∙ e))

  keys_inside_of :
      assert_no_key_material_in_env env ≡ ok tt
      → (keys_outside_enclave_allowed env ≡ true)
        ⊎ All (λ name. is_set env name ≡ false) key_material_env
  keys_inside_of e = elim (Bool-cases (keys_outside_enclave_allowed env)) [
    | inl allowed ↦ inl allowed
    | inr shut ↦
        inr (filter_none (is_set env) key_material_env (kept _ (sym (refused_eq shut) ∙ e)))
  ]
    where
      kept :
          (ns : List Text)
          → Path
              (Result StartupError (Unit {0}))
              (elim ns [ [] ↦ ok tt | m ∷ ms ↦ err (key_material (m ∷ ms)) ])
              (ok tt)
          → ns ≡ []
      kept [] q = refl
      kept (n ∷ ns) q = ground arith

      refused_eq :
          keys_outside_enclave_allowed env ≡ false
          → assert_no_key_material_in_env env ≡ elim (filter (is_set env) key_material_env) [
            | [] ↦ ok tt
            | n ∷ ns ↦ err (key_material (n ∷ ns))
          ]
      refused_eq r = inside_of_prod ∙ rw (r) refl

  module _ (schema : Env → List Text) where
    -- Past the profile and the key material.
    validated :
        (env' : Env)
        → validate_environment hostname_of schema env ≡ ok env'
        → (profile_errors hostname_of env ≡ ok [])
          × (assert_no_key_material_in_env env ≡ ok tt)
          × (schema env ≡ [])
          × (env' ≡ env)
    unfolding validate_environment
    validated env' e = ground arith

enclosed_errors :
    (hostname_of : Text → Option Text) (env : Env)
    → profile env ≡ some prod
    → IsEnclosed hostname_of env
    → profile_errors hostname_of env ≡ ok []
unfolding find_placeholders
enclosed_errors hostname_of env h i =
    errors_of_prod hostname_of env h
    ∙ rw (none_filter (λ name. not (is_set env name)) prod_required i.required_set) (
        rw (none_filter (is_set env) prod_refused i.local_unset) (
          rw
            (none_filter (λ entry. any (is_placeholder hostname_of) (split b',' entry.1)) env
              i.real_values)
            refl))

enclosed_inside :
    (hostname_of : Text → Option Text) (env : Env)
    → profile env ≡ some prod
    → IsEnclosed hostname_of env
    → assert_no_key_material_in_env env ≡ ok tt
enclosed_inside hostname_of env h i = inside_of_prod hostname_of env h ∙ elim i.keys_inside [
  | inl allowed ↦ rw (allowed) refl
  | inr unset ↦
      rw (none_filter (is_set env) key_material_env unset)
        (either (keys_outside_enclave_allowed env))
]
  where
    either : (b : Bool) → Path (Result StartupError (Unit {0})) (if b then ok tt else ok tt) (ok tt)
    either true = refl
    either false = refl

-- In production, with no errors of class-validator, the environment is accepted exactly where both the
-- RPCs and the contract are set, none of the local settings is, no item of a value is a placeholder, and
-- no key material is set unless ALLOW_KEYS_OUTSIDE_ENCLAVE is true.
pub validate_environment-IsEnclosed :
    (hostname_of : Text → Option Text) (schema : Env → List Text) (env : Env)
    → profile env ≡ some prod
    → schema env ≡ []
    → (validate_environment hostname_of schema env ≡ ok env) ↔ IsEnclosed hostname_of env
unfolding find_placeholders validate_environment
validate_environment-IsEnclosed hostname_of schema env h clean = (
  λ e.
      let (problems, inside, clean_schema, same) = validated hostname_of env h schema env e in
      let (a, b, c) = no_problems hostname_of env h problems in
      record {
        required_set = filter_none (λ name. not (is_set env name)) prod_required a;
        local_unset = filter_none (is_set env) prod_refused b;
        real_values =
            filter_none (λ entry. any (is_placeholder hostname_of) (split b',' entry.1)) env
              (map_nil (λ entry. entry.0) _ (sort_nil _ c));
        keys_inside = keys_inside_of hostname_of env h inside;
      },
  λ i.
      rw (enclosed_errors hostname_of env h i, validate_environment)
        (rw (enclosed_inside hostname_of env h i) (rw (clean) refl)),
)
