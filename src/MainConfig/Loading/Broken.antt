-- ===== src/MainConfig/Loading/Broken.antt =====
-- MainConfig.py, `read_yaml_config`: the entries of `_yaml_keys` whose target is a dictionary.
use mathlib.Core.Path.{subst}
use free_tak_server.Base.{
  sym, ◌≡◌, ◌≢◌, refl, inl, inr, String, Bool, true, Option, none, some, [], ◌∷◌, ◌==◌, eq_iff,
  arith, Bool-cases, Option-cases, Outcome-cases, returns, raised,
}
use free_tak_server.Base.Dict.{Dict, lookup}
use free_tak_server.MainConfig.Values.{Ty, Value, Settings, Values}
use free_tak_server.MainConfig.Keys.{Target, inline, _yaml_keys}
use free_tak_server.MainConfig.Tables.{Host, _defaults}
use free_tak_server.MainConfig.Loading.{
  Load, then_load, yaml_value, set_target, read_attr, read_section, read_sections, read_yaml_config,
  sections, Os, Config, config_path, overlay, configure, preload, load, instance, reset,
}

-- The call raises an exception.
abbrev Fails : Load → Type 0
Fails l = l.1 ≢ returns tt

then_load-Fails_first : (l : Load) (next : Values → Load) → Fails l → Fails (then_load l next)
then_load-Fails_first (vs, returns u) next h done = h refl
then_load-Fails_first (vs, raised e) next h done = h done

then_load-Fails :
    (l : Load) (next : Values → Load) → ((vs : Values) → Fails (next vs)) → Fails (then_load l next)
then_load-Fails (vs, returns u) next h done = h vs done
then_load-Fails (vs, raised e) next h done = ground (arith, done)

module _ (defaults : Settings) (access : String → Bool) where
  read_inline-Fails :
      (attr : String) (d : Value) (t : Ty) (value : Value) (vs : Values)
      → Fails (read_attr defaults access attr (inline d t) value vs)
  unfolding read_attr set_target
  read_inline-Fails attr d t value vs done = elim (Outcome-cases (yaml_value access attr value)) [
    | inr (e, bad) ↦ ground (arith, bad, done)
    | inl (v, good) ↦ ground (arith, good, done)
  ]

  read_here-Fails :
      (given : Dict Value) (attr : String) (target : Target) (d : Value) (t : Ty) (value : Value)
      (rest : Dict Target) (vs : Values)
      → lookup attr given ≡ some value
      → target ≡ inline d t
      → Fails (read_section defaults access given ((attr, target) ∷ rest) vs)
  unfolding read_section
  read_here-Fails given attr target d t value rest vs present broken =
      rw (read_section, present)
        (then_load-Fails_first (read_attr defaults access attr target value vs)
          (λ after. read_section defaults access given rest after)
          (subst (λ x. Fails (read_attr defaults access attr x value vs)) (sym broken)
            (read_inline-Fails attr d t value vs)))

  read_section-Fails :
      (given : Dict Value) (attr : String) (d : Value) (t : Ty) (value : Value)
      → lookup attr given ≡ some value
      → (attrs : Dict Target) (vs : Values) → lookup attr attrs ≡ some (inline d t)
      → Fails (read_section defaults access given attrs vs)
  unfolding read_section lookup
  read_section-Fails given attr d t value present [] vs here = λ done. ground (arith, here)
  read_section-Fails given attr d t value present ((j, target) ∷ rest) vs here =
      elim (Bool-cases (j == attr)) [
        | inl same ↦
            read_here-Fails given j target d t value rest vs
              (ground (arith, present, eq_iff j attr, same)) (ground (arith, here, same))
        | inr other ↦ elim (Option-cases (lookup j given)) [
          | inl missing ↦
              rw (read_section, missing)
                (read_section-Fails given attr d t value present rest vs
                  (ground (arith, here, other)))
          | inr (v, found) ↦
              rw (read_section, found)
                (then_load-Fails (read_attr defaults access j target v vs)
                  (λ after. read_section defaults access given rest after)
                  (λ after.
                    read_section-Fails given attr d t value present rest after
                      (ground (arith, here, other))))
        ]
      ]

  read_sections-Fails :
      (given : Dict (Option (Dict Value))) (sect : String) (section : Dict Value)
      (attrs : Dict Target) (attr : String) (d : Value) (t : Ty) (value : Value)
      → lookup sect given ≡ some (some section)
      → lookup attr section ≡ some value
      → lookup attr attrs ≡ some (inline d t)
      → (keys : Dict (Dict Target)) (vs : Values) → lookup sect keys ≡ some attrs
      → Fails (read_sections defaults access given keys vs)
  unfolding read_sections lookup
  read_sections-Fails given sect section attrs attr d t value there present broken [] vs here =
      λ done. ground (arith, here)
  read_sections-Fails given sect section attrs attr d t value there present broken
        ((j, first) ∷ rest) vs here =
      elim (Bool-cases (j == sect)) [
        | inl same ↦
            rw (read_sections, there_at j same)
              (then_load-Fails_first (read_section defaults access section first vs)
                (λ after. read_sections defaults access given rest after)
                (read_section-Fails section attr d t value present first vs
                  (ground (arith, here, same, broken))))
        | inr other ↦
            let later : (after : Values) → Fails (read_sections defaults access given rest after) =
              λ after.
                read_sections-Fails given sect section attrs attr d t value there present broken
                  rest after (ground (arith, here, other)) in
            elim (Option-cases (lookup j given)) [
              | inl missing ↦ rw (read_sections, missing) (later vs)
              | inr (none, found) ↦ rw (read_sections, found) (later vs)
              | inr (some given_here, found) ↦
                  rw (read_sections, found)
                    (then_load-Fails (read_section defaults access given_here first vs)
                      (λ after. read_sections defaults access given rest after) later)
            ]
      ]
    where
      there_at : (k : String) → (k == sect) ≡ true → lookup k given ≡ some (some section)
      there_at k same = ground (arith, there, eq_iff k sect, same)

-- Where a file exists, parses, and gives a value to an entry of `_yaml_keys` whose target is a
-- dictionary, the first call of `instance` raises an exception.
pub instance_fails :
    (host : Host) (os : Os) (config_file : Option String) (c : Config)
    (given : Dict (Option (Dict Value))) (sect : String) (section : Dict Value)
    (attrs : Dict Target) (attr : String) (d : Value) (t : Ty) (value : Value)
    → os.exists (config_path host os config_file) ≡ true
    → os.yaml (config_path host os config_file) ≡ returns (sections given)
    → lookup sect given ≡ some (some section)
    → lookup attr section ≡ some value
    → lookup sect _yaml_keys ≡ some attrs
    → lookup attr attrs ≡ some (inline d t)
    → (instance host os config_file (reset c)).1 ≢ returns tt
unfolding instance load configure overlay read_yaml_config
instance_fails host os config_file c given sect section attrs attr d t value there parsed in_file
      present keyed broken =
    then_load-Fails (preload (_defaults host) (_defaults host) []) (configure host os config_file)
      (λ vs. then_load-Fails_first (overlay host os config_file vs) _ (
        rw (overlay, there, read_yaml_config, parsed)
          (read_sections-Fails (_defaults host) (os.access) given sect section attrs attr d t value
            in_file present broken _yaml_keys vs keyed)))
