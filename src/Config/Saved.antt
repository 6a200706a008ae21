-- ===== src/Config/Saved.antt =====
-- Saved parameters are read again.
use rainbow_bridge.Prelude.{
  ◌≡◌, refl, ◌∙◌, inl, inr, String, true, false, Option, some, List, [], ◌∷◌, All, str_eq, eq_iff,
  Bool-cases,
}
use rainbow_bridge.Config.{
  ParamValue, Declaration, find, put, RainbowConfig, Host, maybe_get_param, get_param, save_values,
  save_config,
}
use rainbow_bridge.Config.Precedence.{find-put}

module _ (host : Host) where
  -- No two parameters have the same name in camel case.
  abbrev pub AreDistinct : List (String × ParamValue) → Type 0
  AreDistinct [] = Unit
  AreDistinct ((name, v) ∷ entries) =
      All (λ (e : String × ParamValue). str_eq (host.camel_case e.0) (host.camel_case name) ≡ false)
        entries
      × AreDistinct entries

  -- Parameters of other names leave an entry of the file alone.
  find-save_values_other :
      (entries : List (String × ParamValue)) (file : List (String × String)) (key : String)
      → All (λ (e : String × ParamValue). str_eq (host.camel_case e.0) key ≡ false) entries
      → find (save_values host entries file) key ≡ find file key
  unfolding save_values
  find-save_values_other [] file key h = refl
  find-save_values_other ((name, v) ∷ entries) file key (other, h) =
      find-save_values_other entries (put file (host.camel_case name) v.value) key h
      ∙ find-put file (host.camel_case name) key v.value
      ∙ rw other

  find-save_values :
      (entries : List (String × ParamValue)) (file : List (String × String)) (name : String)
      (v : ParamValue)
      → AreDistinct entries
      → find entries name ≡ some v
      → find (save_values host entries file) (host.camel_case name) ≡ some v.value
  unfolding save_values find
  find-save_values [] file name v h f = cc
  find-save_values ((n, w) ∷ entries) file name v (fresh, h) f = elim (Bool-cases (str_eq n name)) [
    | inr other ↦
        find-save_values entries (put file (host.camel_case n) w.value) name v h (rw other at f)
    | inl same ↦
        let e : n ≡ name = (eq_iff n name).0 same in
        let same_v : w ≡ v = value_eq w v (rw same at f) in
        let self : str_eq (host.camel_case n) (host.camel_case n) ≡ true = (eq_iff _ _).1 refl in
        rw (← e, ← same_v)
          (find-save_values_other entries (put file (host.camel_case n) w.value) (host.camel_case n)
              fresh
            ∙ find-put file (host.camel_case n) (host.camel_case n) w.value
            ∙ rw self)
  ]
    where
      value_eq : (a b : ParamValue) → Path (Option ParamValue) (some a) (some b) → a ≡ b
      value_eq a b h = cc

  own_value :
      (c : RainbowConfig) (name : String) (v : ParamValue)
      → find c.param_values name ≡ some v
      → maybe_get_param host c name ≡ some v.value
  unfolding maybe_get_param
  own_value c name v f = rw (f, maybe_get_param)

  from_file :
      (entries : List (String × ParamValue)) (file : List (String × String))
      (declarations : List (String × Declaration)) (name : String) (v : ParamValue)
      → AreDistinct entries
      → find entries name ≡ some v
      → maybe_get_param host
          (record {
            param_values = [];
            param_declarations = declarations;
            config_file = save_values host entries file;
          })
          name
        ≡ some v.value
  unfolding maybe_get_param find
  from_file entries file declarations name v distinct f =
      rw (find-save_values entries file name v distinct f, maybe_get_param)

  -- A later process, which reads the saved file and has no values of its own yet, gets every
  -- parameter that had a value when the file was saved, wherever the value came from and whatever the
  -- declarations say of the file, where no two names are the same in camel case.
  pub get_param-save_config :
      (c : RainbowConfig) (declarations : List (String × Declaration)) (name : String)
      (v : ParamValue)
      → AreDistinct c.param_values
      → find c.param_values name ≡ some v
      → get_param host
          (record {
            param_values = [];
            param_declarations = declarations;
            config_file = (save_config host c).config_file;
          })
          name
        ≡ get_param host c name
  unfolding get_param save_config
  get_param-save_config c declarations name v distinct f =
      rw (
        from_file c.param_values c.config_file declarations name v distinct f,
        own_value c name v f,
      )
