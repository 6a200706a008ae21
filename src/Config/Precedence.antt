-- ===== src/Config/Precedence.antt =====
-- Where the value of a processed argument comes from.
use rainbow_bridge.Prelude.{
  ◌≡◌, refl, ◌∙◌, ◌⊎◌, inl, inr, arith, String, true, Option, none, some, List, [], ◌∷◌, str_eq,
  eq_iff, if◌then◌else◌,
}
use rainbow_bridge.Prelude.Js.{ok}
use rainbow_bridge.Config.{
  ParamValue, env, arg, config, default, find, put, RainbowConfig, truthy_text, Host, choose,
  process_arg, maybe_get_param, get_param,
}

pub find-put :
    {A : Type 0} (entries : List (String × A)) (name other : String) (a : A)
    → find (put entries name a) other ≡ (if str_eq name other then some a else find entries other)
unfolding find put
find-put [] name other a = refl
find-put ((n, old) ∷ entries) name other a =
    ground (arith, find-put entries name other a, eq_iff n name, eq_iff n other, eq_iff name other)

module _ (host : Host) where
  -- What each source says, with the sources before it silent.
  abbrev pub IsFrom : RainbowConfig → String → Option String → Option String → ParamValue → Type 0
  IsFrom c name value previous v =
      ((v.param_type ≡ env)
        × (truthy_text (host.environment (host.constant_case name)) ≡ some v.value))
      ⊎ ((truthy_text (host.environment (host.constant_case name)) ≡ none)
          × (((v.param_type ≡ arg) × (truthy_text value ≡ some v.value))
              ⊎ ((truthy_text value ≡ none)
                  × (((v.param_type ≡ config)
                        × (find c.config_file (host.camel_case name) ≡ some v.value))
                      ⊎ ((find c.config_file (host.camel_case name) ≡ none)
                          × (v.param_type ≡ default)
                          × (truthy_text previous ≡ some v.value))))))

  same_value : (v w : ParamValue) → Path (Option ParamValue) (some v) (some w) → v ≡ w
  same_value v w h = cc

  none-some : {A : Type 0} (a : A) → Path (Option A) none (some a) → ⊥
  none-some a h = cc

  choose-IsFrom :
      (c : RainbowConfig) (name : String) (value previous : Option String) (v : ParamValue)
      → choose host c name value previous ≡ some v
      → IsFrom c name value previous v
  unfolding choose
  choose-IsFrom c name value previous v h =
      go (truthy_text (host.environment (host.constant_case name))) (truthy_text value)
        (find c.config_file (host.camel_case name)) (truthy_text previous) refl refl refl refl h
    where
      go :
          (o1 o2 o3 o4 : Option String)
          → truthy_text (host.environment (host.constant_case name)) ≡ o1
          → truthy_text value ≡ o2
          → find c.config_file (host.camel_case name) ≡ o3
          → truthy_text previous ≡ o4
          → choose host c name value previous ≡ some v
          → IsFrom c name value previous v
      go (some t) o2 o3 o4 a b e d k =
          rw (← same_value (record { value = t; param_type = env }) v (rw (a, choose) at k))
            (inl (refl, a))
      go none (some t) o3 o4 a b e d k =
          rw
            (← same_value (record { value = t; param_type = arg }) v
              (rw b at (rw (a, choose) at k)))
            (inr (a, inl (refl, b)))
      go none none (some t) o4 a b e d k =
          rw
            (← same_value (record { value = t; param_type = config }) v
              (rw e at (rw b at (rw (a, choose) at k))))
            (inr (a, inr (b, inl (refl, e))))
      go none none none (some t) a b e d k =
          rw
            (← same_value (record { value = t; param_type = default }) v
              (rw d at (rw e at (rw b at (rw (a, choose) at k)))))
            (inr (a, inr (b, inr (e, refl, d))))
      go none none none none a b e d k =
          absurd (none-some v (rw d at (rw e at (rw b at (rw (a, choose) at k)))))

  pair_eq :
      (x y : String × RainbowConfig)
      → Path (Option (String × RainbowConfig)) (some x) (some y)
      → x ≡ y
  pair_eq x y h = cc

  -- A processed argument's value is that of the environment, else of the command line, else of the
  -- file, else the default, each if it is not empty (the file's if it is there), and `getParam` gives
  -- this value from then on.
  pub process_arg_lem :
      (c c' : RainbowConfig) (name result : String) (value previous : Option String)
      → process_arg host c name value previous ≡ some (result, c')
      → (v : ParamValue) × (result ≡ v.value)
        × IsFrom c name value previous v
        × (get_param host c' name ≡ ok result)
  unfolding process_arg get_param maybe_get_param
  process_arg_lem c c' name result value previous h =
      go (find c.param_values name) (choose host c name value previous) refl refl
    where
      Goal : Type 0
      Goal =
          (v : ParamValue) × (result ≡ v.value)
          × IsFrom c name value previous v
          × (get_param host c' name ≡ ok result)

      got :
          (v : ParamValue) (x : String × RainbowConfig)
          → (v.value, record c { param_values = put c.param_values name v }) ≡ x
          → choose host c name value previous ≡ some v
          → (x.0 ≡ v.value) × (get_param host x.1 name ≡ ok x.0)
      got v x e b =
          let self : str_eq name name ≡ true = (eq_iff name name).1 refl in
          let there : find (put c.param_values name v) name ≡ some v =
            find-put c.param_values name name v ∙ rw self in
          rw (← e) (refl, rw (there, get_param, maybe_get_param))

      go :
          (o : Option ParamValue) (r : Option ParamValue)
          → find c.param_values name ≡ o
          → choose host c name value previous ≡ r
          → Goal
      go (some old) r a b = absurd (none-some (result, c') (rw (a, process_arg) at h))
      go none none a b = absurd (none-some (result, c') (rw b at (rw (a, process_arg) at h)))
      go none (some v) a b =
          let e = pair_eq _ (result, c') (rw b at (rw (a, process_arg) at h)) in
          let (same, get) = got v (result, c') e b in
          (v, same, choose-IsFrom c name value previous v b, get)
