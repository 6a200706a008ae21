-- ===== src/Config.antt =====
-- `RainbowConfig` of utils/config/index.js. Its three tables are association lists; the change of case of
-- change-case, the environment and the file's library are parameters or part of the state. Values are
-- texts.
pub mod Precedence
pub mod Saved
mod Tests
use rainbow_bridge.Prelude.{
  ℕ, String, Bool, true, false, Option, none, some, List, [], ◌∷◌, str_eq, if◌then◌else◌,
}
use rainbow_bridge.Prelude.Js.{JsError, Result, ok, err, error}

-- Where a value comes from.
pub data ParamType : Type 0 where
  env arg config default : ParamType

pub record ParamValue : Type 0 where
  pub value : String
  pub param_type : ParamType

-- A default of `none` is `null`.
pub record Declaration : Type 0 where
  pub description : String
  pub default_value : Option String
  pub no_config : Bool

module _ {A : Type 0} where
  unfoldable pub find : List (String × A) → String → Option A
  find [] name = none
  find ((n, a) ∷ entries) name = if str_eq n name then some a else find entries name

  -- `table[name] = a`.
  unfoldable pub put : List (String × A) → String → A → List (String × A)
  put [] name a = (name, a) ∷ []
  put ((n, old) ∷ entries) name a =
      let rest = put entries name a in if str_eq n name then (n, a) ∷ entries else (n, old) ∷ rest

pub record RainbowConfig : Type 0 where
  pub param_values : List (String × ParamValue)
  pub param_declarations : List (String × Declaration)
  pub config_file : List (String × String)

-- A text that counts as true; the empty one does not.
abbrev pub truthy_text : Option String → Option String
truthy_text none = none
truthy_text (some text) = if str_eq text "" then none else some text

-- change-case, and `process.env`.
pub record Host : Type 0 where
  pub camel_case : String → String
  pub constant_case : String → String
  pub environment : String → Option String

unfoldable pub declare_option :
    RainbowConfig → String → String → Option String → Bool → RainbowConfig
declare_option c name description default_value no_config = record c {
  param_declarations =
      put c.param_declarations name (record {
        description = description;
        default_value = default_value;
        no_config = no_config;
      });
}

module _ (host : Host) where
  -- The chain of `if`s in `_processArg`; `none` is the exit at its end.
  unfoldable pub choose : RainbowConfig → String → Option String → Option String → Option ParamValue
  choose c name value previous = elim (truthy_text (host.environment (host.constant_case name))) [
    | some v ↦ some (record { value = v; param_type = env })
    | none ↦ elim (truthy_text value) [
      | some v ↦ some (record { value = v; param_type = arg })
      | none ↦ elim (find c.config_file (host.camel_case name)) [
        | some v ↦ some (record { value = v; param_type = config })
        | none ↦ elim (truthy_text previous) [
          | some v ↦ some (record { value = v; param_type = default })
          | none ↦ none
        ]
      ]
    ]
  ]

  -- `none` leaves the process, as for a parameter that has a value already.
  unfoldable pub process_arg :
      RainbowConfig → String → Option String → Option String → Option (String × RainbowConfig)
  process_arg c name value previous = elim (find c.param_values name) [
    | some old ↦ none
    | none ↦ elim (choose c name value previous) [
      | none ↦ none
      | some v ↦ some (v.value, record c { param_values = put c.param_values name v })
    ]
  ]

  abbrev pub declared : Option Declaration → Option String
  declared none = none
  declared (some d) = d.default_value

  unfoldable pub maybe_get_param : RainbowConfig → String → Option String
  maybe_get_param c name = elim (find c.param_values name) [
    | some v ↦ some v.value
    | none ↦ elim (find c.config_file (host.camel_case name)) [
      | some v ↦ some v
      | none ↦ declared (find c.param_declarations name)
    ]
  ]

  abbrev pub or_throw : Option String → Result String
  or_throw none = err (error "Parameter must be specified.")
  or_throw (some v) = ok v

  unfoldable pub get_param : RainbowConfig → String → Result String
  get_param c name = or_throw (maybe_get_param c name)

  unfoldable pub set_param : RainbowConfig → String → String → RainbowConfig
  set_param c name value = record c {
    param_values = put c.param_values name (record { value = value; param_type = config });
  }

  -- The loop of `saveConfig`, over the parameters.
  unfoldable pub save_values :
      List (String × ParamValue) → List (String × String) → List (String × String)
  save_values [] file = file
  save_values ((name, v) ∷ entries) file =
      save_values entries (put file (host.camel_case name) v.value)

  unfoldable pub save_config : RainbowConfig → RainbowConfig
  save_config c = record c { config_file = save_values c.param_values c.config_file }
