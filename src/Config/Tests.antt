-- ===== src/Config/Tests.antt =====
-- The theorems about the configuration, at concrete parameters.
use rainbow_bridge.Prelude.{◌≡◌, refl, String, Option, none, some, [], ◌∷◌}
use rainbow_bridge.Prelude.Js.{ok}
use rainbow_bridge.Config.{
  ParamValue, arg, RainbowConfig, Host, find, put, choose, process_arg, get_param, save_config,
}
use rainbow_bridge.Config.Precedence.{IsFrom, process_arg_lem}
use rainbow_bridge.Config.Saved.{get_param-save_config}

abbrev same : String → String
same text = text

abbrev nothing : String → Option String
nothing name = none

abbrev host : Host
host = record { camel_case = same; constant_case = same; environment = nothing }

abbrev initial : RainbowConfig
initial = record { param_values = []; param_declarations = []; config_file = ("url", "old") ∷ [] }

abbrev changed : RainbowConfig
changed = record initial { param_values = ("url", record { value = "new"; param_type = arg }) ∷ [] }

processed : process_arg host initial "url" (some "new") none ≡ some ("new", changed)
unfolding process_arg choose find put
processed = refl

process_arg_lem_example :
    (v : ParamValue) × ("new" ≡ v.value)
    × IsFrom host initial "url" (some "new") none v
    × (get_param host changed "url" ≡ ok "new")
process_arg_lem_example =
    process_arg_lem host initial changed "url" "new" (some "new") none processed

there : find changed.param_values "url" ≡ some (record { value = "new"; param_type = arg })
unfolding find
there = refl

get_param-save_config_example :
    get_param host
      (record {
        param_values = [];
        param_declarations = [];
        config_file = (save_config host changed).config_file;
      })
      "url"
    ≡ get_param host changed "url"
get_param-save_config_example =
    get_param-save_config host changed [] "url" (record { value = "new"; param_type = arg })
      (tt, tt) there
