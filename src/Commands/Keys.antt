-- ===== src/Commands/Keys.antt =====
-- `normalizeEthKey` of utils/robust.js, for any function that lowers the case of a text.
use rainbow_bridge.Prelude.{String, starts_with, if◌then◌else◌}
use Prim.Native.String.{◌++◌}

unfoldable pub normalize_eth_key : (String → String) → String → String
normalize_eth_key to_lower_case key =
    let result = to_lower_case key in if starts_with result "0x" then result else "0x" ++ result
