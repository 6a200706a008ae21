-- ===== src/Commands/Status.antt =====
-- cli/commands/status.js: what the command finds out, and the lines that it prints. Numbers and parsed
-- values are given as the texts that they are printed as; an argument that is missing is `none`.
pub mod Near
pub mod Eth
pub mod Services
pub mod Print
pub mod Missing
use rainbow_bridge.Prelude.{String, Bool, true, false, Option, none, some, str_eq, if◌then◌else◌}

pub data Verdict : Type 0 where
  ok info warn error : Verdict

pub record Status : Type 0 where
  pub value : String
  pub verdict : Verdict
  pub explanation : Option String

abbrev pub running : String
running = "running"

abbrev pub valid : String
valid = "valid"

abbrev pub deployed : String
deployed = "deployed"

abbrev pub unknown : String
unknown = "unknown"

abbrev pub unreachable : String
unreachable = "unreachable"

abbrev pub invalid : String
invalid = "invalid"

abbrev pub not_verified : String
not_verified = "not verified"

abbrev pub using_master : String
using_master = "using data from master account"

abbrev pub record_not_found : String
record_not_found = "record not found"

abbrev pub abi_not_found : String
abi_not_found = "abi not found"

abbrev pub contract_not_found : String
contract_not_found = "contract not found"

abbrev pub internal_error : String
internal_error = "internal error"

-- `new Status(value, verdict, explanation)`.
abbrev pub status : String → Verdict → String → Status
status v verdict e = record { value = v; verdict = verdict; explanation = some e }

-- `new Status(value, verdict)`.
abbrev pub plain_status : String → Verdict → Status
plain_status v verdict = record { value = v; verdict = verdict; explanation = none }

-- `new Status(Unknown)`.
abbrev pub unknown_status : Status
unknown_status = plain_status unknown Verdict.error

-- A text that is a condition: a missing and an empty one are false.
unfoldable pub given : Option String → Option String
given none = none
given (some text) = if str_eq text "" then none else some text
