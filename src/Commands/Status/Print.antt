-- ===== src/Commands/Status/Print.antt =====
-- The lines that the command prints.
use rainbow_bridge.Prelude.{ℕ, zero, suc, String, Option, none, some, ltb, if◌then◌else◌}
use Prim.Native.String.{◌++◌, len}
use rainbow_bridge.Commands.Status.{Status, Verdict, given, status, unknown, record_not_found}

abbrev pub no_color : String
no_color = "\u{1b}[39m"

unfoldable pub color_of : Verdict → String
color_of Verdict.ok = "\u{1b}[32m"
color_of Verdict.info = "\u{1b}[39m"
color_of Verdict.warn = "\u{1b}[33m"
color_of Verdict.error = "\u{1b}[35m"

-- `while (line.length < 50)`, over the rounds.
unfoldable pub pad : ℕ → String → String
pad zero line = line
pad (suc n) line = let rest = pad n (line ++ " ") in if ltb (len line) 50 then rest else line

unfoldable pub header_text : String → String
header_text text = "\u{1b}[33m" ++ text ++ no_color

unfoldable pub explanation_text : Option String → String
explanation_text explanation = elim (given explanation) [ none ↦ "" | some e ↦ "(" ++ e ++ ")" ]

-- The arguments of `console.log` are joined by blanks. Fifty rounds are enough.
unfoldable pub line_of : String → Status → String
line_of field s =
    pad 50 (field ++ ":")
    ++ " "
    ++ (color_of s.verdict ++ s.value)
    ++ " "
    ++ (explanation_text s.explanation ++ no_color)

unfoldable pub line_text : String → Option Status → String
line_text field none = line_of field (status unknown Verdict.error record_not_found)
line_text field (some s) = line_of field s
