-- ===== src/Prelude/Js.antt =====
-- JavaScript errors, and the outcome of a call that may throw.
use Prim.Native.Nat.{◌-◌}
use Prim.Native.String.{String, ◌++◌, len, slice}
use mathlib.Core.Path.{◌≡◌, refl}
use mathlib.Core.Logic.{◌⊎◌, inl, inr}
use mathlib.Core.Bool.{Bool, true, false}
use mathlib.Core.Option.{none, some}
use text.Mathlib.Text.{◌==◌ as str_eq, find?}
use rainbow_bridge.Prelude.Tests.{if◌then◌else◌}

-- An `Error` object: its class's name and its message.
pub record JsError : Type 0 where
  pub name : String
  pub message : String

-- `new Error(message)`.
abbrev pub error : String → JsError
error m = record { name = "Error"; message = m }

abbrev pub type_error : String → JsError
type_error m = record { name = "TypeError"; message = m }

-- `e.toString()`.
unfoldable pub to_string : JsError → String
to_string e =
    if str_eq e.message ""
    then e.name
    else if str_eq e.name ""
    then e.message
    else e.name ++ ": " ++ e.message

-- `text.includes(piece)`, and `text.indexOf(piece) >= 0`.
unfoldable pub includes : String → String → Bool
includes text piece = elim (find? text piece) [ none ↦ false | some i ↦ true ]

-- `text.endsWith(piece)`.
unfoldable pub ends_with : String → String → Bool
ends_with text piece = str_eq (slice text (len text - len piece) (len text)) piece

pub data Result {ℓ} (A : Type ℓ) : Type ℓ where
  ok : A → Result A
  err : JsError → Result A

infixl 5 ◌>>=◌ ◌>>◌
abbrev pub ◌>>=◌ {ℓ κ} : {A : Type ℓ} {B : Type κ} → Result A → (A → Result B) → Result B
ok a >>= f = f a
err e >>= f = err e

abbrev pub ◌>>◌ {ℓ κ} : {A : Type ℓ} {B : Type κ} → Result A → Result B → Result B
m >> k = m >>= λ _. k

pub Result-cases {ℓ} :
    {A : Type ℓ} (r : Result A) → ((a : A) × (r ≡ ok a)) ⊎ ((e : JsError) × (r ≡ err e))
Result-cases (ok a) = inl (a, refl)
Result-cases (err e) = inr (e, refl)

pub ok_inj : {A : Type 0} (a b : A) → Path (Result A) (ok a) (ok b) → a ≡ b
ok_inj a b h = cc
