-- ===== src/Borsh/Value.antt =====
-- The JavaScript values that `serializeField` and `deserializeField` of utils/borsh.js handle, and
-- the little-endian bytes that the documentation of Borsh prescribes.
use rainbow_bridge.Prelude.{
  ℕ, zero, suc, ◌+◌, ◌*◌, ◌/◌, ◌%◌, ◌^◌, ◌<◌, ◌≡◌, refl, ap, String, Bool, true, false, not, Option,
  none, some, List, [], ◌∷◌, arith, ◌==◌, str_eq, if◌then◌else◌, length,
}
use native.Mathlib.Nat.{pow-suc}
use rainbow_bridge.Prelude.Js.{Result, ok, err, type_error}

-- `num` is a number, `big` a BN, `bytes` a Uint8Array.
mutual
  pub data Value : Type 0 where
    null : Value
    undefined : Value
    bool : Bool → Value
    num : ℕ → Value
    big : ℕ → Value
    str : String → Value
    bytes : List ℕ → Value
    obj : Fields → Value
    arr : Items → Value

  pub data Fields : Type 0 where
    field : String → Value → Fields → Fields
    end : Fields

  pub data Items : Type 0 where
    cons : Value → Items → Items
    nil : Items

abbrev pub count : Items → ℕ
count nil = 0
count (cons v items) = suc (count items)

abbrev pub lookup_field : Fields → String → Option Value
lookup_field end name = none
lookup_field (field n v fs) name = if str_eq n name then some v else lookup_field fs name

-- `result[name] = value`.
abbrev pub set_field : Fields → String → Value → Fields
set_field end name value = field name value end
set_field (field n v fs) name value =
    let rest = set_field fs name value in if str_eq n name then field n value fs else field n v rest

abbrev pub or_undefined : Option Value → Value
or_undefined none = undefined
or_undefined (some v) = v

-- `value[name]`. Names of a schema's fields are no built-in properties of the other values.
abbrev pub get_field : Value → String → Result Value
get_field null name = err (type_error "Cannot read property of null")
get_field undefined name = err (type_error "Cannot read property of undefined")
get_field (obj fs) name = ok (or_undefined (lookup_field fs name))
get_field v name = ok undefined

-- `value.length`; `none` is `undefined`.
abbrev pub get_length : Value → Result (Option ℕ)
get_length null = err (type_error "Cannot read property 'length' of null")
get_length undefined = err (type_error "Cannot read property 'length' of undefined")
get_length (bytes bs) = ok (some (length bs))
get_length (arr items) = ok (some (count items))
get_length v = ok none

-- `value ? 1 : 0` tests this.
abbrev pub truthy : Value → Bool
truthy null = false
truthy undefined = false
truthy (bool b) = b
truthy (num n) = not (n == 0)
truthy (str s) = not (str_eq s "")
truthy v = true

-- `value === null`.
abbrev pub is_null : Value → Bool
is_null null = true
is_null v = false

abbrev pub IsByte : ℕ → Type 0
IsByte b = b < 256

-- The low `n` bytes of a number, lowest first, and the number that such bytes stand for.
unfoldable pub le_bytes : ℕ → ℕ → List ℕ
le_bytes zero v = []
le_bytes (suc n) v = (v % 256) ∷ le_bytes n (v / 256)

unfoldable pub le_value : List ℕ → ℕ
le_value [] = 0
le_value (b ∷ bs) = b + 256 * le_value bs

pub length-le_bytes : (n v : ℕ) → length (le_bytes n v) ≡ n
unfolding le_bytes
length-le_bytes zero v = refl
length-le_bytes (suc n) v = ap suc (length-le_bytes n (v / 256))

pub le_value-le_bytes : (n v : ℕ) → v < 256 ^ n → le_value (le_bytes n v) ≡ v
unfolding le_bytes le_value
le_value-le_bytes zero v h = omega arith
le_value-le_bytes (suc n) v h =
    omega (arith, le_value-le_bytes n (v / 256) (omega (arith, pow-suc 256 n)))
