-- ===== src/Robust/Contract/Events.antt =====
-- The decoding of a receipt's logs into `receipt.events`, at the end of `callContract`.
use rainbow_bridge.Prelude.{
  ℕ, ◌+◌, ◌≡◌, refl, ap, String, Bool, true, false, Option, none, some, List, [], ◌∷◌, ◌++◌, arith,
  ◌==◌, str_eq, eq_iff, append_assoc, append-nil, map, ◌↔◌, ◌∙◌, Bool-cases, inl, inr,
  if◌then◌else◌,
}

-- A decoded event; its name is `none` where the decoder knows none. Names are those of an ABI, no
-- built-in properties of objects and no numbers.
pub record Event : Type 0 where
  pub name : Option String
  pub values : String

-- A key of `receipt.events`, and what stands at it.
pub data Key : Type 0 where
  named : String → Key
  numbered : ℕ → Key

pub data Slot : Type 0 where
  one : Event → Slot
  many : List Event → Slot

abbrev pub Events : Type 0
Events = List (Key × Slot)

abbrev pub key_eq : Key → Key → Bool
key_eq (named a) (named b) = str_eq a b
key_eq (numbered a) (numbered b) = a == b
key_eq _ _ = false

abbrev pub at : Events → Key → Option Slot
at [] k = none
at ((j, slot) ∷ events) k = if key_eq j k then some slot else at events k

abbrev pub assign : Events → Key → Slot → Events
assign [] k slot = (k, slot) ∷ []
assign ((j, old) ∷ events) k slot =
    if key_eq j k then (j, slot) ∷ events else (j, old) ∷ assign events k slot

-- The branches for a named event: nothing yet, one event, an array.
abbrev pub extend : Option Slot → Event → Slot
extend none ev = one ev
extend (some (one first)) ev = many (first ∷ ev ∷ [])
extend (some (many evs)) ev = many (evs ++ ev ∷ [])

unfoldable pub add_named : Events → String → Event → Events
add_named events name ev = assign events (named name) (extend (at events (named name)) ev)

-- The loop of `events.forEach`; `count` numbers the events without a name.
unfoldable pub collect : List Event → ℕ → Events → Events
collect [] count events = events
collect (ev ∷ evs) count events = elim ev.name [
  | none ↦ collect evs (count + 1) (assign events (numbered count) (one ev))
  | some name ↦ collect evs count (add_named events name ev)
]

-- `receipt.events` of a receipt whose logs are an array.
unfoldable pub decode_logs : {Log : Type 0} → (Log → Event) → List Log → Events
decode_logs decode logs = collect (map decode logs) 0 []

-- The events with a name, in order.
abbrev pub with_name : String → List Event → List Event
with_name n [] = []
with_name n (ev ∷ evs) =
    let rest = with_name n evs in
    elim ev.name [ none ↦ rest | some m ↦ if str_eq m n then ev ∷ rest else rest ]

-- What should stand at a name: nothing, the only event, or the array of all of them.
abbrev pub slot_of : List Event → Option Slot
slot_of [] = none
slot_of (ev ∷ []) = some (one ev)
slot_of (ev ∷ ev' ∷ evs) = some (many (ev ∷ ev' ∷ evs))

key_eq_iff : (a b : Key) → (key_eq a b ≡ true) ↔ (a ≡ b)
key_eq_iff (named a) (named b) = ground (arith, eq_iff a b)
key_eq_iff (numbered a) (numbered b) = ground arith
key_eq_iff (named a) (numbered b) = ground arith
key_eq_iff (numbered a) (named b) = ground arith

at-assign :
    (events : Events) (k j : Key) (slot : Slot)
    → at (assign events k slot) j ≡ (if key_eq k j then some slot else at events j)
at-assign [] k j slot = refl
at-assign ((i, old) ∷ events) k j slot =
    ground (arith, at-assign events k j slot, key_eq_iff i k, key_eq_iff i j, key_eq_iff k j)

extend_all : Option Slot → List Event → Option Slot
extend_all o [] = o
extend_all o (ev ∷ evs) = extend_all (some (extend o ev)) evs

extend_all-many : (xs evs : List Event) → extend_all (some (many xs)) evs ≡ some (many (xs ++ evs))
unfolding extend_all
extend_all-many xs [] = rw append-nil
extend_all-many xs (ev ∷ evs) = extend_all-many (xs ++ ev ∷ []) evs ∙ rw append_assoc

extend_all-none : (evs : List Event) → extend_all none evs ≡ slot_of evs
unfolding extend_all
extend_all-none [] = refl
extend_all-none (ev ∷ []) = refl
extend_all-none (ev ∷ ev' ∷ evs) = extend_all-many (ev ∷ ev' ∷ []) evs

at-collect_named :
    (evs : List Event) (count : ℕ) (events : Events) (n : String)
    → at (collect evs count events) (named n) ≡ extend_all (at events (named n)) (with_name n evs)
unfolding collect extend_all add_named
at-collect_named [] count events n = refl
at-collect_named (ev ∷ evs) count events n =
    go ev.name refl (λ c later. at-collect_named evs c later n)
  where
    Goal : Type 0
    Goal =
        at (collect (ev ∷ evs) count events) (named n)
        ≡ extend_all (at events (named n)) (with_name n (ev ∷ evs))

    go :
        (o : Option String)
        → ev.name ≡ o
        → ((c : ℕ) (later : Events)
            → at (collect evs c later) (named n)
              ≡ extend_all (at later (named n)) (with_name n evs))
        → Goal
    go none e ih = rw e (
        ih (count + 1) (assign events (numbered count) (one ev))
        ∙ ap (λ o. extend_all o (with_name n evs))
            (at-assign events (numbered count) (named n) (one ev)))
    go (some m) e ih =
        let slot = extend (at events (named m)) ev in
        let step =
          ih count (assign events (named m) slot)
          ∙ ap (λ o. extend_all o (with_name n evs)) (at-assign events (named m) (named n) slot) in
        elim (Bool-cases (str_eq m n)) [
          | inl same ↦ rw (e, same) (step ∙ rw (same, (eq_iff m n).0 same))
          | inr other ↦ rw (e, other) (step ∙ rw other)
        ]

-- After the decoding, `receipt.events` has at each name the events of that name among the logs, in
-- their order and none lost: nothing if there is none, the event itself if it is the only one, and
-- else the array of all.
pub decode_logs-named :
    {Log : Type 0} (decode : Log → Event) (logs : List Log) (n : String)
    → at (decode_logs decode logs) (named n) ≡ slot_of (with_name n (map decode logs))
unfolding decode_logs
decode_logs-named decode logs n =
    at-collect_named (map decode logs) 0 [] n ∙ extend_all-none (with_name n (map decode logs))
