-- ===== src/Prelude/Async.antt =====
-- Asynchronous code as actions: an action runs in a world `W`, which stands for whatever the
-- program talks to, and returns or throws in the next world. What it changed before it throws
-- stays changed.
use mathlib.Core.Path.{◌≡◌, refl}
use rainbow_bridge.Prelude.Js.{JsError, Result, ok, err}

abbrev pub Async : Type 0 → Type 0 → Type 0
Async W A = W → Result A × W

module _ {W A : Type 0} where
  abbrev pub pure : A → Async W A
  pure a w = (ok a, w)

  abbrev pub throw : JsError → Async W A
  throw e w = (err e, w)

  abbrev catch_result : Result A → (JsError → Async W A) → Async W A
  catch_result (ok a) handler w = (ok a, w)
  catch_result (err e) handler w = handler e w

  -- `try { m } catch (e) { handler }`.
  abbrev pub catch : Async W A → (JsError → Async W A) → Async W A
  catch m handler w = let (r, w') = m w in catch_result r handler w'

module _ {W A B : Type 0} where
  abbrev next_of : Result A → (A → Async W B) → Async W B
  next_of (ok a) f w = f a w
  next_of (err e) f w = (err e, w)

  infixl 5 ◌>>=◌ ◌>>◌
  abbrev pub ◌>>=◌ : Async W A → (A → Async W B) → Async W B
  ◌>>=◌ m f w = let (r, w') = m w in next_of r f w'

  abbrev pub ◌>>◌ : Async W A → Async W B → Async W B
  m >> k = m >>= λ _. k

-- A change of the world that cannot fail.
abbrev pub change : {W : Type 0} → (W → W) → Async W (Unit {0})
change f w = (ok tt, f w)

-- A result as an action.
abbrev pub lift : {W A : Type 0} → Result A → Async W A
lift r w = (r, w)

-- An action that returns has a first part that returns.
pub bind-ok :
    {W A B : Type 0} (m : Async W A) (f : A → Async W B) (w : W) (b : B)
    → ((m >>= f) w).0 ≡ ok b
    → (a : A) × (w' : W) × ((m w).0 ≡ ok a) × ((f a w').0 ≡ ok b)
bind-ok {W} {A} m f w b h = go (m w).0 refl
  where
    go : (r : Result A) → (m w).0 ≡ r → (a : A) × (w' : W) × ((m w).0 ≡ ok a) × ((f a w').0 ≡ ok b)
    go (err e) q = cc (rw q at h)
    go (ok a) q = (a, (m w).1, q, rw q at h)

-- The same for a goal that follows from any such result.
pub bind-elim :
    {W A B C : Type 0} (m : Async W A) (f : A → Async W B) (w : W) (b : B)
    → ((m >>= f) w).0 ≡ ok b
    → ((a : A) (w' : W) → (m w).0 ≡ ok a → (f a w').0 ≡ ok b → C)
    → C
bind-elim m f w b h k = let (a, w', e, h') = bind-ok m f w b h in k a w' e h'

pub lift-elim :
    {W A B C : Type 0} (r : Result A) (f : A → Async W B) (w : W) (b : B)
    → ((lift r >>= f) w).0 ≡ ok b
    → ((a : A) → r ≡ ok a → (f a w).0 ≡ ok b → C)
    → C
lift-elim (ok a) f w b h k = k a refl h
lift-elim (err e) f w b h k = cc
