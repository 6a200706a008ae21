-- ===== src/Transfer/Passing.antt =====
-- Actions that pass.
use rainbow_bridge.Prelude.{ℕ, ◌≡◌, refl, sym, ap, ◌∙◌}
use rainbow_bridge.Prelude.Js.{Result, ok, err}
use rainbow_bridge.Prelude.Async.{Async}
use rainbow_bridge.Relay.Near2Eth.Rules.{Said}
use rainbow_bridge.Transfer.{
  Stage, passed, rejected, left_with, unfinished, Transfer, Run, ◌>>=◌, trying, leave, asks,
}

module _ {W Block Receipt Log PathNode : Type 0} where
  -- An action that passes has a first part that passes.
  pub bind-passed :
      {A B : Type 0} (m : Run W Block Receipt Log PathNode A)
      (f : A → Run W Block Receipt Log PathNode B) (s t : Transfer W Block Receipt Log PathNode)
      (b : B)
      → (m >>= f) s ≡ (passed b, t)
      → (a : A) × (s' : Transfer W Block Receipt Log PathNode) × (m s ≡ (passed a, s'))
        × (f a s' ≡ (passed b, t))
  bind-passed {A} {B} m f s t b h = go (m s).0 (m s).1 refl
    where
      go :
          (r : Stage A) (s' : Transfer W Block Receipt Log PathNode)
          → m s ≡ (r, s')
          → (a : A) × (s'' : Transfer W Block Receipt Log PathNode) × (m s ≡ (passed a, s''))
            × (f a s'' ≡ (passed b, t))
      go (passed a) s' q = (a, s', q, rw q at h)
      go (rejected e) s' q = cc (rw q at h)
      go (left_with code) s' q = cc (rw q at h)
      go unfinished s' q = cc (rw q at h)

  pub trying-passed :
      {A : Type 0} (m : Run W Block Receipt Log PathNode A) (code : ℕ)
      (s t : Transfer W Block Receipt Log PathNode) (a : A)
      → trying m (λ e. leave code) s ≡ (passed a, t)
      → m s ≡ (passed a, t)
  trying-passed {A} m code s t a h = go (m s).0 (m s).1 refl
    where
      go :
          (r : Stage A) (s' : Transfer W Block Receipt Log PathNode)
          → m s ≡ (r, s')
          → m s ≡ (passed a, t)
      go (passed a') s' q = q ∙ (rw q at h)
      go (rejected e) s' q = cc (rw q at h)
      go (left_with code) s' q = cc (rw q at h)
      go unfinished s' q = cc (rw q at h)

  -- An answer changes neither the log nor the acts.
  pub asks-passed :
      {A : Type 0} (m : Async W A) (s t : Transfer W Block Receipt Log PathNode) (a : A)
      → asks m s ≡ (passed a, t)
      → ((m s.world).0 ≡ ok a) × (t.log ≡ s.log) × (t.acts ≡ s.acts)
  asks-passed {A} m s t a h = go (m s.world).0 (m s.world).1 refl
    where
      go :
          (r : Result A) (w : W)
          → m s.world ≡ (r, w)
          → ((m s.world).0 ≡ ok a) × (t.log ≡ s.log) × (t.acts ≡ s.acts)
      go (ok a') w q =
          let e : Path (Stage A × Transfer W Block Receipt Log PathNode)
              (passed a', record s { world = w }) (passed a, t) =
            rw q at h in
          let same : a' ≡ a = cc in
          let state : record s { world = w } ≡ t = ap (λ p. p.1) e in
          (ap (λ p. p.0) q ∙ ap ok same, sym (ap (λ u. u.log) state), sym (ap (λ u. u.acts) state))
      go (err e) w q = cc (rw q at h)

  -- An action that starts with a question, and passes.
  pub asks-bind :
      {A B : Type 0} (m : Async W A) (f : A → Run W Block Receipt Log PathNode B)
      (s t : Transfer W Block Receipt Log PathNode) (b : B)
      → (asks m >>= f) s ≡ (passed b, t)
      → (a : A) × (s' : Transfer W Block Receipt Log PathNode) × Said m a
        × (s'.log ≡ s.log)
        × (s'.acts ≡ s.acts)
        × (f a s' ≡ (passed b, t))
  asks-bind m f s t b h =
      let (a, s', e, h') = bind-passed (asks m) f s t b h in
      let (said, log, acts) = asks-passed m s s' a e in (a, s', (s.world, said), log, acts, h')
