-- ===== src/Transfer/Leaving.antt =====
-- Actions that leave the process with code 1 only.
use rainbow_bridge.Prelude.{ℕ, ◌≡◌, refl, sym, ap, ◌∙◌}
use rainbow_bridge.Prelude.Js.{Result, ok, err}
use rainbow_bridge.Prelude.Async.{Async}
use rainbow_bridge.Transfer.{
  Stage, passed, rejected, left_with, unfinished, Transfer, Run, ◌>>=◌, ◌>>◌, trying, leave, asks,
}

module _ {W Block Receipt Log PathNode : Type 0} where
  abbrev pub LeavesWithOne : {A : Type 0} → Run W Block Receipt Log PathNode A → Type 0
  LeavesWithOne m =
      (s : Transfer W Block Receipt Log PathNode) (code : ℕ) → (m s).0 ≡ left_with code → code ≡ 1

  pub bind-LeavesWithOne :
      {A B : Type 0} (m : Run W Block Receipt Log PathNode A)
      (f : A → Run W Block Receipt Log PathNode B)
      → LeavesWithOne m
      → ((a : A) → LeavesWithOne (f a))
      → LeavesWithOne (m >>= f)
  bind-LeavesWithOne {A} {B} m f calm calm_f s code h = go (m s).0 (m s).1 refl
    where
      go : (r : Stage A) (s' : Transfer W Block Receipt Log PathNode) → m s ≡ (r, s') → code ≡ 1
      go (passed a) s' q = calm_f a s' code (rw q at h)
      go (rejected e) s' q = cc (rw q at h)
      go (left_with other) s' q =
          let same : Path (Stage B) (left_with other) (left_with code) = rw q at h in
          let equal : other ≡ code = cc in sym equal ∙ calm s other (ap (λ p. p.0) q)
      go unfinished s' q = cc (rw q at h)

  pub then-LeavesWithOne :
      {A B : Type 0} (m : Run W Block Receipt Log PathNode A)
      (k : Run W Block Receipt Log PathNode B)
      → LeavesWithOne m
      → LeavesWithOne k
      → LeavesWithOne (m >> k)
  then-LeavesWithOne m k calm calm_k = bind-LeavesWithOne m (λ _. k) calm (λ _. calm_k)

  pub trying-LeavesWithOne :
      {A : Type 0} (m : Run W Block Receipt Log PathNode A)
      → LeavesWithOne m
      → LeavesWithOne (trying m (λ e. leave 1))
  trying-LeavesWithOne {A} m calm s code h = go (m s).0 (m s).1 refl
    where
      go : (r : Stage A) (s' : Transfer W Block Receipt Log PathNode) → m s ≡ (r, s') → code ≡ 1
      go (passed a) s' q = cc (rw q at h)
      go (rejected e) s' q =
          let same : Path (Stage A) (left_with 1) (left_with code) = rw q at h in
          let equal : 1 ≡ code = cc in sym equal
      go (left_with other) s' q =
          let same : Path (Stage A) (left_with other) (left_with code) = rw q at h in
          let equal : other ≡ code = cc in sym equal ∙ calm s other (ap (λ p. p.0) q)
      go unfinished s' q = cc (rw q at h)

  pub asks-LeavesWithOne : {A : Type 0} (m : Async W A) → LeavesWithOne (asks m)
  asks-LeavesWithOne {A} m s code h = go (m s.world).0 (m s.world).1 refl
    where
      go : (r : Result A) (w : W) → m s.world ≡ (r, w) → code ≡ 1
      go (ok a) w q = cc (rw q at h)
      go (err e) w q = cc (rw q at h)

  pub asking-LeavesWithOne :
      {A B : Type 0} (m : Async W A) (f : A → Run W Block Receipt Log PathNode B)
      → ((a : A) → LeavesWithOne (f a))
      → LeavesWithOne (asks m >>= f)
  asking-LeavesWithOne m f calm = bind-LeavesWithOne (asks m) f (asks-LeavesWithOne m) calm

  -- Where the process is left with code 0, the first part did not leave it.
  pub bind-left :
      {A B : Type 0} (m : Run W Block Receipt Log PathNode A)
      (f : A → Run W Block Receipt Log PathNode B) (s t : Transfer W Block Receipt Log PathNode)
      → LeavesWithOne m
      → (m >>= f) s ≡ (left_with 0, t)
      → (a : A) × (s' : Transfer W Block Receipt Log PathNode) × (m s ≡ (passed a, s'))
        × (f a s' ≡ (left_with 0, t))
  bind-left {A} m f s t calm h = go (m s).0 (m s).1 refl
    where
      go :
          (r : Stage A) (s' : Transfer W Block Receipt Log PathNode)
          → m s ≡ (r, s')
          → (a : A) × (s'' : Transfer W Block Receipt Log PathNode) × (m s ≡ (passed a, s''))
            × (f a s'' ≡ (left_with 0, t))
      go (passed a) s' q = (a, s', q, rw q at h)
      go (rejected e) s' q = cc (rw q at h)
      go (left_with other) s' q =
          let one : other ≡ 1 = calm s other (ap (λ p. p.0) q) in cc (rw (q, one) at h)
      go unfinished s' q = cc (rw q at h)
