-- ===== src/Robust/Backoff.antt =====
-- `retry` and `backoff` of utils/robust.js. The delays are floating-point numbers: their type, the
-- multiplication and the sleep are parameters.
use rainbow_bridge.Prelude.{ℕ, zero, suc, ◌<◌, ◌≡◌, refl, ap, ◌⊎◌, inl, inr, arith}
use rainbow_bridge.Prelude.Js.{JsError, Result, ok, err}
use rainbow_bridge.Prelude.Async.{Async}

module _ {W A : Type 0} where
  -- `retries` below 1 calls once, as 1 does.
  unfoldable pub retry : ℕ → Async W A → Async W A
  retry zero fn w = fn w
  retry (suc zero) fn w = fn w
  retry (suc (suc n)) fn w =
      let (r, w') = fn w in elim r [ ok a ↦ (ok a, w') | err e ↦ retry (suc n) fn w' ]

module _ {W A D : Type 0} (times : D → D → D) (sleep : D → W → W) where
  unfoldable pub backoff : ℕ → Async W A → D → D → Async W A
  backoff zero fn delay wait w = fn w
  backoff (suc zero) fn delay wait w = fn w
  backoff (suc (suc n)) fn delay wait w =
      let (r, w') = fn w in
      elim r [
        | ok a ↦ (ok a, w')
        | err e ↦ backoff (suc n) fn (times delay wait) wait (sleep delay w')
      ]

  -- From the world `w` with the delay `d`, `n` calls fail, a sleep after each, and lead to `w'`.
  pub data Failed (fn : Async W A) (wait : D) : ℕ → D → W → W → Type 0 where
    start : {d : D} {w : W} → Failed fn wait zero d w w
    again :
        {n : ℕ} {d : D} {w w' w'' : W} (e : JsError)
        → fn w ≡ (err e, w')
        → Failed fn wait n (times d wait) (sleep d w') w''
        → Failed fn wait (suc n) d w w''

  -- How a run of at most `n + 1` calls ends: after `k` failures with the outcome of the next call,
  -- which succeeds or is the last one.
  pub record Ends (n : ℕ) (fn : Async W A) (d wait : D) (w : W) (outcome : Result A × W)
      : Type 0 where
    pub k : ℕ
    pub world : W
    pub failures : Failed fn wait k d w world
    pub result : outcome ≡ fn world
    pub last : (k ≡ n) ⊎ ((k < n) × ((a : A) × ((fn world).0 ≡ ok a)))

  pub backoff-Ends :
      (n : ℕ) (fn : Async W A) (d wait : D) (w : W)
      → Ends n fn d wait w (backoff (suc n) fn d wait w)
  unfolding backoff
  backoff-Ends zero fn d wait w = record {
    k = 0;
    world = w;
    failures = start;
    result = refl;
    last = inl refl;
  }
  backoff-Ends (suc n) fn d wait w =
      go (fn w) refl (λ w'. backoff-Ends n fn (times d wait) wait (sleep d w'))
    where
      go :
          (o : Result A × W)
          → fn w ≡ o
          → ((w' : W)
              → Ends n fn
                  (times d wait)
                  wait
                  (sleep d w')
                  (backoff (suc n) fn (times d wait) wait (sleep d w')))
          → Ends (suc n) fn d wait w (backoff (suc (suc n)) fn d wait w)
      go (ok a, w') q later = record {
        k = 0;
        world = w;
        failures = start;
        result = rw (q, backoff) (rw q);
        last = inr (omega arith, (a, ap (λ (o : Result A × W). o.0) q));
      }
      go (err e, w') q later =
          let l : Ends n fn (times d wait) wait (sleep d w')
              (backoff (suc n) fn (times d wait) wait (sleep d w')) =
            later w' in
          record {
            k = suc l.k;
            world = l.world;
            failures = again e q l.failures;
            result = rw (q, backoff) (rw q l.result);
            last = later_last l.last;
          }
        where
          later_last :
              {k : ℕ} {P : Type 0}
              → ((k ≡ n) ⊎ ((k < n) × P))
              → ((suc k ≡ suc n) ⊎ ((suc k < suc n) × P))
          later_last (inl e) = inl (omega arith)
          later_last (inr (l, s)) = inr (omega arith, s)

-- `retry` is `backoff` without the sleeps.
pub retry-eq-backoff :
    {W A : Type 0} (n : ℕ) (fn : Async W A) (w : W)
    → retry n fn w ≡ backoff (λ (d : ℕ) _. d) (λ _ u. u) n fn 0 0 w
unfolding retry backoff
retry-eq-backoff zero fn w = refl
retry-eq-backoff (suc zero) fn w = refl
retry-eq-backoff (suc (suc n)) fn w = ground (arith, retry-eq-backoff (suc n) fn (fn w).1)
