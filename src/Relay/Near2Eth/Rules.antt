-- ===== src/Relay/Near2Eth/Rules.antt =====
-- Rules about the acts of a round: what an action does, and what holds of all acts so far.
use rainbow_bridge.Prelude.{
  ◌≡◌, refl, Bool, true, false, List, [], ◌∷◌, ◌++◌, append_assoc, if◌then◌else◌,
}
use rainbow_bridge.Prelude.Int.{ℤ}
use rainbow_bridge.Prelude.Js.{Result, ok, err}
use rainbow_bridge.Prelude.Async.{Async, pure, ◌>>=◌}
use rainbow_bridge.Relay.Near2Eth.{Options, Act, sleep, Chains, State, ask, act, sleep_for}

-- An answer that a call gives in some world.
abbrev pub Said : {W A : Type 0} → Async W A → A → Type 0
Said {W} m a = (w : W) × ((m w).0 ≡ ok a)

module _ {W : Type 0} (chains : Chains W) (options : Options) where
  abbrev pub Case :
      {A : Type 0} → (A → List Act → Type 0) → (List Act → Type 0) → Result A → List Act → Type 0
  Case Q E (ok a) xs = Q a xs
  Case Q E (err e) xs = E xs

  -- After acts for which `P` holds, the action's acts are such that `Q` holds of its result and all
  -- acts, or it throws and `E` holds of all acts.
  pub record Triple {A : Type 0} (P : List Act → Type 0) (m : Async (State W) A)
      (Q : A → List Act → Type 0) (E : List Act → Type 0) : Type 0 where
    pub runs :
        (base xs : List Act) (s : State W)
        → s.acts ≡ base ++ xs
        → P xs
        → (ys : List Act) × ((m s).1.acts ≡ base ++ ys) × Case Q E (m s).0 ys

  module _ {A : Type 0} {P : List Act → Type 0} {Q : A → List Act → Type 0}
      {E : List Act → Type 0} where
    pub Triple-ask :
        (m : Async W A)
        → ((a : A) (xs : List Act) → Said m a → P xs → Q a xs)
        → ((xs : List Act) → P xs → E xs)
        → Triple P (ask chains options m) Q E
    Triple-ask m f g = record { runs = λ base xs s q h. (xs, q, go s xs h (m s.world).0 refl) }
      where
        go :
            (s : State W) (xs : List Act)
            → P xs
            → (r : Result A) → (m s.world).0 ≡ r
            → Case Q E r xs
        go s xs h (ok a) e = f a xs (s.world, e) h
        go s xs h (err x) e = g xs h

    pub Triple-pure : (a : A) → ((xs : List Act) → P xs → Q a xs) → Triple P (pure a) Q E
    Triple-pure a f = record { runs = λ base xs s q h. (xs, q, f xs h) }

    pub Triple-if :
        (b : Bool) (m n : Async (State W) A)
        → (b ≡ true → Triple P m Q E)
        → (b ≡ false → Triple P n Q E)
        → Triple P (if b then m else n) Q E
    Triple-if true m n f g = f refl
    Triple-if false m n f g = g refl

  module _ {A B : Type 0} {P : List Act → Type 0} {Q : A → List Act → Type 0}
      {R : B → List Act → Type 0} {E : List Act → Type 0} where
    pub Triple-bind :
        (m : Async (State W) A) (f : A → Async (State W) B)
        → Triple P m Q E
        → ((a : A) → Triple (Q a) (f a) R E)
        → Triple P (m >>= f) R E
    Triple-bind m f hm hf = record {
      runs = λ base xs s q h.
          let (ys, q', c) = hm.runs base xs s q h in go base s (m s).0 refl ys q' c;
    }
      where
        go :
            (base : List Act) (s : State W) (r : Result A)
            → (m s).0 ≡ r
            → (ys : List Act) → (m s).1.acts ≡ base ++ ys
            → Case Q E (m s).0 ys
            → (zs : List Act) × (((m >>= f) s).1.acts ≡ base ++ zs) × Case R E ((m >>= f) s).0 zs
        go base s (ok a) e ys q' c = rw e ((hf a).runs base ys (m s).1 q' (rw e at c))
        go base s (err x) e ys q' c = rw e (ys, q', rw e at c)

  module _ {A B : Type 0} {P : List Act → Type 0} {R : B → List Act → Type 0}
      {E : List Act → Type 0} where
    -- The rest may use that the call gave its answer.
    pub Triple-said :
        (m : Async W A) (f : A → Async (State W) B)
        → ((xs : List Act) → P xs → E xs)
        → ((a : A) → Said m a → Triple P (f a) R E)
        → Triple P (ask chains options m >>= f) R E
    Triple-said m f weak rest = record {
      runs = λ base xs s q h. go base xs s q h (m s.world).0 refl;
    }
      where
        Goal : List Act → State W → Type 0
        Goal base s =
            (zs : List Act) × (((ask chains options m >>= f) s).1.acts ≡ base ++ zs)
            × Case R E ((ask chains options m >>= f) s).0 zs

        go :
            (base xs : List Act) (s : State W)
            → s.acts ≡ base ++ xs
            → P xs
            → (r : Result A) → (m s.world).0 ≡ r
            → Goal base s
        go base xs s q h (ok a) e =
            rw e ((rest a (s.world, e)).runs base xs (record s { world = (m s.world).1 }) q h)
        go base xs s q h (err x) e = rw e (xs, q, weak xs h)

  module _ {P : List Act → Type 0} {Q : Unit {0} → List Act → Type 0} {E : List Act → Type 0} where
    pub Triple-act :
        (a : Act)
        → ((xs : List Act) → P xs → Q tt (xs ++ a ∷ []) × E (xs ++ a ∷ []))
        → Triple P (act chains options a) Q E
    unfolding act
    Triple-act a f = record {
      runs = λ base xs s q h.
          (xs ++ a ∷ [], rw (q, append_assoc), go xs (f xs h) (chains.perform a s.world).0);
    }
      where
        go :
            (xs : List Act)
            → Q tt (xs ++ a ∷ []) × E (xs ++ a ∷ [])
            → (r : Result (Unit {0})) → Case Q E r (xs ++ a ∷ [])
        go xs (hq, he) (ok u) = hq
        go xs (hq, he) (err x) = he

    pub Triple-sleep :
        (ms : ℤ)
        → ((xs : List Act) → P xs → Q tt (xs ++ sleep ms ∷ []))
        → Triple P (sleep_for chains options ms) Q E
    unfolding act sleep_for
    Triple-sleep ms f = record {
      runs = λ base xs s q h. (xs ++ sleep ms ∷ [], rw (q, append_assoc), f xs h);
    }
