-- ===== src/Common/State/Keeps.antt =====
-- Code that preserves a property of the world, and rules for its parts.
use Prim.Native.Nat.{◌+◌}
use mathlib.Core.Bool.{Bool, true, false}
use mathlib.Core.List.{List, [], ◌∷◌}
use disping.Common.Tests.{if◌then◌else◌}
use disping.Common.Lists.{All}
use disping.Common.State.{State, ◌>>=◌, pure, count_each}

pub record Keeps {W A : Type 0} (P : W → Type 0) (m : State W A) : Type 0 where
  pub at : (w : W) → P w → P (m w).1

module _ {W : Type 0} {P : W → Type 0} where
  pub pure-Keeps : {A : Type 0} (a : A) → Keeps P (pure a)
  pure-Keeps a = record { at = λ w h. h }

  pub bind-Keeps :
      {A B : Type 0} {m : State W A} {f : A → State W B}
      → Keeps P m
      → ((a : A) → Keeps P (f a))
      → Keeps P (m >>= f)
  bind-Keeps {m} km kf = record { at = λ w h. (kf (m w).0).at (m w).1 (km.at w h) }

  -- What follows may rely on a property `Q` of the value that the first part returns.
  pub bind-Keeps_of :
      {A B : Type 0} (Q : A → Type 0) {m : State W A} {f : A → State W B}
      → Keeps P m
      → ((w : W) → P w → Q (m w).0)
      → ((a : A) → Q a → Keeps P (f a))
      → Keeps P (m >>= f)
  bind-Keeps_of Q {m} km q kf = record { at = λ w h. (kf (m w).0 (q w h)).at (m w).1 (km.at w h) }

  pub if-Keeps :
      {A : Type 0} (b : Bool) {m n : State W A}
      → Keeps P m
      → Keeps P n
      → Keeps P (if b then m else n)
  if-Keeps true km kn = km
  if-Keeps false km kn = kn

  pub count_each-Keeps :
      {A : Type 0} (Q : A → Type 0) {body : A → State W Bool}
      → ((x : A) → Q x → Keeps P (body x))
      → (list : List A) → All Q list
      → Keeps P (count_each body list)
  unfolding count_each
  count_each-Keeps Q kb [] all = pure-Keeps 0
  count_each-Keeps Q kb (x ∷ list) all = bind-Keeps (kb x all.0) λ done.
      bind-Keeps (count_each-Keeps Q kb list all.1)
        λ count. pure-Keeps (if done then count + 1 else count)

module _ {W : Type 0} {P : W → Type 0} where
  pub each-Keeps :
      {A : Type 0} {body : A → State W Bool}
      → ((x : A) → Keeps P (body x))
      → (list : List A) → Keeps P (count_each body list)
  unfolding count_each
  each-Keeps kb [] = pure-Keeps 0
  each-Keeps kb (x ∷ list) = bind-Keeps (kb x) λ done.
      bind-Keeps (each-Keeps kb list) λ count. pure-Keeps (if done then count + 1 else count)

pub ruleset keeps_rules = (pure-Keeps, bind-Keeps, if-Keeps)
