-- ===== src/Common/State.antt =====
-- Code that acts on the operating system: a function of the state of the world.
pub mod Keeps
use Prim.Native.Nat.{ℕ, ◌+◌}
use mathlib.Core.Bool.{Bool}
use mathlib.Core.List.{List, [], ◌∷◌}
use disping.Common.Tests.{if◌then◌else◌}

abbrev pub State : Type 0 → Type 0 → Type 0
State W A = W → A × W

infixl 5 ◌>>=◌ ◌>>◌
abbrev pub ◌>>=◌ : {W A B : Type 0} → State W A → (A → State W B) → State W B
◌>>=◌ m f w = let (a, w') = m w in f a w'

abbrev pub ◌>>◌ : {W A B : Type 0} → State W A → State W B → State W B
m >> k = m >>= λ _. k

abbrev pub pure : {W A : Type 0} → A → State W A
pure a w = (a, w)

-- `for (const auto& x : list) if (body(x)) count++;`
unfoldable pub count_each : {W A : Type 0} → (A → State W Bool) → List A → State W ℕ
count_each body [] = pure 0
count_each body (x ∷ list) = do
  done ← body x
  count ← count_each body list
  pure (if done then count + 1 else count)
