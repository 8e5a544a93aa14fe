-- ===== src/Windows/Snapshot.antt =====
-- Which processes a snapshot lists.
use disping.Common.{◌≡◌, refl, some, List, [], ◌∷◌, All, OneOf, inl, inr}
use disping.Windows.System.{Process, SystemApi}

-- A process, its id and its name together, that a snapshot lists in a world with the property `P`.
pub record Listed {W : Type 0} (P : W → Type 0) (api : SystemApi W) (pe : Process) : Type 0 where
  pub world : W
  pub holds : P world
  pub list : List Process
  pub shown : (api.snapshot world).0 ≡ some list
  pub member : OneOf pe list

-- What holds of each member holds of all.
pub All-OneOf :
    {A : Type 0} (Q : A → Type 0) (list : List A) → ((a : A) → OneOf a list → Q a) → All Q list
All-OneOf Q [] q = tt
All-OneOf Q (a ∷ list) q = (q a (inl refl), All-OneOf Q list λ b m. q b (inr m))

module _ {W : Type 0} (P : W → Type 0) (api : SystemApi W) where
  -- The answer of a snapshot lists what is listed.
  pub snapshot-AllListed :
      (w : W) (list : List Process) → P w → (api.snapshot w).0 ≡ some list → All (Listed P api) list
  snapshot-AllListed w list h e =
      All-OneOf (Listed P api) list
        λ pe m. record { world = w; holds = h; list = list; shown = e; member = m }
