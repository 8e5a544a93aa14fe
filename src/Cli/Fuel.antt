-- ===== src/Cli/Fuel.antt =====
-- The fuel of the menu's loop in src/main.cpp.
use disping.Common.{
  ℕ, zero, suc, ◌+◌, ◌≡◌, ◌≢◌, refl, true, false, Option, none, some, Bool-cases, inl, inr, ◌∙◌,
  sym, ap, arith,
}
use disping.Common.State.{State}
use disping.Program.{Program}
use disping.Cli.Menu.{ask_choice, act_on}
use disping.Cli.Menu.Prompts.{Session}
use disping.Cli.{Outcome, unfinished, is_quit, go_on, finish, interactive}

module _ {W D : Type 0} (p : Program W D) where
  pub interactive-quit :
      (fuel : ℕ) (s : Session) (w : W)
      → is_quit (ask_choice p w).0 ≡ true
      → interactive p (suc fuel) s w ≡ finish p s (ask_choice p w).1
  unfolding interactive
  interactive-quit fuel s w e = rw (interactive, e) refl

  pub interactive-act :
      (fuel : ℕ) (s : Session) (w : W)
      → is_quit (ask_choice p w).0 ≡ false
      → interactive p (suc fuel) s w ≡ (
          let (choice, w1) = ask_choice p w in
          let (s', w2) = act_on p choice s w1 in go_on p (interactive p fuel) s' w2)
  unfolding interactive
  interactive-act fuel s w e = rw (interactive, e) refl

  pub interactive-zero : (s : Session) (w : W) → (interactive p zero s w).0 ≡ unfinished
  unfolding interactive
  interactive-zero s w = refl

  -- What follows the choice may be replaced where it ends.
  go_on-more :
      (f g : Session → State W Outcome) (r : Option Session) (w : W)
      → ((s : Session) → (f s w).0 ≢ unfinished → g s w ≡ f s w)
      → (go_on p f r w).0 ≢ unfinished
      → go_on p g r w ≡ go_on p f r w
  go_on-more f g none w same ended = refl
  go_on-more f g (some s) w same ended = same s ended

  -- A loop that has ended ends in the same way with more fuel.
  pub interactive-more :
      (fuel more : ℕ) (s : Session) (w : W)
      → (interactive p fuel s w).0 ≢ unfinished
      → interactive p (fuel + more) s w ≡ interactive p fuel s w
  interactive-more zero more s w ended = absurd (ended (interactive-zero s w))
  interactive-more (suc fuel) more s w ended =
      let e : suc fuel + more ≡ suc (fuel + more) = omega arith in
      elim (Bool-cases (is_quit (ask_choice p w).0)) [
        | inl quits ↦
            rw e (interactive-quit (fuel + more) s w quits ∙ sym (interactive-quit fuel s w quits))
        | inr acts ↦
            let (choice, w1) = ask_choice p w in
            let (s', w2) = act_on p choice s w1 in
            let a = interactive-act fuel s w acts in
            rw e (
              interactive-act (fuel + more) s w acts
              ∙ go_on-more (interactive p fuel) (interactive p (fuel + more)) s' w2
                  (λ s2 h. interactive-more fuel more s2 w2 h) (λ u. ended (ap (λ x. x.0) a ∙ u))
              ∙ sym a)
      ]
