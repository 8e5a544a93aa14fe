-- ===== src/Cli/Confirm.antt =====
-- What the menu of src/main.cpp does only after a yes.
use disping.Common.{String, ◌≡◌, true, OperationResult, Bool-cases, inl, inr}
use disping.Common.State.{State}
use disping.Common.State.Keeps.{Keeps, bind-Keeps}
use disping.Console.{print_header, print_operation_result}
use disping.Backup.{restore_factory_defaults}
use disping.Program.{Program}
use disping.Cli.Menu.Prompts.{is_yes, wait_key, confirmed}
use disping.Cli.Menu.Settings.{choose_rollback}

-- What a property of the world has to survive: what is printed, and the keys that are read.
pub record MenuCalls {W D : Type 0} (P : W → Type 0) (p : Program W D) : Type 0 where
  pub prints : (text : String) → Keeps P (p.console.print text)
  pub keys : Keeps P p.console.getch

module _ {W D : Type 0} {P : W → Type 0} (p : Program W D) (calls : MenuCalls P p) where
  open calls use {prints, keys}

  wait_key-Keeps : Keeps P (wait_key p)
  unfolding wait_key
  wait_key-Keeps = record {
    at = λ w h. keys.at _ ((prints "\nPress any key to return to menu...").at w h);
  }

  confirmed-Keeps :
      (question : String) (act : State W OperationResult)
      → ((w : W) → is_yes (p.console.getch w).0 ≡ true → Keeps P act)
      → Keeps P (confirmed p question act)
  unfolding confirmed print_operation_result
  confirmed-Keeps question act may = record {
    at = λ w h.
        let w1 = (p.console.print question w).1 in
        let (c, w2) = p.console.getch w1 in
        let (u, w3) = p.console.print _ w2 in
        let h3 = (prints _).at w2 (keys.at w1 ((prints question).at w h)) in
        elim (Bool-cases (is_yes c)) [
          | inr no' ↦ rw no' h3
          | inl yes' ↦ rw yes' ((prints _).at (act w3).1 ((may w1 yes').at w3 h3))
        ];
  }

  -- Whatever property of the world the printing and the reading of keys keep, and
  -- RestoreFactoryDefaults after a key that is y or Y, the menu's rollback keeps: without
  -- such a key it restores nothing.
  pub choose_rollback-Keeps :
      ((w : W)
        → is_yes (p.console.getch w).0 ≡ true
        → Keeps P (restore_factory_defaults p.parts.store p.api p.timer p.texts.show_ms))
      → Keeps P (choose_rollback p)
  unfolding choose_rollback print_header
  choose_rollback-Keeps may = bind-Keeps (prints _) λ u.
      bind-Keeps
        (confirmed-Keeps "Are you sure you want to restore factory Windows defaults? (y/n): " _ may)
        λ v. wait_key-Keeps
