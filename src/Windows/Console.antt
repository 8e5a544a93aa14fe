-- ===== src/Windows/Console.antt =====
-- The console: the standard streams, _getch of conio.h and the console mode.
use disping.Common.{ℕ, String}
use disping.Common.State.{State}

pub record ConsoleApi (W : Type 0) : Type 0 where
  pub print : String → State W Unit
  -- the code of the key that _getch waits for, a line and a character of std::cin
  pub getch : State W ℕ
  pub getline : State W String
  pub get : State W ℕ
  -- virtual terminal processing, where the console has it, and the UTF-8 code page
  pub enable_terminal : State W Unit
  pub set_output_utf8 : State W Unit
