-- ===== src/Windows/Healing.antt =====
-- What src/platform_healer.cpp calls of kernel32, psapi, std::filesystem, std::fstream and std::regex.
use disping.Common.{ℕ, String, Bool, Option, List}
use disping.Common.State.{State}

pub record HealApi (W : Type 0) : Type 0 where
  -- the attributes of a file, INVALID_FILE_ATTRIBUTES if there are none
  pub get_file_attributes : String → State W ℕ
  pub delete_file : String → State W Bool
  -- exit code, image name and creation time of an open process; `none` if the call fails
  pub get_exit_code_process : ℕ → State W (Option ℕ)
  pub query_full_process_image_name : ℕ → State W (Option String)
  pub get_process_times : ℕ → State W (Option ℕ)
  pub terminate_process : ℕ → ℕ → State W Bool
  -- the time in units of 100 ns
  pub get_system_time_as_file_time : State W ℕ
  -- GetEnvironmentVariableA with a buffer of the given size: its result and the text in the buffer
  pub get_environment_variable : String → ℕ → State W (ℕ × String)
  -- `a / b` of fs::path
  pub join : String → String → String
  -- fs::exists, where it does not throw, and fs::remove_all with an error code
  pub exists : String → State W Bool
  pub remove_all : String → State W Unit
  -- the bytes of a file, `none` if it cannot be opened
  pub read_file : String → State W (Option (List ℕ))
  -- a stream that truncates its file, `none` if it cannot be opened; bytes written to it
  pub open_truncated : String → State W (Option ℕ)
  pub write_bytes : ℕ → List ℕ → State W Unit
  pub close : ℕ → State W Unit

pub record RegexLib : Type 0 where
  -- does the constructor take the pattern? It throws regex_error otherwise.
  pub accepts : String → Bool
  -- pattern, icase, text: position of the first match and the text of its first group
  pub search_first : String → Bool → List ℕ → Option (ℕ × List ℕ)
  -- pattern, format_first_only, text, replacement
  pub regex_replace : String → Bool → List ℕ → String → List ℕ
