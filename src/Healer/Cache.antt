-- ===== src/Healer/Cache.antt =====
-- CleanCorruptedHtmlCache of src/platform_healer.cpp.
use disping.Common.{
  ℕ, ◌+◌, ◌-◌, ◌*◌, String, Bool, true, false, ◌||◌, Option, none, some, List, [], ◌∷◌, ltb, leb,
  ◌==◌, if◌then◌else◌,
}
use disping.Common.State.{State, ◌>>=◌, ◌>>◌, pure}
use disping.Windows.Healing.{HealApi, RegexLib}

abbrev pub streak_pattern : String
streak_pattern = "\"variations_crash_streak\"\\s*:\\s*([0-9]+)"

abbrev pub crash_pattern : String
crash_pattern = "\"system_crash_count\"\\s*:\\s*([0-9]+)"

-- The number that decimal digits stand for.
unfoldable pub value_of : ℕ → List ℕ → ℕ
value_of acc [] = acc
value_of acc (c ∷ digits) = value_of (acc * 10 + (c - b'0')) digits

-- `std::stoi` of digits; `none` if it throws std::out_of_range.
unfoldable pub stoi : List ℕ → Option ℕ
unfolding value_of
stoi digits = if leb (value_of 0 digits) 0x7fff_ffff then some (value_of 0 digits) else none

-- Does the counter's match call for a cleaning? `none` if std::stoi throws.
unfoldable pub is_crashing : Option (ℕ × List ℕ) → Option Bool
is_crashing none = some false
is_crashing (some (position, digits)) = elim (stoi digits) [ none ↦ none | some n ↦ some (ltb 2 n) ]

module _ (regex : RegexLib) where
  -- `needsClean`; `none` if one of the numbers throws.
  unfoldable pub needs_clean : List ℕ → Option Bool
  needs_clean content = elim (is_crashing (regex.search_first streak_pattern false content)) [
    | none ↦ none
    | some streak ↦ elim (is_crashing (regex.search_first crash_pattern false content)) [
      | none ↦ none
      | some crashes ↦ some (streak || crashes)
    ]
  ]

  unfoldable pub reset_counters : List ℕ → List ℕ
  reset_counters content =
      regex.regex_replace crash_pattern false
        (regex.regex_replace streak_pattern false content "\"variations_crash_streak\":0")
        "\"system_crash_count\":0"

  module _ {W : Type 0} (heal : HealApi W) where
    unfoldable pub write_state : List ℕ → Option ℕ → State W Bool
    write_state content none = pure false
    write_state content (some out) = do heal.write_bytes out content; heal.close out; pure true

    unfoldable pub remove_caches : String → State W Unit
    remove_caches html_cache = do
      heal.remove_all (heal.join html_cache "GPUCache")
      heal.remove_all (heal.join html_cache "GrShaderCache")
      heal.remove_all (heal.join html_cache "GraphiteDawnCache")
      heal.remove_all (heal.join html_cache "ShaderCache")

    -- `none` is an exception, which the function catches.
    unfoldable pub clean_if : String → List ℕ → Option Bool → State W Bool
    clean_if html_cache content none = pure false
    clean_if html_cache content (some false) = pure false
    clean_if html_cache content (some true) = do
      out ← heal.open_truncated (heal.join html_cache "Local State")
      cleaned ← write_state (reset_counters content) out
      remove_caches html_cache
      pure cleaned

    unfoldable pub clean_read : String → Option (List ℕ) → State W Bool
    clean_read html_cache none = pure false
    clean_read html_cache (some content) = clean_if html_cache content (needs_clean content)

    unfoldable pub clean_state : String → State W Bool
    clean_state html_cache = do
      has_state ← heal.exists (heal.join html_cache "Local State")
      if has_state
          then (do
            content ← heal.read_file (heal.join html_cache "Local State")
            clean_read html_cache content)
          else pure false

    unfoldable pub clean_html_cache : String → State W Bool
    clean_html_cache html_cache = do
      there ← heal.exists html_cache
      if there then clean_state html_cache else pure false

    -- MAX_PATH
    abbrev max_path : ℕ
    max_path = 260

    unfoldable pub clean_corrupted_html_cache : State W Bool
    clean_corrupted_html_cache = do
      (count, local_app_data) ← heal.get_environment_variable "LOCALAPPDATA" max_path
      if count == 0
          then pure false
          else clean_html_cache (heal.join (heal.join local_app_data "Steam") "htmlcache")
