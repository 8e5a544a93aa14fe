-- ===== src/Healer/Vdf.antt =====
-- RepairLoginUsersVdf of src/platform_healer.cpp. A file is the list of its bytes.
use Prim.Native.String.{◌++◌ as str_append}
use disping.Common.{
  ℕ, zero, suc, ◌+◌, ◌-◌, String, Bool, true, false, ◌||◌, Option, none, some, List, [], ◌∷◌, ◌++◌,
  length, drop, ltb, ◌==◌, if◌then◌else◌,
}
use disping.Common.State.{State, ◌>>=◌, ◌>>◌, pure}
use disping.Common.Text.{codes, contains}
use disping.Windows.Registry.{hkcu}
use disping.Windows.Healing.{HealApi, RegexLib}
use disping.Store.{RegistryStore}
use disping.Healer.Steam.{is_empty, or_empty, steam_key, steam_path_or}

abbrev pub take : ℕ → List ℕ → List ℕ
take zero s = []
take (suc n) [] = []
take (suc n) (c ∷ s) = c ∷ take n s

-- The index of the first byte `c` of a text whose own index is `k`.
unfoldable pub first_at : ℕ → List ℕ → ℕ → Option ℕ
first_at c [] k = none
first_at c (x ∷ s) k = if x == c then some k else first_at c s (k + 1)

-- `s.find(c, pos)`.
unfoldable pub find_char : ℕ → ℕ → List ℕ → Option ℕ
find_char c pos s = first_at c (drop pos s) pos

-- The index of the last byte `c` among the first `n` of a text whose own index is `k`.
unfoldable pub last_among : ℕ → List ℕ → ℕ → ℕ → Option ℕ → Option ℕ
last_among c [] n k best = best
last_among c (x ∷ s) zero k best = best
last_among c (x ∷ s) (suc n) k best = last_among c s n (k + 1) (if x == c then some k else best)

-- `s.rfind(c, pos)`.
unfoldable pub rfind_char : ℕ → ℕ → List ℕ → Option ℕ
rfind_char c pos s = last_among c s (pos + 1) 0 none

-- `block.insert(block.length() - 1, text)`.
unfoldable pub insert_before_last : List ℕ → List ℕ → List ℕ
insert_before_last text block = let n = length block - 1 in take n block ++ (text ++ drop n block)

-- `content.replace(start, finish - start + 1, block)`.
unfoldable pub splice : ℕ → ℕ → List ℕ → List ℕ → List ℕ
splice start finish block content = take start content ++ (block ++ drop (finish + 1) content)

abbrev pub account_pattern : String → String
account_pattern auto_user = str_append (str_append "\"AccountName\"\\s*\"" auto_user) "\""

module _ (regex : RegexLib) where
  unfoldable pub heal_most_recent : List ℕ → List ℕ
  heal_most_recent block =
      if contains (codes "\"MostRecent\"") block
      then regex.regex_replace "\"MostRecent\"\\s*\"[^\"]*\"" false block "\"MostRecent\"\t\t\"1\""
      else insert_before_last (codes "\t\t\"MostRecent\"\t\t\"1\"\n\t") block

  unfoldable pub heal_remember : List ℕ → List ℕ
  heal_remember block =
      if contains (codes "\"RememberPassword\"") block
      then regex.regex_replace "\"RememberPassword\"\\s*\"[^\"]*\"" false block
          "\"RememberPassword\"\t\t\"1\""
      else insert_before_last (codes "\t\t\"RememberPassword\"\t\t\"1\"\n\t") block

  unfoldable pub heal_offline : List ℕ → List ℕ
  heal_offline block =
      if contains (codes "\"WantsOfflineMode\"") block
      then regex.regex_replace "\"WantsOfflineMode\"\\s*\"[^\"]*\"" false block
          "\"WantsOfflineMode\"\t\t\"0\""
      else block

  unfoldable pub heal_block : List ℕ → List ℕ
  heal_block block = heal_offline (heal_remember (heal_most_recent block))

  -- `content.substr(start, finish - start + 1)` healed in its place, if the braces are found in order.
  unfoldable pub heal_between : List ℕ → Option ℕ → Option ℕ → List ℕ
  heal_between content (some start) (some finish) =
      if ltb start finish
      then splice start finish (heal_block (take (finish - start + 1) (drop start content))) content
      else content
  heal_between content (some start) none = content
  heal_between content none finish = content

  unfoldable pub heal_at : List ℕ → Option (ℕ × List ℕ) → List ℕ
  heal_at content none = content
  heal_at content (some (match_pos, group)) =
      heal_between content (rfind_char b'{' match_pos content) (find_char b'}' match_pos content)

  -- With no account to log in: the first entry becomes the most recent one, unless there is one.
  unfoldable pub heal_first : List ℕ → List ℕ
  heal_first content =
      if contains (codes "\"MostRecent\"\t\t\"1\"") content
        || contains (codes "\"MostRecent\" \"1\"") content
      then content
      else regex.regex_replace "\"MostRecent\"\\s*\"0\"" true content "\"MostRecent\"\t\t\"1\""

  -- The new text; `none` if the pattern throws regex_error.
  unfoldable pub heal_content : String → List ℕ → Option (List ℕ)
  heal_content auto_user content =
      if is_empty auto_user
      then some (heal_first content)
      else if regex.accepts (account_pattern auto_user)
      then some (heal_at content (regex.search_first (account_pattern auto_user) true content))
      else none

  module _ {W : Type 0} (store : RegistryStore W) (heal : HealApi W) where
    unfoldable pub write_opened : List ℕ → Option ℕ → State W Bool
    write_opened content none = pure false
    write_opened content (some out) = do heal.write_bytes out content; heal.close out; pure true

    unfoldable pub write_healed : String → Option (List ℕ) → State W (Option Bool)
    write_healed vdf_path none = pure none
    write_healed vdf_path (some content) = do
      out ← heal.open_truncated vdf_path
      done ← write_opened content out
      pure (some done)

    unfoldable pub repair_content : String → Option (List ℕ) → State W (Option Bool)
    repair_content vdf_path none = pure (some false)
    repair_content vdf_path (some []) = pure (some false)
    repair_content vdf_path (some (c ∷ content)) = do
      auto_user ← store.get_string hkcu steam_key "AutoLoginUser"
      write_healed vdf_path (heal_content (or_empty auto_user) (c ∷ content))

    unfoldable pub repair_vdf_in : String → State W (Option Bool)
    repair_vdf_in s_path = if is_empty s_path then pure (some false) else do
      let vdf_path = str_append s_path "\\config\\loginusers.vdf"
      content ← heal.read_file vdf_path
      repair_content vdf_path content

    -- `none` stands for an exception.
    unfoldable pub repair_login_users_vdf : String → State W (Option Bool)
    repair_login_users_vdf custom = do s_path ← steam_path_or store custom; repair_vdf_in s_path
