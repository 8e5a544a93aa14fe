-- ===== src/Registry.antt =====
-- src/registry_util.cpp: the functions of `RegistryUtil`, over the registry of Windows.
pub mod Handles
pub mod Values
use disping.Common.{
  ℕ, zero, suc, ◌+◌, String, Bool, true, false, ◌||◌, Option, none, some, List, [], ◌∷◌, not, ◌==◌,
  if◌then◌else◌,
}
use disping.Common.State.{State, ◌>>=◌, ◌>>◌, pure}
use disping.Windows.Registry.{
  RegistryApi, Root, Value, dword, sz, expand_sz, binary, key_set_value, key_query_value,
  key_enumerate, key_read,
}

-- `dwType == REG_DWORD`, with the number read.
abbrev pub as_dword : Value → Option ℕ
as_dword (dword n) = some n
as_dword _ = none

-- `dwType == REG_SZ || dwType == REG_EXPAND_SZ`, with the text read.
abbrev pub as_text : Value → Option String
as_text (sz s) = some s
as_text (expand_sz s) = some s
as_text _ = none

-- `sizeof(nameBuffer)`.
abbrev pub name_buffer : ℕ
name_buffer = 256

module _ {W : Type 0} (api : RegistryApi W) where
  -- `RegCreateKeyExA`, `RegSetValueExA`, `RegCloseKey`, as SetDword and SetString call them.
  write_value : Root → String → String → Value → State W Bool
  write_value root sub_key value_name value = do
    (result, handle) ← api.reg_create_key_ex root sub_key key_set_value
    if not (result == 0) then pure false else do
      result' ← api.reg_set_value_ex handle value_name value
      api.reg_close_key handle
      pure (result' == 0)

  unfoldable pub set_dword : Root → String → String → ℕ → State W Bool
  unfolding write_value
  set_dword root sub_key value_name value = write_value root sub_key value_name (dword value)

  unfoldable pub set_string : Root → String → String → String → State W Bool
  unfolding write_value
  set_string root sub_key value_name value = write_value root sub_key value_name (sz value)

  -- A query into a buffer of `capacity` bytes, as GetDword and GetString call it; `none` stands
  -- for the result false, which leaves `outValue` alone.
  read_value : {A : Type 0} → ℕ → (Value → Option A) → Root → String → String → State W (Option A)
  read_value capacity parse root sub_key value_name = do
    (result, handle) ← api.reg_open_key_ex root sub_key key_query_value
    if not (result == 0) then pure none else do
      (result', value) ← api.reg_query_value_ex handle value_name capacity
      api.reg_close_key handle
      pure (if result' == 0 then parse value else none)

  unfoldable pub get_dword : Root → String → String → State W (Option ℕ)
  unfolding read_value
  get_dword = read_value 4 as_dword

  unfoldable pub get_string : Root → String → String → State W (Option String)
  unfolding read_value
  get_string = read_value 1024 as_text

  unfoldable pub delete_value : Root → String → String → State W Bool
  delete_value root sub_key value_name = do
    (result, handle) ← api.reg_open_key_ex root sub_key key_set_value
    if not (result == 0) then pure false else do
      result' ← api.reg_delete_value handle value_name
      api.reg_close_key handle
      pure (result' == 0)

  unfoldable pub value_exists : Root → String → String → State W Bool
  value_exists root sub_key value_name = do
    (result, handle) ← api.reg_open_key_ex root sub_key key_query_value
    if not (result == 0) then pure false else do
      result' ← api.reg_query_presence handle value_name
      api.reg_close_key handle
      pure (result' == 0)

  unfoldable pub key_exists : Root → String → State W Bool
  key_exists root sub_key = do
    (result, handle) ← api.reg_open_key_ex root sub_key key_read
    if result == 0 then (do api.reg_close_key handle; pure true) else pure false

  -- `while (RegEnumKeyExA(...) == ERROR_SUCCESS)`, on fuel; dwSize is set again after each call
  -- that succeeds.
  unfoldable pub enumerate_loop : ℕ → ℕ → ℕ → ℕ → State W (List String)
  enumerate_loop zero handle index size w = ([], w)
  enumerate_loop (suc fuel) handle index size w =
      let ((status, name, written), w') = api.reg_enum_key_ex handle index size w in
      elim (status == 0) [
        | true ↦
            let (names, w'') = enumerate_loop fuel handle (index + 1) name_buffer w' in
            (name ∷ names, w'')
        | false ↦ ([], w')
      ]

  -- A key has fewer than 2 ^ 32 subkeys, since `dwIndex` is a DWORD.
  unfoldable pub enumerate_sub_keys : Root → String → State W (List String)
  enumerate_sub_keys root sub_key = do
    (result, handle) ← api.reg_open_key_ex root sub_key key_enumerate
    if not (result == 0) then pure [] else do
      names ← enumerate_loop 0x1_0000_0000 handle 0 name_buffer
      api.reg_close_key handle
      pure names

  unfoldable pub is_running_as_admin : State W Bool
  is_running_as_admin = do
    allocated ← api.allocate_admin_sid
    if not allocated
        then pure false
        else do is_admin ← api.check_token_membership; api.free_sid; pure is_admin
