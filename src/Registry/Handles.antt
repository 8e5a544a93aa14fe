-- ===== src/Registry/Handles.antt =====
-- Handles in src/registry_util.cpp.
use disping.Common.{
  ℕ, zero, suc, ◌+◌, String, ◌≡◌, refl, false, Option, arith, ◌==◌, Bool-cases, inl, inr,
}
use disping.Common.State.{State}
use disping.Windows.Registry.{
  RegistryApi, RegistryLaws, Root, Value, Access, dword, sz, key_set_value, key_query_value,
  key_enumerate, key_read,
}
use disping.Registry.{
  write_value, set_dword, set_string, read_value, get_dword, get_string, delete_value, value_exists,
  key_exists, as_dword, as_text, enumerate_loop, enumerate_sub_keys, is_running_as_admin,
}

module _ {W : Type 0} {api : RegistryApi W} (laws : RegistryLaws api) where
  open laws use {view}

  -- After the call every handle stands for what it stood for before.
  abbrev pub SameHandles : {A : Type 0} → State W A → Type 0
  SameHandles call = (w : W) (h : ℕ) → view.target (call w).1 h ≡ view.target w h

  write_value-SameHandles :
      (r : Root) (k n : String) (v : Value) → SameHandles (write_value api r k n v)
  unfolding write_value
  write_value-SameHandles r k n v w h =
      let ((status, handle), w1) = api.reg_create_key_ex r k key_set_value w in
      let w2 = (api.reg_set_value_ex handle n v w1).1 in
      ground (
        arith,
        laws.create_targets r k key_set_value w h,
        laws.create_unused r k key_set_value w,
        laws.set_targets handle n v w1 h,
        laws.close_targets handle w2 h,
      )

  set_dword-SameHandles : (r : Root) (k n : String) (v : ℕ) → SameHandles (set_dword api r k n v)
  unfolding set_dword
  set_dword-SameHandles r k n v = write_value-SameHandles r k n (dword v)

  set_string-SameHandles : (r : Root) (k n v : String) → SameHandles (set_string api r k n v)
  unfolding set_string
  set_string-SameHandles r k n v = write_value-SameHandles r k n (sz v)

  -- Opening a key, a quiet call on its handle, and closing it leave all handles as they were.
  opened :
      (r : Root) (k : String) (a : Access) (w : W) (w2 : W) (h : ℕ)
      → let ((status, handle), w1) = api.reg_open_key_ex r k a w in
        status ≡ 0
        → ((j : ℕ) → view.target w2 j ≡ view.target w1 j)
        → view.target (api.reg_close_key handle w2).1 h ≡ view.target w h
  opened r k a w w2 h ok quiet =
      let ((status, handle), w1) = api.reg_open_key_ex r k a w in
      ground (
        arith,
        (laws.opens r k a).targets w h,
        (laws.opens r k a).unused w,
        quiet h,
        laws.close_targets handle w2 h,
      )

  not_opened :
      (r : Root) (k : String) (a : Access) (w : W) (h : ℕ)
      → ((api.reg_open_key_ex r k a w).0.0 == 0) ≡ false
      → view.target (api.reg_open_key_ex r k a w).1 h ≡ view.target w h
  not_opened r k a w h failed = ground (arith, (laws.opens r k a).targets w h)

  read_value-SameHandles :
      {A : Type 0} (c : ℕ) (parse : Value → Option A) (r : Root) (k n : String)
      → SameHandles (read_value api c parse r k n)
  unfolding read_value
  read_value-SameHandles c parse r k n w h =
      let ((status, handle), w1) = api.reg_open_key_ex r k key_query_value w in
      let w2 = (api.reg_query_value_ex handle n c w1).1 in
      elim (Bool-cases (status == 0)) [
        | inl ok ↦
            rw ok (
              opened r k key_query_value w w2 h (ground arith) ((laws.query handle n c).targets w1))
        | inr failed ↦ rw failed (not_opened r k key_query_value w h failed)
      ]

  get_dword-SameHandles : (r : Root) (k n : String) → SameHandles (get_dword api r k n)
  unfolding get_dword
  get_dword-SameHandles = read_value-SameHandles 4 as_dword

  get_string-SameHandles : (r : Root) (k n : String) → SameHandles (get_string api r k n)
  unfolding get_string
  get_string-SameHandles = read_value-SameHandles 1024 as_text

  delete_value-SameHandles : (r : Root) (k n : String) → SameHandles (delete_value api r k n)
  unfolding delete_value
  delete_value-SameHandles r k n w h =
      let ((status, handle), w1) = api.reg_open_key_ex r k key_set_value w in
      let w2 = (api.reg_delete_value handle n w1).1 in
      elim (Bool-cases (status == 0)) [
        | inl ok ↦
            rw ok (opened r k key_set_value w w2 h (ground arith) (laws.delete_targets handle n w1))
        | inr failed ↦ rw failed (not_opened r k key_set_value w h failed)
      ]

  value_exists-SameHandles : (r : Root) (k n : String) → SameHandles (value_exists api r k n)
  unfolding value_exists
  value_exists-SameHandles r k n w h =
      let ((status, handle), w1) = api.reg_open_key_ex r k key_query_value w in
      let w2 = (api.reg_query_presence handle n w1).1 in
      elim (Bool-cases (status == 0)) [
        | inl ok ↦ rw ok (
            opened r k key_query_value w w2 h (ground arith)
              ((laws.query_presence handle n).targets w1))
        | inr failed ↦ rw failed (not_opened r k key_query_value w h failed)
      ]

  key_exists-SameHandles : (r : Root) (k : String) → SameHandles (key_exists api r k)
  unfolding key_exists
  key_exists-SameHandles r k w h =
      let ((status, handle), w1) = api.reg_open_key_ex r k key_read w in
      elim (Bool-cases (status == 0)) [
        | inl ok ↦ rw ok (opened r k key_read w w1 h (ground arith) (λ j. refl))
        | inr failed ↦ rw failed (not_opened r k key_read w h failed)
      ]

  enumerate_loop-SameHandles :
      (fuel handle i n : ℕ) → SameHandles (enumerate_loop api fuel handle i n)
  unfolding enumerate_loop
  enumerate_loop-SameHandles zero handle i n w h = refl
  enumerate_loop-SameHandles (suc fuel) handle i n w h =
      let w1 = (api.reg_enum_key_ex handle i n w).1 in
      ground (
        arith,
        (laws.enumerates handle i n).targets w h,
        enumerate_loop-SameHandles fuel handle (i + 1) 256 w1 h,
      )

  enumerate_sub_keys-SameHandles :
      (r : Root) (k : String) → SameHandles (enumerate_sub_keys api r k)
  unfolding enumerate_sub_keys
  enumerate_sub_keys-SameHandles r k w h =
      let ((status, handle), w1) = api.reg_open_key_ex r k key_enumerate w in
      let w2 = (enumerate_loop api 0x1_0000_0000 handle 0 256 w1).1 in
      elim (Bool-cases (status == 0)) [
        | inl ok ↦ rw ok (
            opened r k key_enumerate w w2 h (ground arith)
              (enumerate_loop-SameHandles 0x1_0000_0000 handle 0 256 w1))
        | inr failed ↦ rw failed (not_opened r k key_enumerate w h failed)
      ]

  is_running_as_admin-SameHandles : SameHandles (is_running_as_admin api)
  unfolding is_running_as_admin
  is_running_as_admin-SameHandles w h =
      let (allocated, w1) = api.allocate_admin_sid w in
      let w2 = (api.check_token_membership w1).1 in
      ground (arith, laws.allocates.targets w h, laws.checks.targets w1 h, laws.frees.targets w2 h)

  -- Whatever Windows answers, no function of RegistryUtil leaves a handle open or closes one
  -- that was open before.
  pub no_leaks :
      (r : Root) (k n s : String) (v : ℕ)
      → SameHandles (set_dword api r k n v)
        × SameHandles (get_dword api r k n)
        × SameHandles (set_string api r k n s)
        × SameHandles (get_string api r k n)
        × SameHandles (delete_value api r k n)
        × SameHandles (value_exists api r k n)
        × SameHandles (key_exists api r k)
        × SameHandles (enumerate_sub_keys api r k)
        × SameHandles (is_running_as_admin api)
  no_leaks r k n s v = (
    set_dword-SameHandles r k n v,
    get_dword-SameHandles r k n,
    set_string-SameHandles r k n s,
    get_string-SameHandles r k n,
    delete_value-SameHandles r k n,
    value_exists-SameHandles r k n,
    key_exists-SameHandles r k,
    enumerate_sub_keys-SameHandles r k,
    is_running_as_admin-SameHandles,
  )
