-- ===== src/Registry/Values.antt =====
-- Values in src/registry_util.cpp: what each function writes, and what it reads.
use disping.Common.{
  ℕ, zero, suc, ◌+◌, ◌≤◌, ◌<◌, String, ◌≡◌, refl, sym, Bool, true, ◌&&◌, Option, none, some, ◌∙◌,
  ap, drop-get_elem?, drop-none, drop-all, arith, ◌==◌, Bool-cases, Option-cases, inl, inr, length,
  get_elem?, drop, if◌then◌else◌,
}
use Prim.Native.String.{len}
use disping.Windows.Registry.{
  RegistryApi, RegistryLaws, Root, Value, Place, place, alias, alias_refl, size, dword, sz,
  expand_sz, binary, key_set_value, key_query_value, key_enumerate,
}
use disping.Registry.{
  write_value, set_dword, set_string, read_value, get_dword, get_string, delete_value, as_dword,
  as_text, enumerate_loop, enumerate_sub_keys, is_running_as_admin,
}

-- The text under a name, if there is one.
abbrev pub stored_text : Option Value → Option String
stored_text none = none
stored_text (some v) = as_text v

module _ {W : Type 0} {api : RegistryApi W} (laws : RegistryLaws api) where
  open laws use {view}

  -- A write that reports success has changed its place and no other; a failed one nothing.
  write_value-values :
      (r : Root) (k n : String) (v : Value) (w : W) (p : Place)
      → let (done, w') = write_value api r k n v w in
        view.value w' p ≡ (if done && alias (place r k n) p then some v else view.value w p)
  unfolding write_value
  write_value-values r k n v w p =
      let ((status, handle), w1) = api.reg_create_key_ex r k key_set_value w in
      let w2 = (api.reg_set_value_ex handle n v w1).1 in
      ground (
        arith,
        laws.creates r k key_set_value w p,
        laws.create_targets r k key_set_value w handle,
        laws.set_values handle n v w1 r k p,
        laws.close_values handle w2 p,
      )

  pub set_dword-values :
      (r : Root) (k n : String) (v : ℕ) (w : W) (p : Place)
      → let (done, w') = set_dword api r k n v w in
        view.value w' p ≡ (if done && alias (place r k n) p then some (dword v) else view.value w p)
  unfolding set_dword
  set_dword-values r k n v = write_value-values r k n (dword v)

  pub set_string-values :
      (r : Root) (k n v : String) (w : W) (p : Place)
      → let (done, w') = set_string api r k n v w in
        view.value w' p ≡ (if done && alias (place r k n) p then some (sz v) else view.value w p)
  unfolding set_string
  set_string-values r k n v = write_value-values r k n (sz v)

  -- A DeleteValue that reports success has removed the value at its place, names compared
  -- without regard to case, and changed no other; one that fails has changed nothing.
  pub delete_value-values :
      (r : Root) (k n : String) (w : W) (p : Place)
      → let (done, w') = delete_value api r k n w in
        view.value w' p ≡ (if done && alias (place r k n) p then none else view.value w p)
  unfolding delete_value
  delete_value-values r k n w p =
      let ((status, handle), w1) = api.reg_open_key_ex r k key_set_value w in
      let w2 = (api.reg_delete_value handle n w1).1 in
      ground (
        arith,
        (laws.opens r k key_set_value).values w p,
        (laws.opens r k key_set_value).targets w handle,
        laws.delete_values handle n w1 r k p,
        laws.close_values handle w2 p,
      )

  -- Can the key be opened for reading?
  abbrev pub can_read : W → Root → String → Bool
  can_read w r k = (api.reg_open_key_ex r k key_query_value w).0.0 == 0

  module _ {A : Type 0} (c : ℕ) (parse : Value → Option A) (r : Root) (k n : String) (w : W) where
    read_value-values :
        (p : Place) → view.value (read_value api c parse r k n w).1 p ≡ view.value w p
    unfolding read_value
    read_value-values p =
        let ((status, handle), w1) = api.reg_open_key_ex r k key_query_value w in
        let w2 = (api.reg_query_value_ex handle n c w1).1 in
        ground (
          arith,
          (laws.opens r k key_query_value).values w p,
          (laws.query handle n c).values w1 p,
          laws.close_values handle w2 p,
        )

    read_value-found :
        (v : Value)
        → can_read w r k ≡ true
        → view.value w (place r k n) ≡ some v
        → size v ≤ c
        → (read_value api c parse r k n w).0 ≡ parse v
    unfolding read_value
    read_value-found v ok found fits =
        let ((status, handle), w1) = api.reg_open_key_ex r k key_query_value w in
        ground (
          arith,
          (laws.opens r k key_query_value).values w (place r k n),
          (laws.opens r k key_query_value).targets w handle,
          laws.query_found handle n c w1 r k v,
        )

    read_value_sound :
        (a : A)
        → (read_value api c parse r k n w).0 ≡ some a
        → (v : Value) × (view.value w (place r k n) ≡ some v) × (parse v ≡ some a)
    unfolding read_value
    read_value_sound a h =
        let ((status, handle), w1) = api.reg_open_key_ex r k key_query_value w in
        let v = (api.reg_query_value_ex handle n c w1).0.1 in
        (
          v,
          ground (
            arith,
            (laws.opens r k key_query_value).values w (place r k n),
            (laws.opens r k key_query_value).targets w handle,
            laws.query_sound handle n c w1 r k,
          ),
          ground arith,
        )

  as_dword-size : (v : Value) (a : ℕ) → as_dword v ≡ some a → (v ≡ dword a) × (size v ≤ 4)
  as_dword-size (dword n) a h = ground arith
  as_dword-size (sz s) a h = cc
  as_dword-size (expand_sz s) a h = cc
  as_dword-size (binary n) a h = cc

  pub get_dword-values :
      (r : Root) (k n : String) (w : W) (p : Place)
      → view.value (get_dword api r k n w).1 p ≡ view.value w p
  unfolding get_dword
  get_dword-values r k n w p = read_value-values 4 as_dword r k n w p

  -- A number is read exactly if the key can be opened and holds that number under the name.
  pub get_dword-found :
      (r : Root) (k n : String) (w : W) (d : ℕ)
      → can_read w r k ≡ true
      → view.value w (place r k n) ≡ some (dword d)
      → (get_dword api r k n w).0 ≡ some d
  unfolding get_dword
  get_dword-found r k n w d ok found =
      read_value-found 4 as_dword r k n w (dword d) ok found (omega arith)

  pub get_dword_sound :
      (r : Root) (k n : String) (w : W) (d : ℕ)
      → (get_dword api r k n w).0 ≡ some d
      → view.value w (place r k n) ≡ some (dword d)
  unfolding get_dword
  get_dword_sound r k n w d h =
      let (v, found, parsed) = read_value_sound 4 as_dword r k n w d h in
      found ∙ ap some (as_dword-size v d parsed).0

  pub get_string-values :
      (r : Root) (k n : String) (w : W) (p : Place)
      → view.value (get_string api r k n w).1 p ≡ view.value w p
  unfolding get_string
  get_string-values r k n w p = read_value-values 1024 as_text r k n w p

  -- A text is read whole if it fits into the buffer of 1024 bytes, its end mark included.
  pub get_string-found :
      (r : Root) (k n s : String) (w : W)
      → can_read w r k ≡ true
      → view.value w (place r k n) ≡ some (sz s)
      → len s < 1024
      → (get_string api r k n w).0 ≡ some s
  unfolding get_string
  get_string-found r k n s w ok found fits =
      read_value-found 1024 as_text r k n w (sz s) ok found (omega arith)

  -- What a successful SetDword has stored is what GetDword then reads, if the key can be
  -- opened for reading.
  pub get_dword-set_dword :
      (r : Root) (k n : String) (v : ℕ) (w : W)
      → (set_dword api r k n v w).0 ≡ true
      → can_read (set_dword api r k n v w).1 r k ≡ true
      → (get_dword api r k n (set_dword api r k n v w).1).0 ≡ some v
  get_dword-set_dword r k n v w ok readable =
      get_dword-found r k n (set_dword api r k n v w).1 v readable
        (ground (arith, set_dword-values r k n v w (place r k n), alias_refl (place r k n)))

  enumerate_loop-subkeys :
      (fuel h i : ℕ) (r : Root) (k : String) (w : W)
      → view.target w h ≡ some (r, k, key_enumerate)
      → length (view.subkeys w r k) < fuel + i
      → (enumerate_loop api fuel h i 256 w).0 ≡ drop i (view.subkeys w r k)
  unfolding enumerate_loop
  enumerate_loop-subkeys zero h i r k w t enough =
      sym (drop-all (view.subkeys w r k) i (omega arith))
  enumerate_loop-subkeys (suc fuel) h i r k w t enough =
      let w1 = (api.reg_enum_key_ex h i 256 w).1 in
      elim (Option-cases (get_elem? (view.subkeys w r k) i)) [
        | inl end ↦
            ground (arith, laws.enum_end h i 256 w r k t end, drop-none (view.subkeys w r k) i)
        | inr (name, there) ↦ ground (
          arith,
          laws.enum_found h i w r k name,
          laws.enum_subkeys h i 256 w r k,
          (laws.enumerates h i 256).targets w h,
          drop-get_elem? (view.subkeys w r k) i name there,
          enumerate_loop-subkeys fuel h (i + 1) r k w1,
        )
      ]

  opened_target :
      (r : Root) (k : String) (w : W)
      → (api.reg_open_key_ex r k key_enumerate w).0.0 ≡ 0
      → let ((status, handle), w1) = api.reg_open_key_ex r k key_enumerate w in
        view.target w1 handle ≡ some (r, k, key_enumerate)
  opened_target r k w ok =
      let ((status, handle), w1) = api.reg_open_key_ex r k key_enumerate w in
      ground (arith, (laws.opens r k key_enumerate).targets w handle)

  -- EnumerateSubKeys on a key that opens lists every subkey in order, if the key has fewer
  -- than 2 ^ 32 of them.
  pub enumerate_sub_keys-subkeys :
      (r : Root) (k : String) (w : W)
      → length (view.subkeys w r k) < 0x1_0000_0000
      → (api.reg_open_key_ex r k key_enumerate w).0.0 ≡ 0
      → (enumerate_sub_keys api r k w).0 ≡ view.subkeys w r k
  unfolding enumerate_sub_keys
  enumerate_sub_keys-subkeys r k w few ok =
      let ((status, handle), w1) = api.reg_open_key_ex r k key_enumerate w in
      let kept : view.subkeys w1 r k ≡ view.subkeys w r k =
        (laws.opens r k key_enumerate).subkeys w in
      rw ok (
        enumerate_loop-subkeys 0x1_0000_0000 handle 0 r k w1 (opened_target r k w ok)
          (rw kept (omega arith))
        ∙ kept)

  pub get_string_sound :
      (r : Root) (k n s : String) (w : W)
      → (get_string api r k n w).0 ≡ some s
      → stored_text (view.value w (place r k n)) ≡ some s
  unfolding get_string
  get_string_sound r k n s w h =
      let (v, found, parsed) = read_value_sound 1024 as_text r k n w s h in rw found parsed

  enumerate_loop-values :
      (fuel h i n : ℕ) (w : W) (p : Place)
      → view.value (enumerate_loop api fuel h i n w).1 p ≡ view.value w p
  unfolding enumerate_loop
  enumerate_loop-values zero h i n w p = refl
  enumerate_loop-values (suc fuel) h i n w p =
      let w1 = (api.reg_enum_key_ex h i n w).1 in
      ground
        (arith, (laws.enumerates h i n).values w p, enumerate_loop-values fuel h (i + 1) 256 w1 p)

  pub enumerate_sub_keys-values :
      (r : Root) (k : String) (w : W) (p : Place)
      → view.value (enumerate_sub_keys api r k w).1 p ≡ view.value w p
  unfolding enumerate_sub_keys
  enumerate_sub_keys-values r k w p =
      let ((status, handle), w1) = api.reg_open_key_ex r k key_enumerate w in
      let w2 = (enumerate_loop api 0x1_0000_0000 handle 0 256 w1).1 in
      let opened = (laws.opens r k key_enumerate).values w p in
      elim (Bool-cases (status == 0)) [
        | inl ok ↦ rw ok (
            laws.close_values handle w2 p
            ∙ (enumerate_loop-values 0x1_0000_0000 handle 0 256 w1 p ∙ opened))
        | inr failed ↦ rw failed opened
      ]

  pub is_running_as_admin-values :
      (w : W) (p : Place) → view.value (is_running_as_admin api w).1 p ≡ view.value w p
  unfolding is_running_as_admin
  is_running_as_admin-values w p =
      let (allocated, w1) = api.allocate_admin_sid w in
      let w2 = (api.check_token_membership w1).1 in
      ground (arith, laws.allocates.values w p, laws.checks.values w1 p, laws.frees.values w2 p)
