-- ===== src/Healer/Active.antt =====
-- When RepairActiveProcessRegistry of src/platform_healer.cpp resets the process id.
use disping.Common.{
  ℕ, String, ◌≡◌, refl, ◌≢◌, true, false, inl, inr, Option, none, some, arith, ◌==◌, Bool-cases,
}
use disping.Common.State.Keeps.{Keeps, keeps_rules}
use disping.Common.Text.{codes, lower, contains}
use disping.Windows.Registry.{hkcu}
use disping.Windows.Processes.{ProcessApi}
use disping.Windows.Healing.{HealApi}
use disping.Store.{RegistryStore}
use disping.Healer.Steam.{
  active_process_key, has_exited, is_foreign, should_reset, reset_if, repair_pid,
  repair_active_process_registry,
}

module _ {W : Type 0} (procs : ProcessApi W) (heal : HealApi W) where
  -- The process of the id cannot be opened, or has an exit code other than STILL_ACTIVE, or has no image name with
  -- "steam.exe" in it.
  pub data Stale (pid : ℕ) : Type 0 where
    gone : (w : W) → (procs.open_process 0x1000 pid w).0 ≡ none → Stale pid
    exited :
        (w w' : W) (h code : ℕ)
        → (procs.open_process 0x1000 pid w).0 ≡ some h
        → (heal.get_exit_code_process h w').0 ≡ some code
        → code ≢ 259
        → Stale pid
    unnamed :
        (w w' : W) (h : ℕ)
        → (procs.open_process 0x1000 pid w).0 ≡ some h
        → (heal.query_full_process_image_name h w').0 ≡ none
        → Stale pid
    foreign :
        (w w' : W) (h : ℕ) (exe : String)
        → (procs.open_process 0x1000 pid w).0 ≡ some h
        → (heal.query_full_process_image_name h w').0 ≡ some exe
        → contains (codes "steam.exe") (lower (codes exe)) ≡ false
        → Stale pid

  exited_sound :
      (exit_code : Option ℕ)
      → has_exited exit_code ≡ true
      → (code : ℕ) × (exit_code ≡ some code) × (code ≢ 259)
  unfolding has_exited
  exited_sound none h = absurd (ground arith)
  exited_sound (some code) h = (code, refl, λ e. absurd (ground arith))

  foreign-Stale :
      (pid h : ℕ) (w w' : W) (exe : Option String)
      → (procs.open_process 0x1000 pid w).0 ≡ some h
      → (heal.query_full_process_image_name h w').0 ≡ exe
      → is_foreign exe ≡ true
      → Stale pid
  unfolding is_foreign
  foreign-Stale pid h w w' none o q f = unnamed w w' h o q
  foreign-Stale pid h w w' (some exe) o q f = foreign w w' h exe o q (ground arith)

  should_reset-Stale :
      (pid : ℕ) (w w' : W) (proc : Option ℕ)
      → (procs.open_process 0x1000 pid w).0 ≡ proc
      → (should_reset procs heal proc w').0 ≡ true
      → Stale pid
  unfolding should_reset
  should_reset-Stale pid w w' none o h = gone w o
  should_reset-Stale pid w w' (some p) o h =
      let (exit_code, w1) = heal.get_exit_code_process p w' in
      elim (Bool-cases (has_exited exit_code)) [
        | inl over ↦
            let (code, e, other) = exited_sound exit_code over in exited w w' p code o e other
        | inr running ↦
            foreign-Stale pid p w w1 (heal.query_full_process_image_name p w1).0 o refl
              (rw running at h)
      ]

-- What a property of the world has to survive: the questions, and the reset for a stale process.
pub record ActiveCalls {W : Type 0} (P : W → Type 0) (store : RegistryStore W)
    (procs : ProcessApi W) (heal : HealApi W) : Type 0 where
  pub asks : Keeps P (store.get_dword hkcu active_process_key "pid")
  pub opens : (pid : ℕ) → Keeps P (procs.open_process 0x1000 pid)
  pub exits : (h : ℕ) → Keeps P (heal.get_exit_code_process h)
  pub images : (h : ℕ) → Keeps P (heal.query_full_process_image_name h)
  pub closes : (h : ℕ) → Keeps P (procs.close_handle h)
  pub resets :
      (w : W) (pid : ℕ)
      → (store.get_dword hkcu active_process_key "pid" w).0 ≡ some pid
      → pid ≢ 0
      → Stale procs heal pid
      → Keeps P (store.set_dword hkcu active_process_key "pid" 0)

module _ {W : Type 0} {P : W → Type 0} (store : RegistryStore W) (procs : ProcessApi W)
    (heal : HealApi W) (calls : ActiveCalls P store procs heal) where
  open calls use {asks, opens, exits, images, closes, resets}

  should_reset-Keeps : (proc : Option ℕ) → Keeps P (should_reset procs heal proc)
  unfolding should_reset
  should_reset-Keeps none = search keeps_rules
  should_reset-Keeps (some p) = search (keeps_rules, exits, images, closes) depth 12

  repair_pid-Keeps :
      (w0 : W) (found : Option ℕ)
      → (store.get_dword hkcu active_process_key "pid" w0).0 ≡ found
      → Keeps P (repair_pid store procs heal found)
  unfolding repair_pid reset_if
  repair_pid-Keeps w0 none f = search keeps_rules
  repair_pid-Keeps w0 (some pid) f = elim (Bool-cases (pid == 0)) [
    | inl clean ↦ rw clean (search keeps_rules)
    | inr named ↦ record {
      at = λ w h.
          let (proc, w1) = procs.open_process 0x1000 pid w in
          let (stale, w2) = should_reset procs heal proc w1 in
          let h2 = (should_reset-Keeps proc).at w1 ((opens pid).at w h) in
          elim (Bool-cases stale) [
            | inr fine ↦ rw (named, fine) h2
            | inl old ↦
                rw (named, old)
                  ((resets w0 pid f (λ e. absurd (ground arith))
                      (should_reset-Stale procs heal pid w w1 proc refl old)).at
                    w2 h2)
          ];
    }
  ]

  -- Whatever property of the world the questions keep, and the reset while the registry names
  -- a process that is stale, RepairActiveProcessRegistry keeps: it resets the id of no other
  -- process. A process is stale if it cannot be opened, has an exit code other than
  -- STILL_ACTIVE, has no image name, or one without "steam.exe" in it.
  pub repair_active_process_registry-Keeps :
      Keeps P (repair_active_process_registry store procs heal)
  unfolding repair_active_process_registry
  repair_active_process_registry-Keeps = record {
    at = λ w h.
        (repair_pid-Keeps w (store.get_dword hkcu active_process_key "pid" w).0 refl).at _
          (asks.at w h);
  }
