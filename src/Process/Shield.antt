-- ===== src/Process/Shield.antt =====
-- The processes that BoostProcessByName of src/process_optimizer.cpp opens.
use disping.Common.{
  ℕ, String, ◌≡◌, refl, ◌∙◌, Bool, true, false, Option, none, some, List, All, Bool-cases, inl, inr,
}
use disping.Common.State.{State}
use disping.Common.State.Keeps.{Keeps, keeps_rules, count_each-Keeps}
use disping.Common.Text.{codes, lower, same-eq}
use disping.Windows.Registry.{same_text}
use disping.Windows.System.{Process, SystemApi}
use disping.Windows.Processes.{ProcessApi}
use disping.Windows.Snapshot.{Listed, snapshot-AllListed}
use disping.Vpn.{is_process_protected}
use disping.Process.{
  boost_access, pin, boost_opened, boost_process, boost_if_named, boost_listed,
  boost_process_by_name,
}

-- A name that differs in case only is protected as well.
pub same_text-is_process_protected :
    (a b : String) → same_text a b ≡ true → is_process_protected a ≡ is_process_protected b
unfolding same_text is_process_protected
same_text-is_process_protected a b h = rw (same-eq (lower (codes a)) (lower (codes b)) h) refl

-- What a property of the world has to survive: the snapshot, the calls on an open process, and the opening of
-- processes that a snapshot lists under a name that is not protected.
pub record BoostCalls {W : Type 0} (P : W → Type 0) (procs : ProcessApi W) (mask : State W ℕ)
    (api : SystemApi W) : Type 0 where
  pub opens :
      (pe : Process)
      → Listed P api pe
      → is_process_protected pe.exe ≡ false
      → Keeps P (procs.open_process (boost_access procs mask) pe.pid)
  pub closes : (h : ℕ) → Keeps P (procs.close_handle h)
  pub priorities : (h c : ℕ) → Keeps P (procs.set_priority_class h c)
  pub affinities : (h m : ℕ) → Keeps P (procs.set_process_affinity_mask h m)
  pub masks : Keeps P mask
  pub snapshots : Keeps P api.snapshot

module _ {W : Type 0} {P : W → Type 0} (procs : ProcessApi W) (mask : State W ℕ) (api : SystemApi W)
    (calls : BoostCalls P procs mask api) where
  open calls use {opens, closes, priorities, affinities, masks, snapshots}

  pin-Keeps : (h : ℕ) (pinned : Bool) → Keeps P (pin procs mask h pinned)
  unfolding pin
  pin-Keeps h false = search keeps_rules
  pin-Keeps h true = search (keeps_rules, masks, affinities)

  boost_opened-Keeps :
      (pid : ℕ) (pinned : Bool) (handle : Option ℕ)
      → Keeps P (boost_opened procs mask pid pinned handle)
  unfolding boost_opened
  boost_opened-Keeps pid pinned none = search keeps_rules
  boost_opened-Keeps pid pinned (some c) = record {
    at = λ w h.
        let w1 = (procs.set_priority_class c 0x80 w).1 in
        (closes c).at (pin procs mask c pinned w1).1
          ((pin-Keeps c pinned).at w1 ((priorities c 0x80).at w h));
  }

  pub boost_process-Keeps :
      (pe : Process) (pinned : Bool)
      → Listed P api pe
      → is_process_protected pe.exe ≡ false
      → Keeps P (boost_process procs mask pe.pid pinned)
  unfolding boost_process
  boost_process-Keeps pe pinned seen real =
      search (keeps_rules, opens pe seen real, boost_opened-Keeps)

  boost_if_named-Keeps :
      (name : String) (pinned : Bool)
      → is_process_protected name ≡ false
      → (pe : Process) → Listed P api pe
      → Keeps P (boost_if_named procs mask name pinned pe)
  unfolding boost_if_named
  boost_if_named-Keeps name pinned real pe seen = record {
    at = λ w h. elim (Bool-cases (same_text pe.exe name)) [
      | inl named ↦ rw named (
          (boost_process-Keeps pe pinned seen
              (same_text-is_process_protected pe.exe name named ∙ real)).at
            w h)
      | inr other ↦ rw other h
    ];
  }

  boost_listed-Keeps :
      (name : String) (pinned : Bool)
      → is_process_protected name ≡ false
      → (list : Option (List Process)) → ((l : List Process) → list ≡ some l → All (Listed P api) l)
      → Keeps P (boost_listed procs mask name pinned list)
  unfolding boost_listed
  boost_listed-Keeps name pinned real none seen = search keeps_rules
  boost_listed-Keeps name pinned real (some list) seen = record {
    at = λ w h.
        (count_each-Keeps (Listed P api) (boost_if_named-Keeps name pinned real) list
            (seen list refl)).at
          w h;
  }

  -- Whatever property of the world the snapshot keeps, the calls on an open process, and the
  -- opening of processes that a snapshot lists under a name that the VPN guard does not
  -- protect, BoostProcessByName keeps: it opens no protected process.
  pub boost_process_by_name-Keeps :
      (name : String) (pinned : Bool) → Keeps P (boost_process_by_name procs mask api name pinned)
  unfolding boost_process_by_name
  boost_process_by_name-Keeps name pinned = record {
    at = λ w h. elim (Bool-cases (is_process_protected name)) [
      | inl guarded ↦ rw guarded h
      | inr real ↦ rw real (
          (boost_listed-Keeps name pinned real (api.snapshot w).0
              λ l e. snapshot-AllListed P api w l h e).at
            (api.snapshot w).1 (snapshots.at w h))
    ];
  }
