-- ===== src/Hardware/Nic.antt =====
-- The vendors of network cards in src/hardware_detector.cpp.
use disping.Common.{ℕ, String, Bool, ◌||◌, List, if◌then◌else◌}
use disping.Common.Text.{codes, lower, contains}

pub data NicVendor : Type 0 where
  intel realtek killer qualcomm media_tek broadcom other : NicVendor

abbrev mentions : String → List ℕ → Bool
mentions kw text = contains (codes kw) text

unfoldable pub identify_nic_vendor : String → NicVendor
identify_nic_vendor driver_desc =
    let text = lower (codes driver_desc) in
    if mentions "intel" text || mentions "killer" text
    then (if mentions "killer" text then killer else intel)
    else if mentions "realtek" text
    then realtek
    else if mentions "qualcomm" text || mentions "atheros" text
    then qualcomm
    else if mentions "mediatek" text || mentions "ralink" text
    then media_tek
    else if mentions "broadcom" text
    then broadcom
    else other
