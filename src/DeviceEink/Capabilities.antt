-- ===== src/DeviceEink/Capabilities.antt =====
-- device-eink/src/capabilities.rs: the flags that a device advertises, in declaration order.
use inkbridge.Prelude.{ℕ, Bool, true, false, List, [], ◌∷◌, get_or}

pub record DeviceCapabilities : Type 0 where
  pub eink : Bool
  pub eink_full : Bool
  pub regal : Bool
  pub fast_mode : Bool
  pub regional_update : Bool
  pub hw_invert : Bool
  pub hw_dither : Bool
  pub kaleido_wfm : Bool
  pub color_screen : Bool
  pub swipe_animation : Bool
  pub pen_low_latency : Bool
  pub needs_refresh_after_resume : Bool

abbrev pub flag_count : ℕ
flag_count = 12

unfoldable pub flags : DeviceCapabilities → List Bool
flags c =
    c.eink ∷ c.eink_full ∷ c.regal ∷ c.fast_mode ∷ c.regional_update ∷ c.hw_invert ∷ c.hw_dither
    ∷ c.kaleido_wfm ∷ c.color_screen ∷ c.swipe_animation ∷ c.pen_low_latency
    ∷ c.needs_refresh_after_resume ∷ []

unfoldable pub from_flags : List Bool → DeviceCapabilities
from_flags fs =
    let g = λ (i : ℕ). get_or fs i false in
    record {
      eink = g 0;
      eink_full = g 1;
      regal = g 2;
      fast_mode = g 3;
      regional_update = g 4;
      hw_invert = g 5;
      hw_dither = g 6;
      kaleido_wfm = g 7;
      color_screen = g 8;
      swipe_animation = g 9;
      pen_low_latency = g 10;
      needs_refresh_after_resume = g 11;
    }

abbrev pub supernote_baseline : DeviceCapabilities
supernote_baseline = record {
  eink = true;
  eink_full = false;
  regal = false;
  fast_mode = false;
  regional_update = false;
  hw_invert = false;
  hw_dither = false;
  kaleido_wfm = false;
  color_screen = false;
  swipe_animation = false;
  pen_low_latency = false;
  needs_refresh_after_resume = true;
}

abbrev pub supernote_full : DeviceCapabilities
supernote_full = record {
  eink = true;
  eink_full = true;
  regal = false;
  fast_mode = true;
  regional_update = true;
  hw_invert = false;
  hw_dither = false;
  kaleido_wfm = false;
  color_screen = false;
  swipe_animation = false;
  pen_low_latency = true;
  needs_refresh_after_resume = true;
}

abbrev pub desktop_mock : DeviceCapabilities
desktop_mock = record {
  eink = false;
  eink_full = true;
  regal = false;
  fast_mode = true;
  regional_update = true;
  hw_invert = false;
  hw_dither = false;
  kaleido_wfm = false;
  color_screen = true;
  swipe_animation = false;
  pen_low_latency = false;
  needs_refresh_after_resume = false;
}
