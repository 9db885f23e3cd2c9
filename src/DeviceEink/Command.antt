-- ===== src/DeviceEink/Command.antt =====
-- device-eink/src/command.rs: what the refresh policy emits.
use inkbridge.Prelude.{Bool}
use inkbridge.DeviceEink.Geometry.{Rect}

pub data RefreshIntent : Type 0 where
  full partial ui fast flash_ui flash_partial : RefreshIntent

pub data RefreshCommand : Type 0 where
  update : Rect → RefreshIntent → Bool → RefreshCommand
  wait_for_last enter_fast_mode leave_fast_mode : RefreshCommand
