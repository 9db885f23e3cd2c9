-- ===== src/DeviceEink.antt =====
-- The crate device-eink: the refresh vocabulary, the device's capabilities and the wire codecs.
pub mod Geometry
pub mod Command
pub mod Capabilities
pub mod Wire
