-- ===== src/PlatDriver/Write.antt =====
-- Writing a message to the device.
