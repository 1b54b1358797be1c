-- ===== src/Backend.antt =====
-- main/usb_backend.c.
pub mod Descriptors
pub mod Devices
pub mod Pipes
