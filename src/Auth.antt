-- ===== src/Auth.antt =====
-- Signing in a device: src/services/device-flow-store.ts and the routes of src/api/routes/auth.
pub mod Hostname
pub mod DeviceFlow
