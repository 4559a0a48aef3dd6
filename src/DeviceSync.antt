-- ===== src/DeviceSync.antt =====
-- The synchronisation of a device: SyncService.sync_device and what it composes
-- (network/services/sync_service.py).
pub mod Uptime
pub mod Printed
pub mod Output
pub mod Model
pub mod Version
pub mod Steps
pub mod Run
pub mod Consistent
pub mod Others
pub mod Outcome
mod Tests
pub mod Success
pub mod Reported
