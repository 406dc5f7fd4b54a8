-- ===== src/Apps.antt =====
-- internal/apps: the parts that an app is made of besides those of the other packages.
pub mod RemoteConfig
pub mod Manager
pub mod Running
pub mod Histories
pub mod Registry
pub mod Reload
pub mod Restart
pub mod Isolation
pub mod Others
pub mod Failures
pub mod Parameters
pub mod Sample
mod Tests
