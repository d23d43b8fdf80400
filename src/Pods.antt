-- ===== src/Pods.antt =====
-- The Pods: app/pod_service.py and the Pod routes of app/api_service/app.py.
pub mod Credentials
pub mod Config
pub mod Names
pub mod Applicant
pub mod Enroll
pub mod Heartbeat
pub mod Access
pub mod Manage
pub mod Removal
pub mod Provision
mod Tests
