-- ===== src/FlyDeploy.antt =====
-- internal/flydeploy: the client of the Fly Machines API and the deployer that uses it.
pub mod Types
pub mod Transport
pub mod Client
pub mod Plan
pub mod Poll
pub mod Waiting
pub mod WaitForMachine
pub mod Deployer
pub mod Requests
pub mod DryRun
pub mod Destroying
pub mod Polling
pub mod Answers
pub mod Effects
pub mod Setup
pub mod Ensured
pub mod Converging
pub mod Wanted
pub mod Removal
pub mod Removing
pub mod Steady
pub mod Tests
