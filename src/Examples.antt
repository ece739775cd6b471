-- ===== src/Examples.antt =====
-- examples: the programs that show how the SDK is used.
pub mod Files
pub mod Consumer
pub mod Restart
pub mod Echo
pub mod Selection
pub mod Asked
pub mod Instance
pub mod Devices
pub mod Simulator
pub mod Publisher
pub mod Diagnosis
pub mod Reopened
pub mod Multi
pub mod Tests
pub mod DiagnosisTests
pub mod EchoTests
