-- ===== src/Tests.antt =====
-- Runs of the definitions on concrete inputs, and the theorems applied to such inputs.
pub mod Templates
pub mod Files
pub mod Server
pub mod Requests
pub mod Inputs
pub mod Waits
pub mod Links
pub mod Reads
pub mod Signatures
pub mod Failures
pub mod Records
