-- ===== src/Tests.antt =====
-- Runs of the library's theorems at concrete inputs.
mod Setup
mod Codes
mod Endpoints
mod Transfers
mod Messages
mod Receives
mod Parts
mod Streams
mod Workers
mod Lives
mod Programs
mod Builds
