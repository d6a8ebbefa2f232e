-- ===== src/Tests.antt =====
-- Runs at concrete inputs, and the theorems at inputs that meet their hypotheses.
mod Toy
mod Tracker
mod Manifest
mod Download
mod Share
mod Node
mod Wire
mod Fetch
mod Web
mod Api
mod Sharing
mod Agent
mod Lifecycle
mod Cli
