-- ===== src/Tests.antt =====
-- Runs of the model, and each theorem at a concrete input.
mod Configuration
mod Editing
mod Fixtures
mod Recovery
mod Monitor
mod Launch
mod Games
mod Stops
mod Streams
mod Tails
mod Actions
mod Clicks
mod Doctoring
mod Following
mod Shell
mod Elevation
