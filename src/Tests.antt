-- ===== src/Tests.antt =====
-- Runs of the model on small inputs, and the theorems at concrete values.
mod World
mod Driver
mod Console
mod Screen
mod Disk
mod Copy
mod Stages
mod Calls
mod Safety
mod Chain
mod Start
