-- ===== src/Examples.antt =====
-- The theorems at concrete inputs.
mod Stubs
mod Chromosomes
mod Store
mod Steps
mod Loading
mod Routes
mod Route
mod Insertion
mod Start
mod Completion
mod Calculation
mod Day
mod Delivery
