-- ===== src/Lifecycle/Runner.antt =====
-- litehive/lifecycle/runner.py: one task driven through the state machine.
pub mod Apply
pub mod Step
pub mod Loop
pub mod Moves
pub mod Bounds
pub mod Window
pub mod Budget
pub mod Runs
pub mod Ranks
pub mod Termination
pub mod Fuel
pub mod History
pub mod Overtime
pub mod Samples
