-- ===== src/Runtime.antt =====
-- knight/src/runtime/runtime.cpp and knight/src/simulation: the loop that turns a state snapshot with a
-- candidate into a simulated and submitted bundle; and the start and the stop around it.
pub mod Simulator
pub mod Loop
pub mod SignalListener
pub mod Lifecycle
pub mod Main
mod Tests
