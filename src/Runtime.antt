-- ===== src/Runtime.antt =====
-- runtime.go: the state of a run, its effects, its loop and the method `run`, and what holds of them.
pub mod State
pub mod Effects
pub mod Loop
pub mod Run
pub mod Log
pub mod Invariant
pub mod Steps
pub mod Rounds
pub mod Turns
pub mod Answers
pub mod Outcomes
pub mod Guarantees
pub mod Promises
