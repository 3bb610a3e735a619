-- ===== src/Turn.antt =====
-- internal/engine/loop.go, checkpoint.go, policy_gate.go, tool_result.go, parallel.go, cache.go and
-- memory_context.go: a turn from its catalog to its last round.
pub mod Results
pub mod Truncation
pub mod Machine
pub mod Checkpoint
pub mod Calls
pub mod Recovery
pub mod Frame
pub mod Runs
pub mod Warrant
pub mod Whole
pub mod Blind
pub mod Resumed
mod Durable
pub mod Settling
pub mod Licence
pub mod Answers
pub mod Replies
pub mod Progress
pub mod Replay
pub mod Parallel
pub mod Engine
pub mod Memory
pub mod Caching
pub mod Spending
pub mod Perform
pub mod Ask
pub mod Rounds
pub mod Begin
pub mod Opening
pub mod Robust
pub mod Lasting
pub mod Plans
pub mod Secure
pub mod Bounded
pub mod WriteAhead
pub mod Outcomes
pub mod Gather
pub mod Sample
mod Tests
mod LoopTests
