-- ===== src/Ai.antt =====
-- app/services/ai.py: what the swarm of agents reviews, and by whom.
mod Tests
pub mod Agents
pub mod Prompts
pub mod Answers
pub mod Patch
pub mod Syntax
pub mod Chunks
pub mod Files
pub mod Index
pub mod Review
pub mod Sandbox
pub mod Tools
pub mod Models
pub mod Coordinator
pub mod Agent
pub mod Synthesis
pub mod Swarm
