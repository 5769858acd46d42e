-- ===== src/Query/Eval.antt =====
-- Evaluation of expressions and its laws.
pub mod Defs
pub mod Typing
pub mod Logic
pub mod Arithmetic
pub mod Join
mod Tests
