-- ===== src/Evaluation.antt =====
-- Prompt evaluation in the browser: types/evaluation.ts, lib/evaluationStatus.ts and
-- features/evaluation/useEvaluation.ts (all under frontend/src).
pub mod Types
pub mod Status
pub mod StatusLaws
pub mod Hook
pub mod Steps
pub mod History
mod Examples
