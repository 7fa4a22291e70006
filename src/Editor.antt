-- ===== src/Editor.antt =====
-- The prompt editor: features/editor/editorState.ts, useDraftPersistence.ts and usePromptEditor.ts
-- (under frontend/src).
pub mod Metadata
pub mod Drafts
pub mod Names
pub mod State
pub mod Actions
pub mod Requests
pub mod Creating
pub mod Choices
pub mod Reloading
mod Samples
mod Examples
