-- ===== src/Library.antt =====
-- The prompt library in the browser: features/library/useLibrary.ts and lib/libraryViews.ts (under
-- frontend/src).
pub mod Prompts
pub mod Deletion
pub mod Owed
pub mod Undo
pub mod Views
pub mod Edits
pub mod Moving
pub mod Searching
pub mod Matching
mod Examples
