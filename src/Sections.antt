-- ===== src/Sections.antt =====
-- lib/sections.ts (frontend/src/lib/sections.ts): a prompt is an ordered list of named sections.
-- The children model the section names and tags, the `{{variable}}` scanner, the balance of tags
-- typed inside a section, and the suggested title.
pub mod Chars
pub mod Names
pub mod Variables
pub mod Tags
pub mod Title
mod Examples
