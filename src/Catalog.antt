-- ===== src/Catalog.antt =====
-- The tables that an administrator edits: model aliases, filter patterns, and the export and import of
-- the configuration.
pub mod Rows
pub mod Aliases
pub mod Uniqueness
pub mod Patterns
pub mod BuiltIn
pub mod Entries
pub mod Portable
pub mod Imported
pub mod Sections
pub mod Kept
pub mod Reimported
