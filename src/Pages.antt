-- ===== src/Pages.antt =====
-- The `get` handlers of the four classes: src/staticpage.cpp, src/lookbook.cpp, src/collection.cpp and
-- src/model.cpp.
pub mod World
pub mod Model
pub mod Reads
pub mod Signatures
pub mod Failures
pub mod Loaded
pub mod Statuses
pub mod Sizes
pub mod Ids
pub mod Handlers
