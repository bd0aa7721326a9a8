-- ===== src/RulesImport.antt =====
-- rules-import.py: a rule list, local or fetched, becomes the gateway's smart-routing rules.
pub mod Csv
pub mod Category
pub mod Matchers
pub mod Logical
pub mod Sorting
pub mod Lists
pub mod Convert
pub mod Network
pub mod Fetch
pub mod Remote
mod Tests
