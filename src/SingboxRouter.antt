-- ===== src/SingboxRouter.antt =====
-- singbox-router-config.py: the router of the rules file for sing-box.
pub mod Lists
pub mod Exits
pub mod RuleSets
pub mod Route
mod Tests
