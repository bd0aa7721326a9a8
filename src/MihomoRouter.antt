-- ===== src/MihomoRouter.antt =====
-- mihomo-router-config.py: a rules file becomes the rules and rule providers of the smart exit.
pub mod Policy
pub mod Provider
pub mod Rules
pub mod Exits
mod Tests
