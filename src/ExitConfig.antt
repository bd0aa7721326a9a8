-- ===== src/ExitConfig.antt =====
-- mihomo-exit-config.py: the link of a proxy becomes the configuration of one exit.
pub mod Library
pub mod Endpoint
pub mod Links
pub mod Protocols
pub mod Generate
mod Tests
