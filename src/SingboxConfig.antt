-- ===== src/SingboxConfig.antt =====
-- singbox-exit-config.py: the link of a proxy becomes a sing-box configuration of one exit. Its
-- `b64decode_any`, `parse_hostport`, `decode_ss_userinfo`, `parse_socks` and `query_map` are those
-- of mihomo-exit-config.py, so that those definitions of ExitConfig stand for both.
pub mod Blocks
pub mod Outbounds
pub mod Generate
mod Tests
