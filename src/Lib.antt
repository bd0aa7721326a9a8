-- ===== src/Lib.antt =====
-- The Python programs of the proxy gateway: what turns rule lists and policies into the smart
-- exit's routing rules, what turns a proxy's link into the configuration of one exit, the server
-- of the iOS profile, and the Telegram bot that an administrator drives all of it with.
--
-- Parts, and the files that model them (paths from the repository's root):
--   rules-import.py            RulesImport
--     csv_split                  RulesImport/Csv
--     norm_category, category_of RulesImport/Category
--     KEEP, DROP, MODIFIERS, DOMAIN_RE  RulesImport/Matchers
--     split_top_parens, parse_logical   RulesImport/Logical
--     parse_clash_yaml, parse_plain_list RulesImport/Lists
--     main on a local file, emit RulesImport/Convert: `convert` runs the loop on a state of
--                                rules, categories, final policy and counters
--     _parse_remote_url, resolve_public_url, fetch  RulesImport/Fetch, over RulesImport/Network
--     check_url, extract_domains, --from-url, detect_format  RulesImport/Remote
--     sorted(set(...))           RulesImport/Sorting
--   ios-http.py                IosHttp
--   mihomo-router-config.py    MihomoRouter
--     load_policy_map, canonical_exit_name, resolve_target  MihomoRouter/Policy
--     validate_provider_url, cache_remote_provider  MihomoRouter/Provider
--     the loop of main           MihomoRouter/Rules
--     wg_to_proxy, parse_singbox_exit, load_exit_proxy  MihomoRouter/Exits
--   mihomo-exit-config.py      ExitConfig
--     the values of JSON and YAML, urlparse, base64  ExitConfig/Library
--     validate_host_port, parse_hostport  ExitConfig/Endpoint
--     parse_ss, parse_socks      ExitConfig/Links
--     parse_vmess to parse_wireguard, parse_proxy_uri  ExitConfig/Protocols
--     main                       ExitConfig/Generate
--   singbox-exit-config.py     SingboxConfig, over the shared parsers of ExitConfig
--     tls_block, transport_block, the fields  SingboxConfig/Blocks
--     the parsers, parse_proxy_uri  SingboxConfig/Outbounds
--     main                       SingboxConfig/Generate
--   singbox-router-config.py   SingboxRouter
--     parse_rule_list            SingboxRouter/Lists
--     wg_to_outbound, build_exit_outbound  SingboxRouter/Exits
--     main                       SingboxRouter/RuleSets: `Router` holds the variables of main,
--                                and the inner functions change it; SingboxRouter/Route: the
--                                loop over the rules, `router_config`
--   tgbot.py                   TelegramBot
--     _rule_entries, op_set_final, op_add_rule, op_del_rule  TelegramBot/Rules
--     clean_exit_name, unique_exit_name, parse_exit_names, _policy_map  TelegramBot/Names
--     PENDING, BUSY, LAST_FAILED_DOT_DOMAIN, authorized  TelegramBot/Session: `Bot` is the state,
--                                `World` what is read of files, `Effect` what a handler does
--     parse_add_exit_input, exit_name_from_uri  TelegramBot/Input
--     handle_message             TelegramBot/Messages
--     handle_callback            TelegramBot/Callbacks: Pages has the branches that show or ask,
--                                Actions those that start something
--     op_set_dot_domain, main    TelegramBot/Machine: `Step` is an update or the end of a job of
--                                the pool, `Reach` a run from the start; Loop is the loop of
--                                main, and Permits is what an update may run
--     _parse_nft_open_ports, op_firewall_*  TelegramBot/Firewall
--     op_gfwlist_add, op_gfwlist_del, op_gfwl_import_set  TelegramBot/Gfwlist
--     the `except OSError` of _save_port_notes and _write_gfwlist_extra  TelegramBot/Disk: `Save`
--                                is how a write ends, an argument of the operations that write
-- The router calls the downloader of rules-import.py for remote rule providers, so that
-- MihomoRouter/Provider uses `fetch` of RulesImport/Fetch. Both routers read the policy map with
-- `load_policy_map` of MihomoRouter/Policy. The bot's handlers name the operations that they start
-- (`Operation`), and the operations are modelled apart from them; both read the exits with
-- `exit_names`.
--
-- Shared: Prelude (tests, lists, integers, dictionaries), Text (Python's strings as lists of
-- code points: strip, split, splitlines, upper, int) and Regex (expressions and their matcher).
--
-- Parameters: `Unicode` is Python's database above ASCII, which upper, lower, isdigit and \w
-- read; `Network` is urlsplit, urljoin, getaddrinfo, ipaddress, one HTTPS request and the
-- decoding, with a state, so that it may answer differently each time; `Gateway` adds the
-- directory of the exits and the tag made from a hash; `Library` is urlparse, parse_qs, base64,
-- json and ip_address; `Exits` is the directory of the exits. Files are their text, and a file
-- that cannot be opened is `none`. `Host` is what the sing-box router reads: the exits, downloads,
-- local lists, the cache, which may refuse a list, the compiler of lists and the digest. The ports that listen, the notes,
-- and the answers of nft are arguments of the firewall's operations. Hypotheses about parameters
-- are the log at the start, and for the bot's loop that the updates of an answer are in rising
-- order from the requested offset on (`Honours`).
--
-- Bounds: `fetch` has the source's six rounds, so it always ends. Numbers are printed with a
-- fuel of one more than the number, which is more than its digits. The bot's loop runs as long as
-- there are answers in a list, so a theorem on all lists is one on every run. All other loops are
-- by recursion on the text or the list.
--
-- Not modelled: an error when mihomo-router-config.py writes its cache, and errors of the encoding
-- of what is written; the constant parts of the configurations that the two routers print; of tgbot.py
-- the metrics and the cached address, the Telegram transport and the helpers of subprocesses, the
-- texts of the answers and the rows of the keyboards; the Go programs under cmd/ and the shell
-- scripts. The alarm of ios-http.py and the messages on standard error are left out.
pub mod ExitConfig
pub mod IosHttp
pub mod MihomoRouter
pub mod Prelude
pub mod Regex
pub mod RulesImport
pub mod SingboxConfig
pub mod SingboxRouter
pub mod TelegramBot
pub mod Text
