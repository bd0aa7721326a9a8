-- ===== src/SingboxConfig/Tests.antt =====
-- A link of an exit for sing-box, with a library that knows it.
use gpn.Prelude.{refl, true, false, ◌≡◌, none, some, [], ◌∷◌, pos}
use gpn.Text.{Text, codes, ascii}
use gpn.ExitConfig.Library.{text, number, flag, table, nil, entry, Uri, Library}
use gpn.ExitConfig.Generate.{Env, is_exit_name}
use gpn.SingboxConfig.Generate.{Config, generate, inbound_of}
use gpn.SingboxConfig.Generate.Valid.{IsRouted, generate-IsRouted}

-- an http link with a user, taken apart
abbrev http_uri : Uri
http_uri = record {
  scheme = codes "https";
  hostname = some (codes "p.net");
  username = some (codes "me");
  password = none;
  port = some (some 8443);
  query = [];
}

abbrev http_library : Library
http_library = record {
  urlparse = λ s. some http_uri;
  parse_qs = λ q. [];
  unquote = λ s. s;
  urlsafe_b64decode = λ s. none;
  b64decode = λ s. none;
  loads = λ s. none;
  is_address = λ v. false;
  other_is_true = λ s. true;
  other_int = λ s. none;
  other_str = λ s. s;
}

abbrev login : Env
login = record {
  user = [];
  password = codes "pw";
  remote_dns = codes "on";
  stack = codes "gvisor";
  mtu = codes "x";
}

abbrev http_link : Text
http_link = codes "https://me@p.net:8443"

abbrev http_config : Config
http_config = record {
  inbound = inbound_of ⦃u = ascii⦄ login (codes "hk") http_link;
  outbounds =
      ((codes "type", text (codes "http"))
        ∷ (codes "tag", text (codes "out"))
        ∷ (codes "server", text (codes "p.net"))
        ∷ (codes "server_port", number (pos 8443))
        ∷ (codes "username", text (codes "me"))
        ∷ (
          codes "tls",
          table (
              entry (codes "enabled") (flag true)
                (entry (codes "server_name") (text (codes "p.net")) nil)),
        )
        ∷ (codes "password", text (codes "pw"))
        ∷ [])
      ∷ [];
  final = codes "out";
}

generate-http_link :
    generate ⦃u = ascii⦄ http_library login (codes "hk") http_link ≡ some http_config
unfolding generate
generate-http_link = refl

generate-IsRouted_example :
    (is_exit_name ⦃u = ascii⦄ (codes "hk") ≡ true)
    × IsRouted ⦃u = ascii⦄ http_library http_link http_config
generate-IsRouted_example =
    generate-IsRouted ⦃u = ascii⦄ http_library login (codes "hk") http_link http_config
      generate-http_link
