-- ===== src/ExitConfig/Tests.antt =====
-- Links of exits, with a library that knows one link.
use gpn.Prelude.{refl, true, false, ◌≡◌, Option, none, some, [], ◌∷◌, pos}
use gpn.Prelude.Dict.{Dict}
use gpn.ExitConfig.Library.{Value, text, number, table, nil, entry}
use gpn.ExitConfig.Protocols.Proxies.{parse_proxy_uri}
use gpn.ExitConfig.Generate.Valid.{generate-IsExit}
use gpn.ExitConfig.Generate.Bound.{parse_proxy_uri-IsProxy}
use gpn.ExitConfig.Endpoint.RoundTrip.{parse_hostport-decimal}
use gpn.Text.{Text, codes, ascii, is_space}
use gpn.ExitConfig.Library.{Uri, Library}
use gpn.ExitConfig.Generate.{Env, generate, Config, tun_of}
use gpn.ExitConfig.Generate.Valid.{IsExit}
use gpn.ExitConfig.Generate.Bound.{IsBoundAs}
use gpn.Text.Decimal.{decimal}
use gpn.ExitConfig.Endpoint.{parse_hostport}
use gpn.ExitConfig.Links.{parse_ss}

-- a trojan link, taken apart
abbrev uri_example : Uri
uri_example = record {
  scheme = codes "trojan";
  hostname = some (codes "a.com");
  username = some (codes "pw");
  password = none;
  port = some none;
  query = [];
}

abbrev library : Library
library = record {
  urlparse = λ s. some uri_example;
  parse_qs = λ q. (codes "type", (codes "ws", [])) ∷ [];
  unquote = λ s. s;
  urlsafe_b64decode = λ s. none;
  b64decode = λ s. none;
  loads = λ s. none;
  is_address = λ v. false;
  other_is_true = λ s. true;
  other_int = λ s. none;
  other_str = λ s. s;
}

abbrev environment : Env
environment = record {
  user = [];
  password = [];
  remote_dns = [];
  stack = codes "gvisor";
  mtu = codes "1400";
}

abbrev link : Text
link = codes "trojan://pw@a.com?type=ws"

abbrev proxy_of : Option Config → Dict Value
proxy_of none = []
proxy_of (some c) = c.proxy

generate-link :
    proxy_of (generate ⦃u = ascii⦄ library environment (codes "us") link)
    ≡ (codes "name", text (codes "us"))
      ∷ (codes "type", text (codes "trojan"))
      ∷ (codes "server", text (codes "a.com"))
      ∷ (codes "port", number (pos 443))
      ∷ (codes "password", text (codes "pw"))
      ∷ (codes "sni", text (codes "a.com"))
      ∷ (codes "network", text (codes "ws"))
      ∷ (codes "ws-opts", table (entry (codes "path") (text (codes "/")) nil))
      ∷ []
unfolding generate
generate-link = refl

abbrev config_example : Config
config_example = record {
  tun = tun_of ⦃u = ascii⦄ environment (codes "us") link;
  proxy = proxy_of (generate ⦃u = ascii⦄ library environment (codes "us") link);
  group = codes "us" ∷ [];
}

generate-config : generate ⦃u = ascii⦄ library environment (codes "us") link ≡ some config_example
unfolding generate
generate-config = refl

generate-IsExit_example : IsExit ⦃u = ascii⦄ library (codes "us") config_example
generate-IsExit_example =
    generate-IsExit ⦃u = ascii⦄ library environment (codes "us") link config_example generate-config

generate-local : generate ⦃u = ascii⦄ library environment (codes "local") link ≡ none
unfolding generate
generate-local = refl

parse_proxy_uri-IsProxy_example :
    IsBoundAs ⦃u = ascii⦄ library (parse_proxy_uri ⦃u = ascii⦄ library link)
parse_proxy_uri-IsProxy_example = parse_proxy_uri-IsProxy ⦃u = ascii⦄ library link

parse_hostport-decimal_example :
    parse_hostport ⦃u = ascii⦄ (codes "a:b:8080") ≡ some (codes "a:b", pos 8080)
unfolding decimal is_space
parse_hostport-decimal_example =
    parse_hostport-decimal ⦃u = ascii⦄ b'a' (codes ":b") 8080 (refl, (refl, (refl, tt)))

parse_hostport-bracket :
    parse_hostport ⦃u = ascii⦄ (codes "[::1]:53/x") ≡ some (codes "::1", pos 53)
unfolding parse_hostport
parse_hostport-bracket = refl

ss-link :
    parse_ss ⦃u = ascii⦄ library (codes "ss://aes-128-gcm:p@h:1#n")
    ≡ some (codes "h", pos 1, codes "aes-128-gcm", codes "p")
unfolding parse_ss
ss-link = refl
