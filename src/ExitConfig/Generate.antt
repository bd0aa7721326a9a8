-- ===== src/ExitConfig/Generate.antt =====
-- `main` of mihomo-exit-config.py: the name, the link and the environment give the configuration.
pub mod Parts
pub mod Bound
pub mod Valid
use gpn.Prelude.{
  ℕ, Bool, true, false, not, ◌&&◌, ◌||◌, List, [], ◌∷◌, ◌++◌, Option, none, some, is_empty, ◌==◌,
  if◌then◌else◌, ℤ, pos,
}
use gpn.Prelude.Dict.{Dict, put}
use gpn.Text.{Text, codes, Unicode, lower, is_word, is_within}
use gpn.Text.Equality.{eqb, is_in}
use gpn.Text.Number.{int_of}
use gpn.Text.Search.{starts_with}
use gpn.Text.Strip.{strip}
use gpn.Regex.{Regex, chars, seq, up_to, at_end, full_match}
use gpn.ExitConfig.Library.{Value, text, number, flag, other, Library}
use gpn.ExitConfig.Endpoint.{validate_host_port}
use gpn.ExitConfig.Links.{Proxied, put_if}
use gpn.ExitConfig.Protocols.Proxies.{parse_proxy_uri}

-- the environment variables, with their defaults put in
pub record Env : Type 0 where
  pub user : Text
  pub password : Text
  pub remote_dns : Text
  pub stack : Text
  pub mtu : Text

-- the parts of the configuration that depend on the arguments
pub record Config : Type 0 where
  pub tun : Dict Value
  pub proxy : Dict Value
  pub group : List Text

-- `{**a, **b}`
unfoldable pub merge : Dict Value → Dict Value → Dict Value
unfolding put
merge a [] = a
merge a ((k, v) ∷ b) = merge (put k v a) b

module _ ⦃u : Unicode⦄ where
  -- `[\w\-\u4e00-\u9fff]{1,16}`, and a newline that `$` lets pass
  unfoldable pub name_re : Regex
  unfolding is_word
  name_re =
      let one = chars (λ c. is_word c || c == b'-' || is_within 0x4e00 0x9fff c) in
      at_end (seq one (up_to 15 one))

  unfoldable pub is_exit_name : Text → Bool
  unfolding name_re full_match eqb
  is_exit_name name = full_match name_re name && not (eqb name (codes "local"))

  -- the two overrides for socks5 and http
  unfoldable pub with_credentials : Env → Text → Dict Value → Dict Value
  unfolding is_in put
  with_credentials env ptype proxy =
      if is_in ptype (codes "socks5" ∷ codes "http" ∷ [])
      then put_if (not (is_empty env.password)) (codes "password") (text env.password)
          (put_if (not (is_empty env.user)) (codes "username") (text env.user) proxy)
      else proxy

  unfoldable pub uses_remote_dns : Env → Text → Bool
  unfolding lower is_in starts_with
  uses_remote_dns env uri =
      is_in (lower env.remote_dns) (codes "1" ∷ codes "true" ∷ codes "yes" ∷ codes "on" ∷ [])
      || starts_with (codes "socks5h://") (lower uri)

  abbrev mtu_or : Option ℤ → ℤ
  mtu_or none = pos 1400
  mtu_or (some z) = z

  -- `dns-hijack` is the empty list
  unfoldable pub tun_of : Env → Text → Text → Dict Value
  unfolding uses_remote_dns put int_of
  tun_of env name uri = put_if (uses_remote_dns env uri) (codes "dns-hijack") (other (codes "[]")) (
      (codes "enable", flag true)
      ∷ (codes "stack", text env.stack)
      ∷ (codes "device", text (codes "pgw-" ++ name))
      ∷ (codes "auto-route", flag false)
      ∷ (codes "auto-detect-interface", flag true)
      ∷ (codes "mtu", number (mtu_or (int_of env.mtu)))
      ∷ [])

module _ ⦃u : Unicode⦄ (lib : Library) (env : Env) where
  abbrev pub named : Text → Text → Dict Value
  named name ptype = (codes "name", text name) ∷ (codes "type", text ptype) ∷ []

  abbrev pub configured : Text → Text → Option (Text × Proxied) → Option Config
  configured name uri none = none
  configured name uri (some (ptype, (proxy, host, port))) =
      if validate_host_port lib host port
      then some (record {
        tun = tun_of env name uri;
        proxy = merge (named name ptype) (with_credentials env ptype proxy);
        group = name ∷ [];
      })
      else none

  -- `main`; `none` where the program ends with an error
  unfoldable pub generate : Text → Text → Option Config
  unfolding is_exit_name strip parse_proxy_uri validate_host_port tun_of with_credentials merge
  generate name uri =
      if is_exit_name name
      then configured name (strip uri) (parse_proxy_uri lib (strip uri))
      else none
