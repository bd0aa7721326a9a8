-- ===== src/SingboxConfig/Generate.antt =====
-- `main` of singbox-exit-config.py.
pub mod Bound
pub mod Valid
use gpn.Prelude.{
  Bool, true, false, not, List, [], ◌∷◌, ◌++◌, Option, none, some, is_empty, ℤ, pos, if◌then◌else◌,
}
use gpn.Prelude.Dict.{Dict, get, put}
use gpn.Text.{Text, codes, Unicode}
use gpn.Text.Equality.{is_in}
use gpn.Text.Number.{int_of}
use gpn.Text.Strip.{strip}
use gpn.ExitConfig.Library.{Value, text, number, flag, single, Library}
use gpn.ExitConfig.Links.{Proxied, put_if}
use gpn.ExitConfig.Generate.{Env, is_exit_name, uses_remote_dns}
use gpn.SingboxConfig.Outbounds.{parse_proxy_uri}

-- the parts of the configuration that depend on the arguments, and the final route
pub record Config : Type 0 where
  pub inbound : Dict Value
  pub outbounds : List (Dict Value)
  pub final : Text

-- `outbound.get("type") in ("socks", "http")`
abbrev pub is_login : Option Value → Bool
is_login (some (text t)) = is_in t (codes "socks" ∷ codes "http" ∷ [])
is_login _ = false

-- the two overrides
unfoldable pub with_login : Env → Dict Value → Dict Value
unfolding get put is_in
with_login env d =
    if is_login (get (codes "type") d)
    then put_if (not (is_empty env.password)) (codes "password") (text env.password)
        (put_if (not (is_empty env.user)) (codes "username") (text env.user) d)
    else d

module _ ⦃u : Unicode⦄ where
  abbrev mtu_or : Option ℤ → ℤ
  mtu_or none = pos 1400
  mtu_or (some z) = z

  unfoldable pub inbound_of : Env → Text → Text → Dict Value
  unfolding uses_remote_dns int_of put
  inbound_of env name uri =
      put_if (uses_remote_dns env uri) (codes "sniff_override_destination") (flag true) (
        (codes "type", text (codes "tun"))
        ∷ (codes "tag", text (codes "pgw-in"))
        ∷ (codes "interface_name", text (codes "pgw-" ++ name))
        ∷ (codes "address", single (text (codes "172.19.0.1/30")))
        ∷ (codes "mtu", number (mtu_or (int_of env.mtu)))
        ∷ (codes "auto_route", flag false)
        ∷ (codes "strict_route", flag false)
        ∷ (codes "stack", text env.stack)
        ∷ (codes "sniff", flag (uses_remote_dns env uri))
        ∷ [])

module _ ⦃u : Unicode⦄ (lib : Library) (env : Env) where
  abbrev pub configured : Text → Text → Option Proxied → Option Config
  configured name uri none = none
  configured name uri (some (d, host, port)) = some (record {
    inbound = inbound_of env name uri;
    outbounds = with_login env d ∷ [];
    final = codes "out";
  })

  -- `main`; `none` where the program ends with an error
  unfoldable pub generate : Text → Text → Option Config
  unfolding is_exit_name strip parse_proxy_uri inbound_of with_login
  generate name uri =
      if is_exit_name name
      then configured name (strip uri) (parse_proxy_uri lib (strip uri))
      else none
