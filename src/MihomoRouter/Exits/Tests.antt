-- ===== src/MihomoRouter/Exits/Tests.antt =====
-- A directory of exits.
use gpn.Prelude.{refl, true, false, ◌≡◌, none, some, [], ◌∷◌, pos}
use gpn.Text.{codes, ascii}
use gpn.Text.Equality.{eqb}
use gpn.ExitConfig.Library.{text, number, Library}
use gpn.MihomoRouter.Exits.{Exits, load_exit_proxy, wg_to_proxy, wg_proxy}
use gpn.MihomoRouter.Exits.Names.{IsLoaded, IsSpelling, load_exit_proxy-IsLoaded}

abbrev no_library : Library
no_library = record {
  urlparse = λ s. none;
  parse_qs = λ q. [];
  unquote = λ s. s;
  urlsafe_b64decode = λ s. none;
  b64decode = λ s. none;
  loads = λ s. none;
  is_address = λ v. false;
  other_is_true = λ s. true;
  other_int = λ s. none;
  other_str = λ s. s;
}

-- one YAML exit, with capital letters in its file's name
abbrev exits_dir : Exits
exits_dir = record {
  listing = some (codes "US.yaml" ∷ []);
  exists_file = λ f. eqb f (codes "US.yaml");
  yaml_proxies =
      λ f. some (((codes "name", text (codes "x")) ∷ (codes "type", text (codes "ss")) ∷ []) ∷ []);
  first_outbound = λ f. none;
  wg_file = λ f. none;
}

load_exit_proxy-us :
    load_exit_proxy ⦃u = ascii⦄ no_library exits_dir (codes "us")
    ≡ some (some ((codes "name", text (codes "US")) ∷ (codes "type", text (codes "ss")) ∷ []))
unfolding load_exit_proxy
load_exit_proxy-us = refl

wg_to_proxy-file :
    wg_to_proxy ⦃u = ascii⦄ (codes "w") (
      codes
        "[Interface]\nPrivateKey = k= # x\nMTU=1300\n[Peer]\nPublicKey=p\nEndpoint = 1.2.3.4:51\n")
    ≡ some (
        (codes "name", text (codes "w"))
        ∷ (codes "type", text (codes "wireguard"))
        ∷ (codes "server", text (codes "1.2.3.4"))
        ∷ (codes "port", number (pos 51))
        ∷ (codes "ip", text (codes "172.19.0.2/32"))
        ∷ (codes "private-key", text (codes "k="))
        ∷ (codes "public-key", text (codes "p"))
        ∷ (codes "mtu", number (pos 1300))
        ∷ [])
unfolding wg_to_proxy wg_proxy
wg_to_proxy-file = refl

load_exit_proxy-IsLoaded_example :
    IsLoaded
      (IsSpelling ⦃u = ascii⦄ no_library exits_dir (codes "us"))
      (load_exit_proxy ⦃u = ascii⦄ no_library exits_dir (codes "us"))
load_exit_proxy-IsLoaded_example =
    load_exit_proxy-IsLoaded ⦃u = ascii⦄ no_library exits_dir (codes "us")
