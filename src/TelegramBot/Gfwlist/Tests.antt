-- ===== src/TelegramBot/Gfwlist/Tests.antt =====
-- A small file of additional domains.
use gpn.Prelude.{[], ◌∷◌, ◌≡◌, refl, Option, none, some, if◌then◌else◌}
use gpn.Text.Split.{is_line_end}
use gpn.Text.{Text, codes, ascii, lower}
use gpn.Text.Strip.{strip}
use gpn.TelegramBot.Disk.{complete, torn}
use gpn.Regex.{full_match}
use gpn.TelegramBot.Gfwlist.{
  read_gfwlist_extra, op_gfwlist_add, normal_domain, written, extra_domain, file_after,
  extra_domain_re, op_gfwlist_del, without,
}
use gpn.TelegramBot.Gfwlist.Refines.{
  ReadsAs, append_new, op_gfwlist_del-refines, op_gfwlist_add-refines,
}

abbrev domains_txt : Option Text
domains_txt = some (codes "# mine\na.com\n\n b.com\n")

abbrev no_host : Text → Option (Option Text)
no_host s = none

read-two : read_gfwlist_extra domains_txt ≡ codes "a.com" ∷ codes "b.com" ∷ []
unfolding read_gfwlist_extra
read-two = refl

add-one :
    op_gfwlist_add ⦃u = ascii⦄ no_host domains_txt (codes " WWW.c.com./x ")
    ≡ written (codes "a.com" ∷ codes "b.com" ∷ codes "c.com" ∷ [])
unfolding op_gfwlist_add
add-one = refl

-- a write that breaks off behind the first domain
torn-first :
    read_gfwlist_extra (
      file_after
        (torn 7)
        domains_txt
        (op_gfwlist_add ⦃u = ascii⦄ no_host domains_txt (codes "c.com")))
    ≡ codes "a.com" ∷ codes "b" ∷ []
unfolding op_gfwlist_add file_after read_gfwlist_extra
torn-first = refl

op_gfwlist_add-refines_example :
    let d = normal_domain ⦃u = ascii⦄ (extra_domain ⦃u = ascii⦄ no_host (codes " WWW.c.com./x ")) in
    let old = read_gfwlist_extra domains_txt in
    ReadsAs complete old (if full_match extra_domain_re d then append_new d old else old) (
      file_after complete domains_txt
        (op_gfwlist_add ⦃u = ascii⦄ no_host domains_txt (codes " WWW.c.com./x ")))
unfolding normal_domain extra_domain is_line_end
op_gfwlist_add-refines_example =
    op_gfwlist_add-refines ⦃u = ascii⦄ no_host complete domains_txt (codes " WWW.c.com./x ")
      (refl, (refl, (refl, (refl, (refl, tt)))))

op_gfwlist_del-refines_example :
    ReadsAs complete
      (read_gfwlist_extra domains_txt)
      (without ⦃u = ascii⦄
        (lower ⦃u = ascii⦄ (strip (codes "A.com")))
        (read_gfwlist_extra domains_txt))
      (file_after complete domains_txt (op_gfwlist_del ⦃u = ascii⦄ domains_txt (codes "A.com")))
op_gfwlist_del-refines_example =
    op_gfwlist_del-refines ⦃u = ascii⦄ complete domains_txt (codes "A.com")
