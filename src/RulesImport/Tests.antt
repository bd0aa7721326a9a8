-- ===== src/RulesImport/Tests.antt =====
-- Runs of the definitions of `RulesImport` on concrete lists and on a small network.
use gpn.Prelude.{refl, All, ◌∷◌, ◌++◌, ◌≡◌, [], some, none, map, inl, true}
use gpn.Text.Equality.{eqb}
use gpn.Text.Search.{has}
use gpn.RulesImport.Convert.{is_comment, line_type}
use gpn.Text.{Text, codes, ascii}
use gpn.RulesImport.Category.{Selection}
use gpn.RulesImport.Convert.{Import, convert, convert_lines}
use gpn.RulesImport.Convert.Counts.{IsCounted, considered, convert-IsCounted}
use gpn.RulesImport.Convert.Errors.{is_unreadable, convert_fails_iff}
use gpn.RulesImport.Convert.Lines.{BothAgree, without_and, convert-without_and}
use gpn.Text.Strip.{strip}
use gpn.Text.Split.{join, file_lines}
use gpn.RulesImport.Csv.{csv_split}
use gpn.RulesImport.Logical.RoundTrip.{parse_logical-group, other, nil, group}
use gpn.RulesImport.Sorting.Order.{IsIncreasing, Occurs}
use gpn.RulesImport.Lists.{parse_clash_yaml, parse_plain_list}
use gpn.RulesImport.Remote.{imported_rules, listed_domains, clash, csv, plain}
use gpn.RulesImport.Convert.Rules.{IsGatewayRule, convert-IsGatewayRule}
use gpn.RulesImport.Csv.RoundTrip.{IsField, csv_split-join}
use gpn.RulesImport.Logical.{parse_logical}
use gpn.RulesImport.Sorting.{sorted_set}
use gpn.RulesImport.Lists.WellFormed.{IsSimpleRule, parse-IsSimpleRule}
use gpn.RulesImport.Remote.Extract.{extract-clash, extract-csv}
use gpn.RulesImport.Matchers.{is_domain}
use gpn.RulesImport.Remote.Imported.{imported-category}

abbrev names : Selection
names = record { keep = codes "Video" ∷ []; direct = codes "lan" ∷ [] }

abbrev list_file : Text
list_file =
    codes "# a list\nDOMAIN-SUFFIX,a.com,Video,no-resolve\nAND,((DOMAIN,b.com),(DST-PORT,80)),x\n"
    ++ codes "OR,((DOMAIN,c.com),(IP-CIDR6,fd00::/8)),LAN\nUSER-AGENT,x,y\nFINAL,proxy"

abbrev list_import : Import
list_import = record {
  rules =
      codes "DOMAIN-SUFFIX,a.com,Video"
      ∷ codes "DOMAIN,c.com,direct"
      ∷ codes "IP-CIDR,fd00::/8,direct"
      ∷ codes "FINAL,Proxy"
      ∷ [];
  cats = codes "Video" ∷ codes "direct" ∷ codes "Proxy" ∷ [];
  final = some (codes "Proxy");
  dropped = 2;
  flattened = 1;
  and_dropped = 1;
}

convert-list_file : convert ⦃u = ascii⦄ names list_file ≡ some list_import
unfolding convert join
convert-list_file = refl

convert-IsGatewayRule_example : All (IsGatewayRule list_import.cats) list_import.rules
convert-IsGatewayRule_example =
    convert-IsGatewayRule ⦃u = ascii⦄ names list_file list_import convert-list_file

convert-IsCounted_example : IsCounted (considered (file_lines list_file)) list_import
convert-IsCounted_example =
    convert-IsCounted ⦃u = ascii⦄ names list_file list_import convert-list_file

abbrev open_or : Text
open_or = codes "DOMAIN,a.com,x\nOR,DOMAIN,b.com\n"

convert_fails_iff_example : convert ⦃u = ascii⦄ names open_or ≡ none
unfolding is_unreadable file_lines is_comment strip eqb line_type has
convert_fails_iff_example = (convert_fails_iff ⦃u = ascii⦄ names open_or).1 refl

convert-without_and_example :
    BothAgree
      (convert ⦃u = ascii⦄ names list_file)
      (convert_lines ⦃u = ascii⦄ names (without_and ⦃u = ascii⦄ names (file_lines list_file)))
convert-without_and_example = convert-without_and ⦃u = ascii⦄ names list_file

lan-IsField : IsField (codes "LAN")
unfolding strip
lan-IsField = record { plain = (refl, (refl, (refl, tt))); stripped = refl }

one-IsField : IsField (codes "a b")
unfolding strip
one-IsField = record { plain = (refl, (refl, (refl, tt))); stripped = refl }

csv_split-join_example :
    csv_split (codes "LAN,a b,LAN") ≡ codes "LAN" ∷ codes "a b" ∷ codes "LAN" ∷ []
unfolding join has
csv_split-join_example =
    csv_split-join (codes "LAN") (codes "a b" ∷ codes "LAN" ∷ [])
      (lan-IsField, (one-IsField, (lan-IsField, tt)))

-- a field that is no plain one: the quotes fall away, and the comma between them stays
csv_split-quoted : csv_split (codes "a,\"b,c\",d") ≡ codes "a" ∷ codes "b,c" ∷ codes "d" ∷ []
unfolding csv_split
csv_split-quoted = refl

parse_logical-group_example :
    parse_logical (codes "OR,((A,b),((x))),LAN")
    ≡ some (codes "A,b" ∷ codes "(x)" ∷ [], some (codes "LAN"))
unfolding join has
parse_logical-group_example =
    parse_logical-group (codes "OR,") (codes "A,b") (codes "(x)" ∷ []) b'L' (codes "AN") refl
      (
        other b'A' refl (other b',' refl (other b'b' refl nil)),
        (group {a = codes "x"} {b = []} (other b'x' refl nil) nil refl, tt),
      )
      lan-IsField

abbrev yaml_list : Text
yaml_list = codes "payload:\n  - IP-CIDR,1.2.3.0/24\n  - '+.a.com'\n"

abbrev plain_list : Text
plain_list = codes "# x\na.com\n.b.com\n10.0.0.0/8\n"

parse_clash_yaml-yaml_list :
    parse_clash_yaml ⦃u = ascii⦄ yaml_list
    ≡ codes "IP-CIDR,1.2.3.0/24" ∷ codes "DOMAIN-SUFFIX,a.com" ∷ []
unfolding parse_clash_yaml
parse_clash_yaml-yaml_list = refl

parse-IsSimpleRule_example :
    All IsSimpleRule (parse_clash_yaml ⦃u = ascii⦄ yaml_list)
    × All IsSimpleRule (parse_plain_list ⦃u = ascii⦄ plain_list)
parse-IsSimpleRule_example = parse-IsSimpleRule ⦃u = ascii⦄ yaml_list plain_list

extract-csv_example :
    IsIncreasing (sorted_set (listed_domains ⦃u = ascii⦄ csv list_file))
    × ((d : Text)
        → (Occurs d (sorted_set (listed_domains ⦃u = ascii⦄ csv list_file)) → is_domain d ≡ true)
          × (Occurs d (listed_domains ⦃u = ascii⦄ csv list_file)
              → Occurs d (sorted_set (listed_domains ⦃u = ascii⦄ csv list_file))))
extract-csv_example = extract-csv ⦃u = ascii⦄ list_file

extract-clash_example :
    Occurs (strip (codes "1.2.3.0/24")) (sorted_set (listed_domains ⦃u = ascii⦄ clash yaml_list))
unfolding parse_clash_yaml
extract-clash_example =
    extract-clash ⦃u = ascii⦄ yaml_list (codes "IP-CIDR") (codes "1.2.3.0/24") refl (inl refl)

imported-category_example :
    (imported_rules ⦃u = ascii⦄ clash (codes "Video") yaml_list
      ≡ map (λ r. r ++ b',' ∷ codes "Video") (parse_clash_yaml ⦃u = ascii⦄ yaml_list))
    × (imported_rules ⦃u = ascii⦄ plain (codes "Video") yaml_list
        ≡ map (λ r. r ++ b',' ∷ codes "Video") (parse_plain_list ⦃u = ascii⦄ yaml_list))
imported-category_example = imported-category ⦃u = ascii⦄ (codes "Video") yaml_list
