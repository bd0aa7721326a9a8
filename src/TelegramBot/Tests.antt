-- ===== src/TelegramBot/Tests.antt =====
-- Edits of a small rules file.
use gpn.Prelude.{refl, ◌≡◌}
use gpn.Text.Split.{is_line_end}
use gpn.Prelude.{List, [], ◌∷◌}
use gpn.TelegramBot.Names.{unique_exit_name, IsFresh, unique_exit_name-IsFresh, parse_exit_names}
use gpn.Prelude.{some}
use gpn.Text.{Text, codes, ascii}
use gpn.Text.Number.{int_of}
use gpn.Text.Split.{splitlines, is_line_end}
use gpn.Text.Strip.{strip}
use gpn.Text.Search.{starts_with}
use gpn.Text.{upper}
use gpn.TelegramBot.Rules.{
  set_rules, empty_text, out_of_range, op_del_rule, op_set_final, op_add_rule, final_target,
}
use gpn.TelegramBot.Rules.Deletion.{IsDeletion, op_del_rule-IsDeletion}
use gpn.TelegramBot.Rules.Final.{op_set_final-final_target}

abbrev rules_txt : Text
rules_txt = codes "# mine\nDOMAIN,a.com,x\n\nGEOIP,cn,direct\nfinal,us"

op_del_rule-second :
    op_del_rule ⦃u = ascii⦄ rules_txt (codes " 2 ")
    ≡ set_rules (codes "# mine\nDOMAIN,a.com,x\n\nfinal,us\n")
unfolding op_del_rule
op_del_rule-second = refl

-- the only rule of a file
op_del_rule-only : op_del_rule ⦃u = ascii⦄ (codes "DOMAIN,a.com,x") (codes "1") ≡ empty_text
unfolding op_del_rule
op_del_rule-only = refl

op_del_rule-none : op_del_rule ⦃u = ascii⦄ rules_txt (codes "4") ≡ out_of_range
unfolding op_del_rule
op_del_rule-none = refl

op_set_final-jp :
    op_set_final ⦃u = ascii⦄ rules_txt (codes "jp")
    ≡ set_rules (codes "# mine\nDOMAIN,a.com,x\nGEOIP,cn,direct\nFINAL,jp\n")
unfolding op_set_final strip upper starts_with
op_set_final-jp = refl

op_add_rule-one :
    op_add_rule (codes "a,b,c\n") (codes " d,e,f ") ≡ set_rules (codes "a,b,c\nd,e,f\n")
unfolding op_add_rule
op_add_rule-one = refl

op_del_rule-IsDeletion_example :
    IsDeletion 1 (splitlines rules_txt) (op_del_rule ⦃u = ascii⦄ rules_txt (codes "2"))
unfolding int_of
op_del_rule-IsDeletion_example = op_del_rule-IsDeletion ⦃u = ascii⦄ rules_txt (codes "2") 1 refl

abbrev taken : List Text
taken = codes "local" ∷ codes "us" ∷ []

unique_exit_name-us : unique_exit_name ⦃u = ascii⦄ (λ s. s) taken (codes " us! ") ≡ codes "us-2"
unfolding unique_exit_name
unique_exit_name-us = refl

unique_exit_name-IsFresh_example :
    IsFresh ⦃u = ascii⦄ taken (unique_exit_name ⦃u = ascii⦄ (λ s. s) taken (codes " us! "))
unique_exit_name-IsFresh_example =
    unique_exit_name-IsFresh ⦃u = ascii⦄ (λ s. s) taken (codes " us! ")

parse_exit_names-three :
    parse_exit_names
      (some (codes "us.type" ∷ codes "us.yaml" ∷ []))
      (some (codes "pgw-de.conf" ∷ []))
    ≡ codes "local" ∷ codes "de" ∷ codes "us" ∷ []
unfolding parse_exit_names
parse_exit_names-three = refl

op_set_final-final_target_example :
    (new : Text) × (op_set_final ⦃u = ascii⦄ rules_txt (codes "jp") ≡ set_rules new)
    × (final_target ⦃u = ascii⦄ (splitlines (strip new)) ≡ some (strip (codes "jp")))
unfolding strip is_line_end
op_set_final-final_target_example =
    op_set_final-final_target ⦃u = ascii⦄ (codes "jp")
      (refl, (refl, (refl, (refl, (refl, (refl, (refl, (refl, (refl, tt)))))))), refl) rules_txt
