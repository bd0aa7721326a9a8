-- ===== src/TelegramBot/Callbacks/Safety.antt =====
-- What a button of tgbot.py can start: the branches of `handle_callback`.
pub mod Allowed
pub use Allowed.{MayStart, Runs, SoundStep, SoundChange, Allows}
use gpn.Prelude.{
  ℕ, zero, suc, Bool, true, false, not, ◌&&◌, ◌||◌, List, [], ◌∷◌, ◌++◌, ◌≡◌, ◌≢◌, ◌⊎◌, inl, inr,
  refl, sym, ap, Option, none, some, All, is_empty, drop, Bool-cases, Option-cases, or_parts,
  and_parts, arith, if◌then◌else◌, length, map, ℤ, negsuc, pos, subst,
}
use gpn.Text.{Text, codes, Unicode}
use gpn.Text.Equality.{eqb, eqb_iff, is_in}
use gpn.Text.Number.{int_of}
use gpn.Text.Search.{starts_with}
use gpn.Text.Split.{cut}
use gpn.Regex.{full_match}
use gpn.TelegramBot.Session.{
  Menu, Pending, rule_value, rule_target, World, exit_names, Operation, op_set_exit, op_del_exit,
  op_set_final, op_set_policy, op_add_rule, op_firewall_del_port_key, op_logs,
  op_force_set_dot_domain, op_set_rules, op_del_rule, op_set_dot_domain, op_gfwlist_add,
  op_gfwl_import_set, op_add_exit, op_set_dns, op_firewall_set_note, op_import_ruleset,
  op_firewall_add_port, Effect, perform, send_async, edit_async, Change, become, Outcome,
  valid_rule_target, reserved, rule_types, services, categories,
}
use gpn.TelegramBot.Callbacks.{◌or_else◌, branches, dispatch, or_unknown}
use gpn.TelegramBot.Callbacks.Actions.{
  refuse_with, start, is_port, port_key_re, rule_line, fw_del, port_actions, rule_type, add_chosen,
  choose_target, last_part, quick_add, gfwlist_actions, show_logs, views, set_final, set_exit,
  del_exit, exit_actions, set_policy, set_policy_at, policy_actions, entry_of, nth, category_page,
}
use gpn.TelegramBot.Callbacks.Pages.{navigation, conversations, port_conversations, force_domain}
use Allowed.{
  IsTarget, IsCategory, valid-IsTarget, Fine, Fine-if, Fine-none, Fine-some, Fine-refuse,
  Fine-start, Fine-or_else, reserved_parts, entry_of-IsCategory, ne_of_eqb,
}

module _ ⦃u : Unicode⦄ (w : World) (pending : Option Pending) (last : Option Text) where
  abbrev May : Operation → Type 0
  May = MayStart w pending last

  navigation-Fine : (d : Text) → Fine May (navigation d)
  unfolding navigation
  navigation-Fine d = search (Fine-if, Fine-some, Fine-none) depth 40

  force_domain-May : (l : Option Text) → l ≡ last → All (Runs May) (force_domain l)
  unfolding force_domain
  force_domain-May none e = (tt, tt)
  force_domain-May (some []) e = (tt, tt)
  force_domain-May (some (c ∷ s)) e = (tt, ((sym e, refl), tt))

  conversations-Fine : (d : Text) → Fine May (conversations last d)
  unfolding conversations
  conversations-Fine d =
      let forced : Allows May (Change.keep, force_domain last) = (tt, force_domain-May last refl) in
      search (Fine-if, Fine-some, Fine-none, forced) depth 40

  port_conversations-Fine : (d : Text) → Fine May (port_conversations d)
  unfolding port_conversations
  port_conversations-Fine d = search (Fine-if, Fine-some, Fine-none) depth 40

  fw_del-Fine : (key : Text) → Fine May (fw_del key)
  unfolding fw_del
  fw_del-Fine key =
      Fine-if (not (full_match port_key_re key)) (λ _. Fine-refuse _)
        λ e.
          Fine-if (not (is_port (int_of (cut b'/' key).0))) (λ _. Fine-refuse _)
            λ f.
              Fine-if (eqb key (codes "22/tcp")) (λ _. Fine-refuse _)
                λ g.
                  Fine-start
                    (ground (arith, e), ground (arith, f), ne_of_eqb key (codes "22/tcp") g)

  port_actions-Fine : (d : Text) → Fine May (port_actions d)
  unfolding port_actions
  port_actions-Fine d = search (Fine-if, Fine-some, Fine-none, fw_del-Fine) depth 40

  rule_type-Fine : (typ : Text) → Fine May (rule_type typ)
  unfolding rule_type
  rule_type-Fine typ =
      Fine-if (not (is_in typ rule_types)) (λ _. Fine-refuse _)
        λ e. Fine-some _ (ground (arith, e), (tt, tt))

  add_chosen-Fine :
      (typ value target : Text)
      → pending ≡ some (rule_target typ value)
      → Fine May (add_chosen w typ value target)
  unfolding add_chosen
  add_chosen-Fine typ value target h =
      Fine-if (not (is_in typ rule_types) || is_empty value) (λ _. Fine-refuse _)
        λ e.
          Fine-if (not (valid_rule_target w target)) (λ _. Fine-refuse _)
            λ f. Fine-some _ (
              tt,
              (
                tt,
                (
                  (
                    typ,
                    value,
                    target,
                    h,
                    refl,
                    ground (arith, e),
                    ground (arith, e),
                    valid-IsTarget w target (ground (arith, f)),
                  ),
                  tt,
                ),
              ),
            )

  choose_target-Fine :
      (p : Option Pending) (d : Text) → p ≡ pending → Fine May (choose_target w p d)
  unfolding choose_target
  choose_target-Fine (some (rule_target typ value)) d e =
      add_chosen-Fine typ value (last_part b':' d) (sym e)
  choose_target-Fine _ d e = Fine-refuse _

  quick_add-Fine : (d : Text) → Fine May (quick_add w pending d)
  unfolding quick_add
  quick_add-Fine d =
      let chosen = choose_target-Fine pending d refl in
      search (Fine-if, Fine-some, Fine-none, rule_type-Fine, chosen) depth 40

  gfwlist_actions-Fine : (d : Text) → Fine May (gfwlist_actions d)
  unfolding gfwlist_actions
  gfwlist_actions-Fine d = search (Fine-if, Fine-some, Fine-none) depth 40

  show_logs-Fine : (svc : Text) → Fine May (show_logs svc)
  unfolding show_logs
  show_logs-Fine svc =
      Fine-if (not (is_in svc services)) (λ _. Fine-refuse _) λ e. Fine-start (ground (arith, e))

  views-Fine : (d : Text) → Fine May (views d)
  unfolding views
  views-Fine d = search (Fine-if, Fine-some, Fine-none, show_logs-Fine) depth 40

  set_final-Fine : (t : Text) → Fine May (set_final w t)
  unfolding set_final
  set_final-Fine t =
      Fine-if (not (valid_rule_target w t)) (λ _. Fine-refuse _)
        λ e. Fine-start (valid-IsTarget w t (ground (arith, e)))

  set_exit-Fine : (n : Text) → Fine May (set_exit w n)
  unfolding set_exit
  set_exit-Fine n =
      Fine-if (not (eqb n (codes "local")) && not (is_in n (exit_names w))) (λ _. Fine-refuse _)
        λ e. Fine-start (known e)
    where
      known :
          (not (eqb n (codes "local")) && not (is_in n (exit_names w))) ≡ false
          → MayStart w pending last (op_set_exit n)
      known e = elim (Bool-cases (eqb n (codes "local"))) [
        | inl f ↦ inl (inr ((eqb_iff n (codes "local")).0 f))
        | inr f ↦ inr (ground (arith, e, f))
      ]

  del_exit-Fine : (n : Text) → Fine May (del_exit w n)
  unfolding del_exit
  del_exit-Fine n =
      Fine-if (is_in n reserved || not (is_in n (exit_names w))) (λ _. Fine-refuse _)
        λ e.
          let (a, b) = reserved_parts w n (ground (arith, e)) in
          Fine-start (ground (arith, e), a, b)

  exit_actions-Fine : (d : Text) → Fine May (exit_actions w d)
  unfolding exit_actions
  exit_actions-Fine d =
      let smart : May (op_set_exit (codes "smart")) = inl (inl refl) in
      search (Fine-if, Fine-some, Fine-none, set_final-Fine, set_exit-Fine, del_exit-Fine, smart)
        depth 40

  set_policy-Fine :
      (o : Option (ℕ × Text)) (t : Text)
      → ((n : ℕ) (c : Text) → o ≡ some (n, c) → IsCategory c (categories w))
      → Fine May (set_policy w o t)
  unfolding set_policy
  set_policy-Fine none t h = Fine-refuse _
  set_policy-Fine (some (n, c)) t h =
      Fine-if (valid_rule_target w t) (λ e. Fine-start (h n c refl, valid-IsTarget w t e))
        (λ _. Fine-refuse _)

  set_policy_at-Fine : (p : Text × Option Text) → Fine May (set_policy_at w p)
  unfolding set_policy_at
  set_policy_at-Fine (number, none) = Fine-refuse _
  set_policy_at-Fine (number, some t) =
      set_policy-Fine (entry_of (int_of number) (categories w)) t
        (entry_of-IsCategory (int_of number) (categories w))

  policy_actions-Fine : (d : Text) → Fine May (policy_actions w d)
  unfolding policy_actions
  policy_actions-Fine d =
      Fine-if (starts_with (codes "pol:") d)
        (λ _. page (entry_of (int_of (cut b':' (drop 4 d)).0) (categories w)))
        λ _.
          Fine-if (starts_with (codes "ps:") d) (λ _. set_policy_at-Fine (cut b':' (drop 3 d)))
            (λ _. Fine-none)
    where
      page : (o : Option (ℕ × Text)) → Fine May (category_page o)
      page none = Fine-refuse _
      page (some (i, c)) = Fine-some _ (tt, (tt, tt))

  branches-Fine : (d : Text) → Fine May (branches w pending last d)
  unfolding branches
  branches-Fine d = Fine-or_else (navigation-Fine d) (
      Fine-or_else (conversations-Fine d) (
        Fine-or_else (port_conversations-Fine d) (
          Fine-or_else (port_actions-Fine d) (
            Fine-or_else (quick_add-Fine d) (
              Fine-or_else (gfwlist_actions-Fine d) (
                Fine-or_else (views-Fine d)
                  (Fine-or_else (exit_actions-Fine d) (policy_actions-Fine d))))))))

  -- Whatever a button's text is, the branch that it takes starts only operations that are
  -- allowed, and leaves a sound step.
  pub dispatch-Allows : (d : Text) → Allows May (dispatch w pending last d)
  unfolding dispatch
  dispatch-Allows d = known (branches w pending last d) (branches-Fine d)
    where
      known : (o : Option Outcome) → Fine May o → Allows May (or_unknown o)
      known none h = (tt, (tt, tt))
      known (some o) h = h.holds
