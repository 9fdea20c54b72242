-- ===== src/SetUp/Rules.antt =====
-- Who may do what under the darcs of a run.
use calypso_experiments.Base.{◌≡◌, ◌≢◌, sym, ◌∙◌, String, [], ◌∷◌, Option, some, ok, >>=-eq-ok}
use Prim.Native.String.{◌++◌ as ◌<>◌}
use calypso_experiments.SetUp.{DarcRules, write_rules}

-- Rules as a map from actions to expressions, to which a rule is added that is not there.
pub record IsMap (R : DarcRules) (rule_of : R.Rules → String → Option R.Expr) : Type 0 where
  pub added :
      (rules rules' : R.Rules) (action : String) (expr : R.Expr)
      → R.add_rule rules action expr ≡ ok rules'
      → rule_of rules' action ≡ some expr
  pub others :
      (rules rules' : R.Rules) (action other : String) (expr : R.Expr)
      → R.add_rule rules action expr ≡ ok rules'
      → action ≢ other
      → rule_of rules' other ≡ rule_of rules other

module _ (R : DarcRules) (rule_of : R.Rules → String → Option R.Expr) (M : IsMap R rule_of) where
  -- Under the rules of `SetupDarcs`, the writer and nobody else spawns writes, and the reader and nobody
  -- else reads, where the two contracts have different names.
  pub write_rules_lem :
      (write_id read_id : String) (writer reader : R.Signer) (rules : R.Rules)
      → ("spawn:" <> write_id) ≢ ("spawn:" <> read_id)
      → write_rules R write_id read_id writer reader ≡ ok rules
      → (rule_of rules ("spawn:" <> write_id) ≡ some (R.or_expr (R.identity writer)))
        × (rule_of rules ("spawn:" <> read_id) ≡ some (R.or_expr (R.identity reader)))
  unfolding write_rules
  write_rules_lem write_id read_id writer reader rules differ made =
      let (first, e, e') =
        >>=-eq-ok
          (R.add_rule (R.init_rules (R.identity writer ∷ []) (R.identity writer ∷ []))
            ("spawn:" <> write_id) (R.or_expr (R.identity writer)))
          _ made in
      (
        M.others first rules _ _ _ e' (λ same. differ (sym same)) ∙ M.added _ first _ _ e,
        M.added first rules _ _ e',
      )
