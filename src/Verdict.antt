-- ===== src/Verdict.antt =====
-- internal/classify/classify.go: what the classifier answers.
use dsql_emulator.Prelude.{Bool, not, List, Text, is_nil}
use dsql_emulator.Kind.{Kind}

pub record Verdict : Type 0 where
  pub rule_id : Text
  pub code : Text
  pub message : Text

abbrev pub rejected : Verdict → Bool
rejected v = not (is_nil v.code)

pub record Result : Type 0 where
  pub verdict : Verdict
  pub kinds : List Kind
  pub tables : List Text
