-- ===== src/Classify/Levels.antt =====
-- Requests for an isolation level, whatever case they are written in.
use dsql_emulator.Prelude.{
  ◌≡◌, true, List, [], ◌∷◌, arith, is_some, Text, equal_fold, equal_fold_alike, is_nil-equal_fold,
}
use dsql_emulator.Classify.Syntax.{Statement}
use dsql_emulator.Classify.Isolation.{isolation_level, is_supported, unsupported_isolation}

is_supported_alike :
    (supported : List Text) (a b : Text)
    → equal_fold a b ≡ true
    → is_supported supported a ≡ is_supported supported b
unfolding is_supported
is_supported_alike [] a b h = ground arith
is_supported_alike (s ∷ supported) a b h =
    ground (arith, equal_fold_alike s a b h, is_supported_alike supported a b h)

-- Two statements that ask for levels which differ in case at most are both refused for their level, or
-- neither is.
pub unsupported_isolation_alike :
    (s t : Statement) (supported : List Text)
    → equal_fold (isolation_level s) (isolation_level t) ≡ true
    → is_some (unsupported_isolation s supported) ≡ is_some (unsupported_isolation t supported)
unfolding unsupported_isolation
unsupported_isolation_alike s t supported h = ground (
  arith,
  is_nil-equal_fold (isolation_level s) (isolation_level t) h,
  is_supported_alike supported (isolation_level s) (isolation_level t) h,
)
