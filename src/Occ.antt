-- ===== src/Occ.antt =====
-- internal/occ/occ.go: what a statement would have answered had it not been refused a lock.
pub mod Renumber
pub mod Tree
pub mod Analyze
pub mod Relabelled
pub mod Positions
mod Witnesses
use dsql_emulator.Prelude.{Bool, ◌||◌, List, ◌++◌, Text, lit, text_eq, ℤ, show_int, if◌then◌else◌}

unfoldable pub code_lock_timeout : Text
code_lock_timeout = lit "55P03"

unfoldable pub code_serialization : Text
code_serialization = lit "40001"

unfoldable pub is_conflict : Text → Bool
is_conflict code = text_eq code code_lock_timeout || text_eq code code_serialization

-- `rows` is -1 where the shadow has to be run to find it; the parameters are positions from 1.
pub record Intent : Type 0 where
  pub tag : Text
  pub rows : ℤ
  pub shadow : Text
  pub rowset : Bool
  pub params : List ℤ

unfoldable pub command_tag : Intent → ℤ → Text
command_tag i rows =
    if text_eq i.tag (lit "INSERT")
    then lit "INSERT 0 " ++ show_int rows
    else i.tag ++ (lit " " ++ show_int rows)
