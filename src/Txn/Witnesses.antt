-- ===== src/Txn/Witnesses.antt =====
-- The theorems on internal/txn/txn.go at concrete sessions.
use dsql_emulator.Prelude.{ℕ, ◌≡◌, refl, true, false, not, List, [], ◌∷◌, some, is_some, arith}
use dsql_emulator.Kind.{Kind, select, dml, ddl, begin, commit}
use dsql_emulator.Txn.{Limits, Tracker, new, check, admit, run}
use dsql_emulator.Txn.Segments.{all_lawful, segments, lawful, ddls, dmls, check-lawful}
use dsql_emulator.Txn.Batch.{IsExclusive, run-IsExclusive}
use dsql_emulator.Txn.History.{
  History, verdicts, refusals, Tracks, refuses, replay, run-Tracks, admit-refuses,
}

abbrev limits : Limits
limits = record { max_age = 300 }

-- A transaction that began at 5 and has run a DML statement.
abbrev writing : Tracker
writing = record {
  limits = limits;
  in_txn = true;
  began_at = some 5;
  ddl_count = 0;
  dml_seen = true;
}

abbrev written : History
written = record {
  is_open = true;
  began = some 5;
  max_age = 300;
  piece = begin ∷ select ∷ dml ∷ [];
}

writing-Tracks : Tracks writing written
unfolding lawful ddls dmls
writing-Tracks = ground arith

abbrev batches : List (List Kind × ℕ)
batches = (dml ∷ [], 7) ∷ (ddl ∷ [], 8) ∷ (commit ∷ ddl ∷ [], 9) ∷ []

run-Tracks_example :
    Tracks (run writing batches) (replay written batches)
    × (verdicts writing batches ≡ refusals written batches)
run-Tracks_example = run-Tracks writing written batches writing-Tracks

admit-refuses_example : is_some (admit writing (ddl ∷ []) 9).1 ≡ refuses written (ddl ∷ []) 9
admit-refuses_example = admit-refuses writing written (ddl ∷ []) 9 writing-Tracks

check-lawful_example :
    is_some (check 1 false (select ∷ commit ∷ ddl ∷ dml ∷ []))
    ≡ not (all_lawful (segments (ddl ∷ []) (select ∷ commit ∷ ddl ∷ dml ∷ [])))
unfolding lawful ddls dmls
check-lawful_example =
    check-lawful (ddl ∷ []) (select ∷ commit ∷ ddl ∷ dml ∷ []) 1 false refl refl refl

run-IsExclusive_example : IsExclusive (run (new limits) batches)
run-IsExclusive_example = run-IsExclusive limits batches
