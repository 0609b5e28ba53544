-- ===== src/Session/Adjudicator/Savepoint.antt =====
-- internal/proxy/adjudicator.go: the savepoint before a statement, and the statement in flight.
use dsql_emulator.Prelude.{
  ℕ, ◌+◌, Bool, true, false, ◌||◌, List, [], ◌∷◌, Option, none, some, ltb, ◌==◌, if◌then◌else◌,
  Text, lit, is_nil,
}
use dsql_emulator.Kind.{Kind, begin, commit, rollback}
use dsql_emulator.Wire.{Bind}
use dsql_emulator.Occ.{Intent}
use dsql_emulator.Session.State.{Session, InFlight, savepoint, query}
use dsql_emulator.Session.Output.{write_upstream_exchange}

unfoldable pub savepoint_query : Text
savepoint_query = lit "SAVEPOINT dsql_occ"

unfoldable pub rollback_to_query : Text
rollback_to_query = lit "ROLLBACK TO SAVEPOINT dsql_occ"

unfoldable pub restart_query : Text
restart_query = lit "ROLLBACK; BEGIN"

-- `noteTxStatus`.
unfoldable pub note_tx_status : Session → ℕ → Session
note_tx_status s status =
    if status == b'I'
    then record s {
      occ_savepoint = false;
      occ_doomed = false;
      occ_in_flight = none;
      occ_txn_statements = 0;
    }
    else s

unfoldable pub has_control : List Kind → Bool
has_control [] = false
has_control (begin ∷ ks) = true
has_control (commit ∷ ks) = true
has_control (rollback ∷ ks) = true
has_control (_ ∷ ks) = has_control ks

unfoldable pub count_txn_statement : Session → List Kind → Session
count_txn_statement s kinds =
    if has_control kinds
    then record s { occ_txn_statements = 0 }
    else record s { occ_txn_statements = s.occ_txn_statements + 1 }

-- The result tells whether the transaction now carries a savepoint. A savepoint goes out only where
-- nothing is unanswered and no extended batch is open.
unfoldable pub establish_savepoint : Session → Session × Bool
unfolding write_upstream_exchange
establish_savepoint s =
    if s.occ_savepoint
    then (s, true)
    else if ltb 0 s.pending_exchanges || s.extended_batch_open
    then (s, false)
    else (
      write_upstream_exchange (record s { occ_savepoint = true; hidden = some (savepoint false) })
          (query savepoint_query),
      true,
    )

abbrev unnamed : Option Bind → Bool
unnamed none = false
unnamed (some b) = is_nil b.prepared_statement

unfoldable pub savepoint_ready : Session → Option Bind → Session × Bool
unfolding establish_savepoint
savepoint_ready s b =
    if s.occ_savepoint then (s, true) else if unnamed b then (s, false) else establish_savepoint s

abbrev flight_of : Intent → Option Bind → Option InFlight
flight_of i none =
    if is_nil i.params
    then some
        (record { intent = i; extended = false; formats = []; params = []; param_formats = [] })
    else none
flight_of i (some b) = some (record {
  intent = i;
  extended = true;
  formats = b.result_format_codes;
  params = b.parameters;
  param_formats = b.parameter_format_codes;
})

abbrev pub flight : Option Intent → Option Bind → Option InFlight
flight none b = none
flight (some i) b = flight_of i b

unfoldable pub set_in_flight : Session → Option Intent → Option Bind → Session
set_in_flight s intent b = record s { occ_in_flight = flight intent b }

unfoldable pub arm_adjudicator : Session → Option Intent → Option Bind → Session
unfolding savepoint_ready set_in_flight
arm_adjudicator s none b = set_in_flight s none none
arm_adjudicator s (some i) b = set_in_flight (savepoint_ready s b).0 (some i) b
