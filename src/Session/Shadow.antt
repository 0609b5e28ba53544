-- ===== src/Session/Shadow.antt =====
-- internal/proxy/adjudicator.go: the values that a shadow statement is run with, and its result.
use dsql_emulator.Prelude.{
  ℕ, zero, suc, ◌-◌, List, [], ◌∷◌, Option, none, some, Text, ℤ, pos, negsuc, atoi, get_elem?,
}
use dsql_emulator.Wire.{Message, Codec}
use dsql_emulator.Session.State.{InFlight, UpstreamMessage, parse, bind, execute, sync}

abbrev or_text : Option ℕ → ℕ
or_text none = 0
or_text (some code) = code

-- `position` counts from 1.
unfoldable pub bind_format : List ℕ → ℕ → ℕ
bind_format [] position = 0
bind_format (code ∷ []) position = code
bind_format (c ∷ d ∷ codes) position = or_text (get_elem? (c ∷ d ∷ codes) (position - 1))

abbrev pub add_param :
    Option (List (Option Text) × List ℕ)
    → Option (Option Text)
    → ℕ
    → Option (List (Option Text) × List ℕ)
add_param none value format = none
add_param (some _) none format = none
add_param (some (values, formats)) (some value) format = some (value ∷ values, format ∷ formats)

-- The bound value at a position from 1, where there is one.
abbrev pub param_at : List (Option Text) → ℤ → Option (Option Text)
param_at params (pos zero) = none
param_at params (pos (suc i)) = get_elem? params i
param_at params (negsuc i) = none

abbrev pub position : ℤ → ℕ
position (pos n) = n
position (negsuc n) = 0

unfoldable pub pick_params :
    List ℤ → List (Option Text) → List ℕ → Option (List (Option Text) × List ℕ)
unfolding bind_format
pick_params [] params codes = some ([], [])
pick_params (p ∷ ps) params codes =
    add_param (pick_params ps params codes) (param_at params p) (bind_format codes (position p))

unfoldable pub shadow_params : InFlight → Option (List (Option Text) × List ℕ)
unfolding pick_params
shadow_params f = pick_params f.intent.params f.params f.param_formats

-- `extendedQuery`: a Parse, a Bind, an Execute and a Sync, all unnamed.
unfoldable pub extended_query : Text → List (Option Text) → List ℕ → List ℕ → List UpstreamMessage
extended_query sql values param_formats result_formats =
    parse (record { name = []; query = sql; rest = [] })
    ∷ bind (record {
      prepared_statement = [];
      parameters = values;
      parameter_format_codes = param_formats;
      result_format_codes = result_formats;
    })
    ∷ execute
    ∷ sync
    ∷ []

-- A NULL is the empty text, which is no number.
abbrev column_text : Option Text → Text
column_text none = []
column_text (some t) = t

abbrev first_column : Option (List (Option Text)) → Option ℤ
first_column none = none
first_column (some []) = none
first_column (some (v ∷ vs)) = atoi (column_text v)

unfoldable pub first_column_int : Codec → Message → Option ℤ
first_column_int c msg = first_column (c.decode_row msg.body)
