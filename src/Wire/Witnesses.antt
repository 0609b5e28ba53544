-- ===== src/Wire/Witnesses.antt =====
-- The theorems on frames at concrete bytes.
use dsql_emulator.Prelude.{
  ℕ, ◌≡◌, ◌≤◌, refl, List, [], ◌∷◌, ◌++◌, map, Text, length, lit, arith, false, text_eq,
}
use dsql_emulator.Wire.{Message}
use dsql_emulator.Wire.Framing.{got, read_tagged, read_all, read_full, max_message_length, uint32}
use dsql_emulator.Wire.Startup.{StartupMessage, look_up, with_parameters}
use dsql_emulator.Wire.Parameters.{appended, options_key, with_parameters_kept}
use dsql_emulator.Wire.Frames.{
  frame, framed, stream, IsHeaderOf, read_tagged-frame, read_tagged_verbatim, read_all-stream,
}

read_tagged-frame_example :
    read_tagged (frame b'Q' (lit "BEGIN") ++ frame b'X' [])
    ≡ got (framed (b'Q', lit "BEGIN")) (frame b'X' [])
unfolding lit
read_tagged-frame_example = read_tagged-frame b'Q' (lit "BEGIN") (frame b'X' []) (ground arith)

-- A Sync, and the first byte of another message.
abbrev sync_and_more : Text
sync_and_more = b'S' ∷ 0 ∷ 0 ∷ 0 ∷ 4 ∷ b'X' ∷ []

abbrev sync : Message
sync = record { tag = b'S'; body = []; raw = b'S' ∷ 0 ∷ 0 ∷ 0 ∷ 4 ∷ [] }

read_tagged_verbatim_example :
    (sync_and_more ≡ sync.raw ++ b'X' ∷ [])
    × ((header : Text) × IsHeaderOf sync header × (sync.raw ≡ header ++ sync.body))
    × (length sync.body ≤ 268435452)
unfolding read_tagged read_full max_message_length uint32
read_tagged_verbatim_example = read_tagged_verbatim sync_and_more {m = sync} {rest = b'X' ∷ []} refl

abbrev items : List (ℕ × Text)
items = (b'P', 0 ∷ 0 ∷ []) ∷ (b'S', []) ∷ []

read_all-stream_example : read_all 5 (stream items) ≡ map framed items
read_all-stream_example = read_all-stream items 5 (ground arith, (ground arith, tt)) (ground arith)

-- An SSLRequest.
abbrev ssl_request : Text
ssl_request = 4 ∷ 210 ∷ 22 ∷ 47 ∷ []

-- A client that asks for a search path and an option of its own.
abbrev asked_for : StartupMessage
asked_for = record {
  rest = [];
  parameters = (lit "user", lit "admin") ∷ (options_key, lit "-c a=1") ∷ [];
}

with_parameters_kept_example :
    let ps =
      (with_parameters ((lit "iso", lit "rr") ∷ []) (lit "-c b=2" ∷ []) asked_for).parameters in
    (look_up (lit "iso") ps ≡ lit "rr")
    × (look_up options_key ps
        ≡ appended (look_up options_key asked_for.parameters) (lit "-c b=2" ∷ []))
    × ((key : Text)
        → text_eq (lit "iso") key ≡ false
        → text_eq options_key key ≡ false
        → look_up key ps ≡ look_up key asked_for.parameters)
unfolding lit text_eq
with_parameters_kept_example =
    with_parameters_kept (lit "iso") (lit "rr") (lit "-c b=2" ∷ []) asked_for refl refl
