-- ===== src/Wire.antt =====
-- internal/wire: framed messages, and the decoding of those that a client sends.
-- The codec of pgproto3 is a parameter: `Codec` has its decoders, and tests for whether it can encode
-- what the source changed. Of a message it has the fields that the source reads or writes; `rest`
-- stands for the others.
pub mod Framing
pub mod Frames
pub mod Startup
pub mod Parameters
mod Witnesses
use dsql_emulator.Prelude.{ℕ, Bool, ◌||◌, List, Option, none, some, Text, ◌==◌, if◌then◌else◌}

pub record Message : Type 0 where
  pub tag : ℕ
  pub body : Text
  pub raw : Text

pub record Parse : Type 0 where
  pub name : Text
  pub query : Text
  pub rest : Text

pub record Bind : Type 0 where
  pub prepared_statement : Text
  pub parameters : List (Option Text)
  pub parameter_format_codes : List ℕ
  pub result_format_codes : List ℕ

pub record Close : Type 0 where
  pub object_type : ℕ
  pub name : Text

pub record ErrorResponse : Type 0 where
  pub severity : Text
  pub code : Text
  pub message : Text
  pub detail : Text
  pub hint : Text
  pub rest : Text

pub record ParameterStatus : Type 0 where
  pub name : Text
  pub value : Text

pub record Codec : Type 0 where
  pub decode_query : Text → Option Text
  pub decode_parse : Text → Option Parse
  pub decode_bind : Text → Option Bind
  pub decode_close : Text → Option Close
  pub decodes_plain : ℕ → Text → Bool
  pub decode_error : Text → Option ErrorResponse
  pub decode_ready : Text → Option ℕ
  pub decode_status : Text → Option ParameterStatus
  pub decodes_complete : Text → Bool
  pub decode_row : Text → Option (List (Option Text))
  pub encodes_query : Text → Bool
  pub encodes_parse : Parse → Bool
  pub encodes_error : ErrorResponse → Bool
  pub encodes_status : ParameterStatus → Bool

-- `plain` stands for the messages of which the source reads no field.
pub data Frontend : Type 0 where
  query : Text → Frontend
  parse : Parse → Frontend
  bind : Bind → Frontend
  close : Close → Frontend
  plain : ℕ → Frontend

-- What `DecodeFrontend` returns: a message, nothing for a type that it does not model, or an error.
pub data Decoded : Type 0 where
  decoded : Frontend → Decoded
  unmodelled failed : Decoded

abbrev wrap {ℓ} : {A : Type ℓ} → (A → Frontend) → Option A → Decoded
wrap f none = failed
wrap f (some a) = decoded (f a)

is_plain : ℕ → Bool
is_plain t =
    t == b'D'
    || t == b'E'
    || t == b'F'
    || t == b'H'
    || t == b'S'
    || t == b'X'
    || t == b'd'
    || t == b'c'
    || t == b'f'
    || t == b'p'

unfoldable pub decode_frontend : Codec → ℕ → Text → Decoded
unfolding is_plain
decode_frontend c t body =
    if t == b'B'
    then wrap bind (c.decode_bind body)
    else if t == b'C'
    then wrap close (c.decode_close body)
    else if t == b'P'
    then wrap parse (c.decode_parse body)
    else if t == b'Q'
    then wrap query (c.decode_query body)
    else if is_plain t
    then (if c.decodes_plain t body then decoded (plain t) else failed)
    else unmodelled
