-- ===== src/Wire/Startup.antt =====
-- `RewriteStartup` of internal/wire/framing.go. The codec of pgproto3 is a parameter: of a startup message
-- it has the parameters; `rest` stands for the protocol version. The map of the parameters is an
-- association list.
use dsql_emulator.Prelude.{
  List, [], ◌∷◌, Option, none, some, if◌then◌else◌, is_nil, Text, lit, text_eq, join_spaced,
}
use dsql_emulator.Wire.Framing.{Startup}

pub record StartupMessage : Type 0 where
  pub rest : Text
  pub parameters : List (Text × Text)

pub record StartupCodec : Type 0 where
  pub decode : Text → Option StartupMessage
  pub encode : StartupMessage → Option Text

-- A key that is missing has the empty value.
unfoldable pub look_up : Text → List (Text × Text) → Text
look_up key [] = []
look_up key ((k, v) ∷ rest) = let later = look_up key rest in if text_eq k key then v else later

unfoldable pub put : Text → Text → List (Text × Text) → List (Text × Text)
put key value [] = (key, value) ∷ []
put key value ((k, v) ∷ rest) =
    let later = put key value rest in if text_eq k key then (k, value) ∷ rest else (k, v) ∷ later

unfoldable pub put_all : List (Text × Text) → List (Text × Text) → List (Text × Text)
put_all [] ps = ps
put_all ((k, v) ∷ rest) ps = put_all rest (put k v ps)

unfoldable pub all_options : Text → List Text → List Text
all_options existing options = if is_nil existing then options else existing ∷ options

unfoldable pub put_options : List Text → List (Text × Text) → List (Text × Text)
unfolding all_options
put_options [] ps = ps
put_options (o ∷ options) ps =
    put (lit "options") (join_spaced (all_options (look_up (lit "options") ps) (o ∷ options))) ps

unfoldable pub with_parameters : List (Text × Text) → List Text → StartupMessage → StartupMessage
with_parameters params options m = record m {
  parameters = put_options options (put_all params m.parameters);
}

abbrev pub or_raw : Text → Option Text → Text
or_raw raw none = raw
or_raw raw (some encoded) = encoded

abbrev pub rewritten :
    StartupCodec → Startup → List (Text × Text) → List Text → Option StartupMessage → Text
rewritten c startup params options none = startup.raw
rewritten c startup params options (some m) =
    or_raw startup.raw (c.encode (with_parameters params options m))

unfoldable pub rewrite_startup : StartupCodec → Startup → List (Text × Text) → List Text → Text
rewrite_startup c startup params options =
    rewritten c startup params options (c.decode startup.body)
