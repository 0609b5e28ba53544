-- ===== src/Wire/Framing.antt =====
-- internal/wire/framing.go: messages cut out of the bytes of a connection.
-- A reader is the list of the bytes that are still to come; `io.ReadFull` fails where there are too few.
use dsql_emulator.Prelude.{
  ℕ, zero, suc, ◌+◌, ◌-◌, ◌*◌, ◌^◌, List, [], ◌∷◌, ◌++◌, Option, none, some, ◌||◌, ltb,
  if◌then◌else◌, length, take, drop, Text, ℤ, pos, negsuc,
}
use dsql_emulator.Wire.{Message}

-- `maxMessageLength`.
unfoldable pub max_message_length : ℕ
max_message_length = 268435456

-- What a reader returns: a message and the bytes after it, or an error.
pub data Read {ℓ} (A : Type ℓ) : Type ℓ where
  got : A → Text → Read A
  no_header no_body : Read A
  invalid_length : ℕ → Read A

-- `io.ReadFull` into a buffer of `n` bytes.
unfoldable pub read_full : ℕ → Text → Option (Text × Text)
read_full n s = if ltb (length s) n then none else some (take n s, drop n s)

-- `binary.BigEndian.Uint32`.
unfoldable pub uint32 : ℕ → ℕ → ℕ → ℕ → ℕ
uint32 a b c d = ((a * 256 + b) * 256 + c) * 256 + d

abbrev pub tagged_body : ℕ → Text → Option (Text × Text) → Read Message
tagged_body t header none = no_body
tagged_body t header (some (body, rest)) =
    got (record { tag = t; body = body; raw = header ++ body }) rest

abbrev pub tagged_length : ℕ → Text → ℕ → Text → Read Message
tagged_length t header n rest =
    if ltb n 4 || ltb max_message_length n
    then invalid_length n
    else tagged_body t header (read_full (n - 4) rest)

unfoldable pub read_tagged : Text → Read Message
read_tagged (t ∷ a ∷ b ∷ c ∷ d ∷ rest) =
    tagged_length t (t ∷ a ∷ b ∷ c ∷ d ∷ []) (uint32 a b c d) rest
read_tagged _ = no_header

-- A message that opens a connection.
pub record Startup : Type 0 where
  pub code : ℤ
  pub body : Text
  pub raw : Text

-- The conversion of a number of 32 bits to `int32`.
unfoldable pub int32 : ℕ → ℤ
int32 n = if ltb n (2 ^ 31) then pos n else negsuc (2 ^ 32 - 1 - n)

unfoldable pub code_of : Text → ℤ
code_of (a ∷ b ∷ c ∷ d ∷ _) = int32 (uint32 a b c d)
code_of _ = pos 0

abbrev pub startup_body : Text → Option (Text × Text) → Read Startup
startup_body header none = no_body
startup_body header (some (body, rest)) =
    got (record { code = code_of body; body = body; raw = header ++ body }) rest

unfoldable pub read_startup : Text → Read Startup
read_startup (a ∷ b ∷ c ∷ d ∷ rest) =
    let n = uint32 a b c d in
    if ltb n 8 || ltb max_message_length n
    then invalid_length n
    else startup_body (a ∷ b ∷ c ∷ d ∷ []) (read_full (n - 4) rest)
read_startup _ = no_header

-- The messages that a pump reads from a connection until it fails to, `fuel` of them at most.
abbrev pub after_read : (Text → List Message) → Read Message → List Message
after_read again (got m rest) = m ∷ again rest
after_read again _ = []

unfoldable pub read_all : ℕ → Text → List Message
read_all zero s = []
read_all (suc fuel) s = after_read (read_all fuel) (read_tagged s)
