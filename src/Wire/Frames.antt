-- ===== src/Wire/Frames.antt =====
-- What the readers of internal/wire/framing.go make of whole frames.
use dsql_emulator.Prelude.{
  ℕ, zero, suc, ◌+◌, ◌-◌, ◌*◌, ◌/◌, ◌%◌, ◌≡◌, ◌≤◌, ◌<◌, refl, ap, subst, ◌∙◌, List, [], ◌∷◌, ◌++◌,
  map, some, length, Text, arith, All, length-append, take-append_length, drop-append_length,
  take-append_drop, length-take,
}
use dsql_emulator.Wire.{Message}
use dsql_emulator.Wire.Framing.{
  got, read_full, uint32, max_message_length, read_tagged, tagged_length, read_all, read_startup,
  code_of, after_read,
}

-- A length prefix, as the protocol writes it: four bytes, the highest first.
unfoldable pub prefix : ℕ → Text
prefix n = n / 16777216 % 256 ∷ n / 65536 % 256 ∷ n / 256 % 256 ∷ n % 256 ∷ []

unfoldable pub frame : ℕ → Text → Text
frame t body = t ∷ (prefix (length body + 4) ++ body)

abbrev pub framed : ℕ × Text → Message
framed (t, body) = record { tag = t; body = body; raw = frame t body }

unfoldable pub stream : List (ℕ × Text) → Text
stream [] = []
stream ((t, body) ∷ rest) = frame t body ++ stream rest

uint32-prefix :
    (n : ℕ)
    → n < 4294967296
    → uint32 (n / 16777216 % 256) (n / 65536 % 256) (n / 256 % 256) (n % 256) ≡ n
unfolding uint32
uint32-prefix n h = omega arith

read_full-append : (s rest : Text) → read_full (length s) (s ++ rest) ≡ some (s, rest)
unfolding read_full
read_full-append s rest =
    ground (arith, length-append s rest, take-append_length s rest, drop-append_length s rest)

read_full-exact : (s rest : Text) → read_full (length s + 4 - 4) (s ++ rest) ≡ some (s, rest)
read_full-exact s rest =
    subst (λ n. read_full n (s ++ rest) ≡ some (s, rest)) (omega arith) (read_full-append s rest)

tagged_length-fits :
    (t : ℕ) (header body rest : Text)
    → length body ≤ 268435452
    → tagged_length t header (length body + 4) (body ++ rest)
      ≡ got (record { tag = t; body = body; raw = header ++ body }) rest
unfolding max_message_length
tagged_length-fits t header body rest h = rw (read_full-exact body rest) (ground arith)

-- A frame of a body of at most 268435452 bytes is read as one message, whose raw bytes are the frame, and
-- what follows it on the connection is left to be read.
pub read_tagged-frame :
    (t : ℕ) (body rest : Text)
    → length body ≤ 268435452
    → read_tagged (frame t body ++ rest) ≡ got (framed (t, body)) rest
unfolding read_tagged frame prefix
read_tagged-frame t body rest h =
    ap (λ n. tagged_length t (t ∷ prefix (length body + 4)) n (body ++ rest))
      (uint32-prefix (length body + 4) (omega arith))
    ∙ tagged_length-fits t (t ∷ prefix (length body + 4)) body rest h

-- A header of five bytes: the type of the message, and the length of its body and of that length, the highest
-- byte first.
pub record IsHeaderOf (m : Message) (header : Text) : Type 0 where
  pub a : ℕ
  pub b : ℕ
  pub c : ℕ
  pub d : ℕ
  pub same : header ≡ m.tag ∷ a ∷ b ∷ c ∷ d ∷ []
  pub says : 16777216 * a + 65536 * b + 256 * c + d ≡ length m.body + 4

-- Nothing is lost: when a message is read, its raw bytes and the bytes left to read are together the bytes
-- that were there, its raw bytes are a header of five bytes, its type and its length, and then its
-- body, and the body has at most 268435452 bytes.
pub read_tagged_verbatim :
    (s : Text) {m : Message} {rest : Text}
    → read_tagged s ≡ got m rest
    → (s ≡ m.raw ++ rest)
      × ((header : Text) × IsHeaderOf m header × (m.raw ≡ header ++ m.body))
      × (length m.body ≤ 268435452)
unfolding read_tagged read_full max_message_length uint32
read_tagged_verbatim (t ∷ a ∷ b ∷ c ∷ d ∷ tail) h = (
  ground (arith, take-append_drop (uint32 a b c d - 4) tail),
  (
    t ∷ a ∷ b ∷ c ∷ d ∷ [],
    record {
      a = a;
      b = b;
      c = c;
      d = d;
      same = ground (arith, h);
      says = ground (arith, h, length-take (uint32 a b c d - 4) tail);
    },
    ground (arith, h),
  ),
  ground (arith, length-take (uint32 a b c d - 4) tail),
)
read_tagged_verbatim [] h = ground arith
read_tagged_verbatim (t ∷ []) h = ground arith
read_tagged_verbatim (t ∷ a ∷ []) h = ground arith
read_tagged_verbatim (t ∷ a ∷ b ∷ []) h = ground arith
read_tagged_verbatim (t ∷ a ∷ b ∷ c ∷ []) h = ground arith

read_all-nil : (fuel : ℕ) → read_all fuel [] ≡ []
unfolding read_all read_tagged
read_all-nil zero = refl
read_all-nil (suc fuel) = refl

read_all-step :
    (fuel : ℕ) (s : Text) {m : Message} {rest : Text}
    → read_tagged s ≡ got m rest
    → read_all (suc fuel) s ≡ m ∷ read_all fuel rest
unfolding read_all
read_all-step fuel s e = ap (after_read (read_all fuel)) e

-- A pump that reads a connection which carries frames of bodies of at most 268435452 bytes gets the
-- messages framed, in their order, and stops at the end; as many reads as there are frames are enough.
pub read_all-stream :
    (items : List (ℕ × Text)) (fuel : ℕ)
    → All (λ i. length i.1 ≤ 268435452) items
    → length items ≤ fuel
    → read_all fuel (stream items) ≡ map framed items
unfolding stream
read_all-stream [] fuel _ _ = read_all-nil fuel
read_all-stream ((t, body) ∷ items) zero _ n = ground arith
read_all-stream ((t, body) ∷ items) (suc fuel) (h, hs) n =
    read_all-step fuel _ (read_tagged-frame t body (stream items) h)
    ∙ ap (λ ms. framed (t, body) ∷ ms) (read_all-stream items fuel hs (omega (arith, n)))

-- An opening message of at least four bytes after its prefix, and at most 268435452, is read as it came,
-- and what follows it on the connection is left to be read.
pub read_startup-frame :
    (body rest : Text)
    → 4 ≤ length body
    → length body ≤ 268435452
    → read_startup ((prefix (length body + 4) ++ body) ++ rest)
      ≡ got
          (record { code = code_of body; body = body; raw = prefix (length body + 4) ++ body })
          rest
unfolding read_startup prefix max_message_length
read_startup-frame body rest p q =
    rw (uint32-prefix (length body + 4) (omega arith), read_full-exact body rest) (ground arith)
