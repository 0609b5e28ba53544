-- ===== src/Session/Handshake.antt =====
-- `handshake` and `negotiateTLS` of internal/proxy/session.go: what is answered before a session starts.
-- The messages that `ReadStartup` gives are a list, each with whether a TLS handshake that follows it
-- succeeds; at its end reading fails. TLS itself is outside the repository.
use dsql_emulator.Prelude.{
  ℕ, Bool, false, List, [], ◌∷◌, ◌++◌, ◌==◌, ◌||◌, if◌then◌else◌, Text, lit, ℤ, pos, negsuc,
  is_positive, show_int,
}
use dsql_emulator.Rules.{Ruleset}
use dsql_emulator.Wire.Framing.{Startup}
use dsql_emulator.Wire.Startup.{StartupCodec, rewrite_startup}

abbrev pub is_code : ℕ → ℤ → Bool
is_code n (pos m) = m == n
is_code n (negsuc m) = false

abbrev pub is_ssl_request : ℤ → Bool
is_ssl_request code = is_code 80877103 code

abbrev pub is_gss_request : ℤ → Bool
is_gss_request code = is_code 80877104 code

abbrev pub is_startup : ℤ → Bool
is_startup code = is_code 196608 code || is_code 196610 code

pub data Outcome : Type 0 where
  intercepted relayed_only failed : Outcome

-- The bytes that the client is answered with, what the upstream is sent, and how the handshake ends.
pub record Opening : Type 0 where
  pub to_client : Text
  pub to_upstream : List Text
  pub outcome : Outcome

pub record Opener : Type 0 where
  pub rules : Ruleset
  pub codec : StartupCodec
  pub has_tls : Bool

unfoldable pub row_cap_option : ℤ → List Text
row_cap_option cap = if is_positive cap then (lit "-c dsql.row_cap=" ++ show_int cap) ∷ [] else []

unfoldable pub timeout_option : ℤ → List Text
timeout_option ms =
    if is_positive ms then (lit "-c lock_timeout=" ++ (show_int ms ++ lit "ms")) ∷ [] else []

unfoldable pub startup_options : Ruleset → List Text
startup_options rules =
    row_cap_option rules.limits.dml_rows_per_txn ++ timeout_option rules.occ.lock_timeout_ms

unfoldable pub opening_bytes : Opener → Startup → Text
opening_bytes o st =
    if is_startup st.code
    then rewrite_startup o.codec st
        ((lit "default_transaction_isolation", lit "repeatable read") ∷ [])
        (startup_options o.rules)
    else st.raw

abbrev pub open_with : Opener → Startup → Opening
open_with o st = record {
  to_client = [];
  to_upstream = opening_bytes o st ∷ [];
  outcome = if is_startup st.code then intercepted else relayed_only;
}

abbrev pub answered : ℕ → Opening → Opening
answered c r = record r { to_client = c ∷ r.to_client }

abbrev pub failing : Text → Opening
failing bytes = record { to_client = bytes; to_upstream = []; outcome = failed }

unfoldable pub handshake : Opener → List (Startup × Bool) → Opening
unfolding opening_bytes
handshake o [] = failing []
handshake o ((st, secured) ∷ rest) =
    let later = handshake o rest in
    if is_ssl_request st.code
    then (if o.has_tls
        then (if secured then answered b'S' later else failing (b'S' ∷ []))
        else answered b'N' later)
    else if is_gss_request st.code
    then answered b'N' later
    else open_with o st
