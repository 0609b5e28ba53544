-- ===== src/Session/Negotiation.antt =====
-- The negotiation before a session: requests for encryption, and then one opening message.
use dsql_emulator.Prelude.{
  Bool, true, false, not, List, [], ◌∷◌, ◌++◌, ◌||◌, ◌&&◌, ◌≡◌, refl, ◌∙◌, arith, if◌then◌else◌,
  Text, lit, text_eq, All, ℕ, drop, ℤ, is_positive, show_int, join_spaced, none, some, Option-cases,
  Bool-cases, inl, inr, subst,
}
use dsql_emulator.Rules.{Ruleset}
use dsql_emulator.Wire.Framing.{Startup}
use dsql_emulator.Wire.Startup.{StartupMessage, look_up, with_parameters, rewrite_startup}
use dsql_emulator.Wire.Parameters.{options_key, appended, with_parameters_kept}
use dsql_emulator.Session.Handshake.{
  Opener, intercepted, relayed_only, is_ssl_request, is_gss_request, is_startup, opening_bytes,
  startup_options, row_cap_option, timeout_option, handshake,
}

abbrev asks : Startup × Bool → Bool
asks (st, secured) = is_ssl_request st.code || is_gss_request st.code

-- The answer to a request: S where the client may start TLS.
unfoldable pub answers : Opener → List (Startup × Bool) → Text
answers o [] = []
answers o ((st, secured) ∷ rest) =
    (if is_ssl_request st.code && o.has_tls then b'S' else b'N') ∷ answers o rest

-- A request for encryption whose TLS handshake, where it is answered with S, succeeds.
pub record IsRequest (o : Opener) (i : Startup × Bool) : Type 0 where
  pub request : (is_ssl_request i.0.code || is_gss_request i.0.code) ≡ true
  pub secured : (not (is_ssl_request i.0.code && o.has_tls) || i.1) ≡ true

-- The options that a ruleset asks for, in one text.
unfoldable pub row_cap : ℤ → Text
row_cap cap = lit "-c dsql.row_cap=" ++ show_int cap

unfoldable pub lock_timeout : ℤ → Text
lock_timeout ms = lit "-c lock_timeout=" ++ (show_int ms ++ lit "ms")

unfoldable pub options_text : Bool → Bool → Text → Text → Text
options_text false false cap timeout = []
options_text true false cap timeout = cap
options_text false true cap timeout = timeout
options_text true true cap timeout = cap ++ b' ' ∷ timeout

abbrev pub ruleset_options : Ruleset → Text
unfolding row_cap lock_timeout options_text
ruleset_options rules =
    let cap = rules.limits.dml_rows_per_txn in
    let ms = rules.occ.lock_timeout_ms in
    options_text (is_positive cap) (is_positive ms) (row_cap cap) (lock_timeout ms)

-- Text after other text, with a space between where neither is empty.
unfoldable pub spaced : Text → Text → Text
spaced [] t = t
spaced (c ∷ s) [] = c ∷ s
spaced (c ∷ s) (d ∷ t) = (c ∷ s) ++ b' ' ∷ d ∷ t

abbrev isolation_key : Text
isolation_key = lit "default_transaction_isolation"

words_of : Bool → Bool → Text → Text → List Text
words_of p q cap timeout = (if p then cap ∷ [] else []) ++ (if q then timeout ∷ [] else [])

appended-words_of :
    (p q : Bool) (existing : Text) (x y : ℕ) (cap timeout : Text)
    → appended existing (words_of p q (x ∷ cap) (y ∷ timeout))
      ≡ spaced existing (options_text p q (x ∷ cap) (y ∷ timeout))
unfolding words_of appended spaced options_text join_spaced
appended-words_of false false [] x y cap timeout = refl
appended-words_of false false (c ∷ s) x y cap timeout = refl
appended-words_of false true [] x y cap timeout = refl
appended-words_of false true (c ∷ s) x y cap timeout = refl
appended-words_of true false [] x y cap timeout = refl
appended-words_of true false (c ∷ s) x y cap timeout = refl
appended-words_of true true [] x y cap timeout = refl
appended-words_of true true (c ∷ s) x y cap timeout = refl

appended-startup_options :
    (existing : Text) (rules : Ruleset)
    → appended existing (startup_options rules) ≡ spaced existing (ruleset_options rules)
unfolding words_of startup_options row_cap_option timeout_option row_cap lock_timeout options_text
    lit
appended-startup_options existing rules =
    let cap = rules.limits.dml_rows_per_txn in
    let ms = rules.occ.lock_timeout_ms in
    appended-words_of (is_positive cap) (is_positive ms) existing b'-' b'-' (drop 1 (row_cap cap))
      (drop 1 (lock_timeout ms))

-- A client's startup message as it is sent on: repeatable read by default, the ruleset's options after the
-- client's, and every other parameter, and the version, as the client sent them.
pub record IsAdjusted (rules : Ruleset) (asked sent : StartupMessage) : Type 0 where
  pub isolation : look_up isolation_key sent.parameters ≡ lit "repeatable read"
  pub options :
      look_up options_key sent.parameters
      ≡ spaced (look_up options_key asked.parameters) (ruleset_options rules)
  pub others :
      (key : Text)
      → text_eq isolation_key key ≡ false
      → text_eq options_key key ≡ false
      → look_up key sent.parameters ≡ look_up key asked.parameters
  pub version : sent.rest ≡ asked.rest

-- What the upstream is sent for an opening message: the message as it came, where it is no startup message of
-- the version 3.0 or 3.2, and where it cannot be decoded or encoded; and otherwise the adjusted one.
pub data IsOpenedBy (o : Opener) (st : Startup) : Text → Type 0 where
  no_startup : is_startup st.code ≡ false → IsOpenedBy o st st.raw
  undecoded : is_startup st.code ≡ true → o.codec.decode st.body ≡ none → IsOpenedBy o st st.raw
  unencoded :
      (asked sent : StartupMessage)
      → is_startup st.code ≡ true
      → o.codec.decode st.body ≡ some asked
      → IsAdjusted o.rules asked sent
      → o.codec.encode sent ≡ none
      → IsOpenedBy o st st.raw
  adjusted :
      (asked sent : StartupMessage) (bytes : Text)
      → is_startup st.code ≡ true
      → o.codec.decode st.body ≡ some asked
      → IsAdjusted o.rules asked sent
      → o.codec.encode sent ≡ some bytes
      → IsOpenedBy o st bytes

with_parameters-IsAdjusted :
    (rules : Ruleset) (m : StartupMessage)
    → IsAdjusted rules m
        (with_parameters ((isolation_key, lit "repeatable read") ∷ []) (startup_options rules) m)
unfolding lit text_eq with_parameters
with_parameters-IsAdjusted rules m =
    let kept =
      with_parameters_kept isolation_key (lit "repeatable read") (startup_options rules) m refl
        refl in
    record {
      isolation = kept.0;
      options = kept.1 ∙ appended-startup_options (look_up options_key m.parameters) rules;
      others = kept.2;
      version = refl;
    }

opening_bytes-IsOpenedBy : (o : Opener) (st : Startup) → IsOpenedBy o st (opening_bytes o st)
unfolding opening_bytes rewrite_startup
opening_bytes-IsOpenedBy o st = elim (Bool-cases (is_startup st.code)) [
  | inr p ↦ subst (IsOpenedBy o st) (ground (arith, p)) (no_startup p)
  | inl p ↦ elim (Option-cases (o.codec.decode st.body)) [
    | inl q ↦ subst (IsOpenedBy o st) (ground (arith, p, q)) (undecoded p q)
    | inr (m, q) ↦
        let sent =
          with_parameters ((isolation_key, lit "repeatable read") ∷ []) (startup_options o.rules)
            m in
        let fits = with_parameters-IsAdjusted o.rules m in
        elim (Option-cases (o.codec.encode sent)) [
          | inl r ↦ subst (IsOpenedBy o st) (ground (arith, p, q, r)) (unencoded m sent p q fits r)
          | inr (bytes, r) ↦
              subst (IsOpenedBy o st) (ground (arith, p, q, r)) (adjusted m sent bytes p q fits r)
        ]
  ]
]

handshake-opening_bytes :
    (o : Opener) (requests : List (Startup × Bool)) (st : Startup) (secured : Bool)
    (rest : List (Startup × Bool))
    → All (IsRequest o) requests
    → is_ssl_request st.code ≡ false
    → is_gss_request st.code ≡ false
    → let r = handshake o (requests ++ (st, secured) ∷ rest) in
      (r.to_client ≡ answers o requests)
      × (r.to_upstream ≡ opening_bytes o st ∷ [])
      × (r.outcome ≡ (if is_startup st.code then intercepted else relayed_only))
unfolding handshake answers
handshake-opening_bytes o [] st secured rest _ p q = ground arith
handshake-opening_bytes o ((x, b) ∷ xs) st secured rest (v, vs) p q =
    ground (arith, v, handshake-opening_bytes o xs st secured rest vs p q)

-- Whatever requests for encryption come first, where the TLS handshake after each succeeds that is answered
-- with S, each is answered with one byte, S for TLS where the proxy has a certificate and N otherwise, and
-- nothing of them reaches the upstream; the first other message is the only one that does. If it is a startup
-- message of the protocol's version 3.0 or 3.2, the session is intercepted, and where the codec can decode
-- and encode it, it is sent with repeatable read as the default isolation level and the ruleset's options
-- after the client's, and else as it came; any other message is sent as it came and the session only relayed.
pub handshake_opens :
    (o : Opener) (requests : List (Startup × Bool)) (st : Startup) (secured : Bool)
    (rest : List (Startup × Bool))
    → All (IsRequest o) requests
    → is_ssl_request st.code ≡ false
    → is_gss_request st.code ≡ false
    → let r = handshake o (requests ++ (st, secured) ∷ rest) in
      (r.to_client ≡ answers o requests)
      × ((bytes : Text) × (r.to_upstream ≡ bytes ∷ []) × IsOpenedBy o st bytes)
      × (r.outcome ≡ (if is_startup st.code then intercepted else relayed_only))
handshake_opens o requests st secured rest v p q =
    let r = handshake-opening_bytes o requests st secured rest v p q in
    (r.0, (opening_bytes o st, r.1, opening_bytes-IsOpenedBy o st), r.2)
