-- ===== src/Rewrite/Scanned.antt =====
-- The tokens of a scanner, cut into statements as internal/proxy/rewrite.go cuts them.
use dsql_emulator.Prelude.{
  ℕ, zero, suc, ◌≤◌, ◌≡◌, refl, Bool, true, false, not, ◌&&◌, List, [], ◌∷◌, some, leb, is_negative,
  pos_part, get_elem?, arith, inl, inr, Bool-cases,
}
use dsql_emulator.Rewrite.{Token, is_semicolon, put_first, statements}

-- Tokens as a scanner gives them for a text of `n` bytes: in their order, apart, within the text.
unfoldable pub scanned : ℕ → ℕ → List Token → Bool
scanned n low [] = leb low n
scanned n low (t ∷ ts) =
    not (is_negative t.start)
    && not (is_negative t.stop)
    && leb low (pos_part t.start)
    && leb (pos_part t.start) (pos_part t.stop)
    && scanned n (pos_part t.stop) ts

-- Where the last token ends.
unfoldable pub end_of : ℕ → List Token → ℕ
end_of low [] = low
end_of low (t ∷ ts) = end_of (pos_part t.stop) ts

unfoldable pub all_scanned : ℕ → ℕ → List (List Token) → Bool
all_scanned n low [] = true
all_scanned n low (s ∷ ss) = scanned n low s && all_scanned n (end_of low s) ss

scanned_lower :
    (n low b : ℕ) (ts : List Token) → low ≤ b → scanned n b ts ≡ true → scanned n low ts ≡ true
unfolding scanned
scanned_lower n low b [] h s = ground arith
scanned_lower n low b (t ∷ ts) h s = ground arith

pub end_of_lower :
    (n low : ℕ) (ts : List Token)
    → scanned n low ts ≡ true
    → (low ≤ end_of low ts) × (end_of low ts ≤ n)
unfolding scanned end_of
end_of_lower n low [] s = ground arith
end_of_lower n low (t ∷ ts) s = ground (arith, end_of_lower n (pos_part t.stop) ts)

end_of_mono : (low b : ℕ) (ts : List Token) → low ≤ b → end_of low ts ≤ end_of b ts
unfolding end_of
end_of_mono low b [] h = h
end_of_mono low b (t ∷ ts) h = omega arith

all_scanned_lower :
    (n low b : ℕ) (ss : List (List Token))
    → low ≤ b
    → all_scanned n b ss ≡ true
    → all_scanned n low ss ≡ true
unfolding all_scanned
all_scanned_lower n low b [] h s = refl
all_scanned_lower n low b (x ∷ ss) h s = ground (
  arith,
  scanned_lower n low b x h,
  end_of_mono low b x h,
  all_scanned_lower n (end_of low x) (end_of b x) ss,
)

put_first_scanned :
    (n low : ℕ) (t : Token) (ss : List (List Token))
    → (is_negative t.start ≡ false) × (is_negative t.stop ≡ false)
    → low ≤ pos_part t.start
    → pos_part t.start ≤ pos_part t.stop
    → pos_part t.stop ≤ n
    → all_scanned n (pos_part t.stop) ss ≡ true
    → all_scanned n low (put_first t ss) ≡ true
unfolding all_scanned scanned end_of
put_first_scanned n low t [] p a b c s = ground arith
put_first_scanned n low t (x ∷ ss) p a b c s = ground arith

after_semicolon :
    (n low : ℕ) (ss : List (List Token))
    → low ≤ n
    → all_scanned n low ss ≡ true
    → all_scanned n low ([] ∷ ss) ≡ true
unfolding all_scanned scanned end_of
after_semicolon n low ss h s = ground arith

pub statements_scanned :
    (n low : ℕ) (ts : List Token)
    → scanned n low ts ≡ true
    → all_scanned n low (statements ts) ≡ true
unfolding statements
statements_scanned n low [] s = unfold all_scanned scanned end_of in ground arith
statements_scanned n low (t ∷ ts) s =
    let own : (is_negative t.start ≡ false) × (is_negative t.stop ≡ false) =
      unfold scanned in ground arith in
    let a : low ≤ pos_part t.start = unfold scanned in ground arith in
    let b : pos_part t.start ≤ pos_part t.stop = unfold scanned in ground arith in
    let later : scanned n (pos_part t.stop) ts ≡ true = unfold scanned in ground arith in
    let c : pos_part t.stop ≤ n = omega (arith, end_of_lower n (pos_part t.stop) ts later) in
    let rest = statements_scanned n (pos_part t.stop) ts later in
    elim (Bool-cases (is_semicolon t.kind)) [
      | inl e ↦
          rw (e, statements)
            (after_semicolon n low (statements ts) (omega (arith, a, b, c)) (
              all_scanned_lower n low (pos_part t.stop) (statements ts) (omega (arith, a, b)) rest))
      | inr e ↦ rw (e, statements) (put_first_scanned n low t (statements ts) own a b c rest)
    ]

-- The bounds of the token at a place, and of the one after it.
pub token_bounds :
    (n low : ℕ) (ts : List Token) (i : ℕ) (t : Token)
    → scanned n low ts ≡ true
    → get_elem? ts i ≡ some t
    → (is_negative t.start ≡ false)
      × (is_negative t.stop ≡ false)
      × (low ≤ pos_part t.start)
      × (pos_part t.start ≤ pos_part t.stop)
      × (pos_part t.stop ≤ end_of low ts)
unfolding scanned end_of
token_bounds n low [] i t s h = ground arith
token_bounds n low (x ∷ ts) zero t s h = ground (arith, end_of_lower n (pos_part x.stop) ts)
token_bounds n low (x ∷ ts) (suc i) t s h = ground (arith, token_bounds n (pos_part x.stop) ts i t)

pub next_bounds :
    (n low : ℕ) (ts : List Token) (i : ℕ) (t u : Token)
    → scanned n low ts ≡ true
    → get_elem? ts i ≡ some t
    → get_elem? ts (suc i) ≡ some u
    → pos_part t.stop ≤ pos_part u.start
unfolding scanned end_of
next_bounds n low [] i t u s h k = ground arith
next_bounds n low (x ∷ ts) zero t u s h k = ground (arith, token_bounds n (pos_part x.stop) ts 0 u)
next_bounds n low (x ∷ ts) (suc i) t u s h k =
    next_bounds n (pos_part x.stop) ts i t u (ground arith) h k
