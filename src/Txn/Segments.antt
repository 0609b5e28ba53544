-- ===== src/Txn/Segments.antt =====
-- The transaction rules said without counters: a list of statements is cut at its BEGINs, COMMITs and
-- ROLLBACKs, and each piece holds at most one DDL statement, and not DDL and DML together.
use dsql_emulator.Prelude.{
  ℕ, suc, ◌+◌, ◌≡◌, refl, Bool, true, false, not, ◌&&◌, ◌||◌, List, [], ◌∷◌, ◌++◌, arith, ltb, leb,
  ◌==◌, is_some, Bool-cases, inl, inr,
}
use dsql_emulator.Kind.{Kind, other, select, dml, ddl, begin, commit, rollback}
use dsql_emulator.Txn.{check}

abbrev pub is_boundary : Kind → Bool
is_boundary begin = true
is_boundary commit = true
is_boundary rollback = true
is_boundary _ = false

unfoldable pub ddls : List Kind → ℕ
ddls [] = 0
ddls (ddl ∷ ks) = suc (ddls ks)
ddls (_ ∷ ks) = ddls ks

unfoldable pub dmls : List Kind → ℕ
dmls [] = 0
dmls (dml ∷ ks) = suc (dmls ks)
dmls (_ ∷ ks) = dmls ks

-- What follows `open` in the piece that is still open, and the pieces that end.
unfoldable pub segments : List Kind → List Kind → List (List Kind)
segments piece [] = piece ∷ []
segments piece (k ∷ ks) = elim (is_boundary k) [
  | true ↦ piece ∷ segments [] ks
  | false ↦ segments (piece ++ k ∷ []) ks
]

unfoldable pub last_segment : List Kind → List Kind → List Kind
last_segment piece [] = piece
last_segment piece (k ∷ ks) = elim (is_boundary k) [
  | true ↦ last_segment [] ks
  | false ↦ last_segment (piece ++ k ∷ []) ks
]

unfoldable pub lawful : List Kind → Bool
lawful ks = leb (ddls ks) 1 && (ddls ks == 0 || dmls ks == 0)

unfoldable pub all_lawful : List (List Kind) → Bool
all_lawful [] = true
all_lawful (piece ∷ rest) = lawful piece && all_lawful rest

pub ddls-append : (xs ys : List Kind) → ddls (xs ++ ys) ≡ ddls xs + ddls ys
unfolding ddls
ddls-append [] ys = omega arith
ddls-append (ddl ∷ xs) ys = omega (arith, ddls-append xs ys)
ddls-append (_ ∷ xs) ys = ddls-append xs ys

pub dmls-append : (xs ys : List Kind) → dmls (xs ++ ys) ≡ dmls xs + dmls ys
unfolding dmls
dmls-append [] ys = omega arith
dmls-append (dml ∷ xs) ys = omega (arith, dmls-append xs ys)
dmls-append (_ ∷ xs) ys = dmls-append xs ys

-- A piece that breaks the rules breaks them whatever follows.
lawful-append : (xs ys : List Kind) → lawful (xs ++ ys) ≡ true → lawful xs ≡ true
unfolding lawful
lawful-append xs ys h = ground (arith, ddls-append xs ys, dmls-append xs ys)

pub all_lawful-segments :
    (piece ks : List Kind) → all_lawful (segments piece ks) ≡ true → lawful piece ≡ true
unfolding segments all_lawful
all_lawful-segments piece [] h = ground arith
all_lawful-segments piece (ddl ∷ ks) h =
    lawful-append piece (ddl ∷ []) (all_lawful-segments (piece ++ ddl ∷ []) ks h)
all_lawful-segments piece (dml ∷ ks) h =
    lawful-append piece (dml ∷ []) (all_lawful-segments (piece ++ dml ∷ []) ks h)
all_lawful-segments piece (other ∷ ks) h =
    lawful-append piece (other ∷ []) (all_lawful-segments (piece ++ other ∷ []) ks h)
all_lawful-segments piece (select ∷ ks) h =
    lawful-append piece (select ∷ []) (all_lawful-segments (piece ++ select ∷ []) ks h)
all_lawful-segments piece (begin ∷ ks) h = ground arith
all_lawful-segments piece (commit ∷ ks) h = ground arith
all_lawful-segments piece (rollback ∷ ks) h = ground arith

unlawful-segments :
    (piece ks : List Kind) → lawful piece ≡ false → all_lawful (segments piece ks) ≡ false
unlawful-segments piece ks h = elim (Bool-cases (all_lawful (segments piece ks))) [
  | inl t ↦ cc (all_lawful-segments piece ks t)
  | inr f ↦ f
]

-- One statement more in the open piece.
pub ddls-snoc : (piece : List Kind) (k : Kind) → ddls (piece ++ k ∷ []) ≡ ddls piece + ddls (k ∷ [])
ddls-snoc piece k = ddls-append piece (k ∷ [])

pub dmls-snoc : (piece : List Kind) (k : Kind) → dmls (piece ++ k ∷ []) ≡ dmls piece + dmls (k ∷ [])
dmls-snoc piece k = dmls-append piece (k ∷ [])

-- With counts that are those of a lawful piece, the counters of the source refuse a batch exactly when one
-- of the pieces that it makes together with that piece breaks the rules.
pub check-lawful :
    (piece ks : List Kind) (n : ℕ) (s : Bool)
    → n ≡ ddls piece
    → s ≡ ltb 0 (dmls piece)
    → lawful piece ≡ true
    → is_some (check n s ks) ≡ not (all_lawful (segments piece ks))
unfolding check segments all_lawful lawful ddls dmls
check-lawful piece [] n s p q h = ground arith
check-lawful piece (begin ∷ ks) n s p q h =
    ground (arith, check-lawful [] ks 0 false refl refl refl)
check-lawful piece (commit ∷ ks) n s p q h =
    ground (arith, check-lawful [] ks 0 false refl refl refl)
check-lawful piece (rollback ∷ ks) n s p q h =
    ground (arith, check-lawful [] ks 0 false refl refl refl)
check-lawful piece (ddl ∷ ks) n s p q h = ground (
  arith,
  ddls-snoc piece ddl,
  dmls-snoc piece ddl,
  unlawful-segments (piece ++ ddl ∷ []) ks,
  check-lawful (piece ++ ddl ∷ []) ks (n + 1) s,
)
check-lawful piece (dml ∷ ks) n s p q h = ground (
  arith,
  ddls-snoc piece dml,
  dmls-snoc piece dml,
  unlawful-segments (piece ++ dml ∷ []) ks,
  check-lawful (piece ++ dml ∷ []) ks n true,
)
check-lawful piece (other ∷ ks) n s p q h =
    ground (
      arith,
      ddls-snoc piece other,
      dmls-snoc piece other,
      check-lawful (piece ++ other ∷ []) ks n s,
    )
check-lawful piece (select ∷ ks) n s p q h = ground (
  arith,
  ddls-snoc piece select,
  dmls-snoc piece select,
  check-lawful (piece ++ select ∷ []) ks n s,
)
