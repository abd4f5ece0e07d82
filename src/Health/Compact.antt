-- ===== src/Health/Compact.antt =====
-- The in-place pruning loop of RecordOutcome (internal/health/tracker.go), and the proof that it
-- filters.
use mathlib.Core.List.{append_assoc, append-nil}
use smart_retry_orchestrator.Common.{
  ℕ, zero, suc, ◌+◌, ◌≡◌, refl, sym, ◌∙◌, Bool, true, false, not, none, some, List, [], ◌∷◌, ◌++◌,
  arith, ltb, length, get_elem?, set, take, keep, Bool-cases, inl, inr, length-append,
  take-length_append, get_elem?-append, set-append,
}
use smart_retry_orchestrator.Domain.Models.{Time}

pub record Outcome : Type 0 where
  pub timestamp : Time
  pub success : Bool

abbrev pub outcome : Time → Bool → Outcome
outcome ts s = record { timestamp = ts; success = s }

-- `!o.timestamp.Before(cutoff)`
unfoldable pub in_window : Time → Outcome → Bool
in_window cutoff o = not (ltb o.timestamp cutoff)

-- The rounds left of `for _, o := range w.outcomes`, from index `i`: each reads entry `i` of the one
-- backing array and writes entry `n`. The result is the array and the final `n`.
compact_loop : Time → (rounds i n : ℕ) → List Outcome → List Outcome × ℕ
compact_loop cutoff zero i n outcomes = (outcomes, n)
compact_loop cutoff (suc rounds) i n outcomes = elim (get_elem? outcomes i) [
  | none ↦ (outcomes, n)
  | some o ↦ elim (in_window cutoff o) [
    | true ↦ compact_loop cutoff rounds (i + 1) (n + 1) (set outcomes n o)
    | false ↦ compact_loop cutoff rounds (i + 1) n outcomes
  ]
]

-- w.outcomes = w.outcomes[:n]
unfoldable pub compact : Time → List Outcome → List Outcome
unfolding compact_loop
compact cutoff outcomes =
    let (outcomes', n) = compact_loop cutoff (length outcomes) 0 0 outcomes in take n outcomes'

-- The entries before index `i` that the loop has dropped, after it keeps `o`.
abbrev shift : List Outcome → Outcome → List Outcome
shift [] o = []
shift (s ∷ stale) o = stale ++ o ∷ []

set-shift :
    (kept stale rest : List Outcome) (o : Outcome)
    → set (kept ++ (stale ++ o ∷ rest)) (length kept) o
      ≡ (kept ++ o ∷ []) ++ (shift stale o ++ rest)
set-shift kept [] rest o = set-append kept o o rest ∙ sym (append_assoc kept (o ∷ []) rest)
set-shift kept (s ∷ stale) rest o = set-append kept s o (stale ++ o ∷ rest) ∙ simp append_assoc

length-shift : (stale : List Outcome) (o : Outcome) → length (shift stale o) ≡ length stale
length-shift [] o = refl
length-shift (s ∷ stale) o = omega (arith, length-append stale (o ∷ []))

entry_at :
    (kept stale rest : List Outcome) (o : Outcome) (i : ℕ)
    → i ≡ length kept + length stale
    → get_elem? (kept ++ (stale ++ o ∷ rest)) i ≡ some o
entry_at kept stale rest o i e =
    let e' : i ≡ length (kept ++ stale) = omega (arith, length-append kept stale) in
    rw (e', ← append_assoc) (get_elem?-append (kept ++ stale) o rest)

abbrev finish : List Outcome × ℕ → List Outcome
finish r = take r.1 r.0

-- Between the kept entries and those not yet read lie stale ones.
finish-compact_loop :
    (cutoff : Time) (kept stale rest : List Outcome) (i n : ℕ) (outcomes : List Outcome)
    → i ≡ length kept + length stale
    → n ≡ length kept
    → outcomes ≡ kept ++ (stale ++ rest)
    → finish (compact_loop cutoff (length rest) i n outcomes) ≡ kept ++ keep (in_window cutoff) rest
unfolding compact_loop
finish-compact_loop cutoff kept stale [] i n outcomes ei en eo =
    rw (eo, en, take-length_append, append-nil) refl
finish-compact_loop cutoff kept stale (o ∷ rest) i n outcomes ei en eo =
    rw (eo, entry_at kept stale rest o i ei, compact_loop)
      (elim (Bool-cases (in_window cutoff o)) [
        | inl inside ↦
            rw (inside, compact_loop)
              (finish-compact_loop cutoff (kept ++ o ∷ []) (shift stale o) rest (i + 1) (n + 1) _
                  (omega (arith, length-shift stale o, length-append kept (o ∷ [])))
                  (omega (arith, length-append kept (o ∷ [])))
                  (rw (eo, en) (set-shift kept stale rest o))
                ∙ append_assoc kept (o ∷ []) _)
        | inr outside ↦
            rw (outside, compact_loop)
              (finish-compact_loop cutoff kept (stale ++ o ∷ []) rest (i + 1) n _
                (omega (arith, length-append stale (o ∷ []))) en (rw eo (simp append_assoc)))
      ])

-- The pruning loop keeps the entries that are not before the cutoff, in their order.
pub compact-eq-keep :
    (cutoff : Time) (outcomes : List Outcome)
    → compact cutoff outcomes ≡ keep (in_window cutoff) outcomes
unfolding compact
compact-eq-keep cutoff outcomes =
    finish-compact_loop cutoff [] [] outcomes 0 0 outcomes refl refl refl
