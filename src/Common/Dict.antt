-- ===== src/Common/Dict.antt =====
-- Go's maps with string keys, as association lists. A missing key is `none`.
use text.Mathlib.TextPositions.{eq_refl}
use text.Mathlib.TextEquality.{eq_iff}
use Prim.Native.String.{String}
use text.Mathlib.Text.{◌==◌}
use mathlib.Core.Path.{◌≡◌, refl}
use mathlib.Core.List.{List, [], ◌∷◌}
use mathlib.Core.Option.{Option, none, some}
use native.Mathlib.Omega.{arith}
use smart_retry_orchestrator.Common.Tests.{if◌then◌else◌}

-- One entry for each key; an insertion replaces it where it stands, or comes last.
abbrev pub Dict {κ} : Type κ → Type κ
Dict Value = List (String × Value)

module _ {κ} {Value : Type κ} where
  unfoldable pub lookup : String → Dict Value → Option Value
  lookup wanted [] = none
  lookup wanted (entry ∷ others) = if entry.0 == wanted then some entry.1 else lookup wanted others

  unfoldable pub insert : String → Value → Dict Value → Dict Value
  insert key value [] = (key, value) ∷ []
  insert key value (entry ∷ others) =
      let kept = insert key value others in
      if entry.0 == key then (key, value) ∷ others else entry ∷ kept

  -- A key that was inserted has the new value, and the others have what they had.
  pub lookup-insert :
      (key asked : String) (value : Value) (d : Dict Value)
      → lookup asked (insert key value d) ≡ (if key == asked then some value else lookup asked d)
  unfolding lookup insert
  lookup-insert key asked value [] = refl
  lookup-insert key asked value (entry ∷ others) = ground (
    arith,
    lookup-insert key asked value others,
    eq_iff entry.0 asked,
    eq_iff entry.0 key,
    eq_iff key asked,
  )

  pub lookup-insert_self :
      (key : String) (value : Value) (d : Dict Value) → lookup key (insert key value d) ≡ some value
  lookup-insert_self key value d = rw (lookup-insert key key value d, eq_refl key) refl

-- The value under a key, or a default.
abbrev pub get_or {κ} : {Value : Type κ} → Value → Option Value → Value
get_or default none = default
get_or default (some value) = value
