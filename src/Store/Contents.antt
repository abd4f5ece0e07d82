-- ===== src/Store/Contents.antt =====
-- The abstract store: the transactions in the order in which they were saved, no id twice.
use smart_retry_orchestrator.Domain.Models.{Transaction}
use smart_retry_orchestrator.Common.{
  List, String, ◌∷◌, Option, map, none, ◌≡◌, if◌then◌else◌, ◌++◌, some, [], str_eq, arith, eq_iff,
  ap, refl, All, eq_refl, Bool-cases, inl, sym, ◌∙◌, inr,
}
use mathlib.Core.Option.{some-injective}

module _ {F : Type 0} where
  abbrev pub find : String → List (Transaction F) → Option (Transaction F)
  find id [] = none
  find id (t ∷ rest) = let later = find id rest in if str_eq t.id id then some t else later

  abbrev pub ids : List (Transaction F) → List String
  ids = map (λ t. t.id)

  abbrev pub Distinct : List (Transaction F) → Type 0
  Distinct [] = Unit
  Distinct (t ∷ rest) = (find t.id rest ≡ none) × Distinct rest

  -- The transaction takes the place of the one with its id.
  abbrev pub replace : Transaction F → List (Transaction F) → List (Transaction F)
  replace tx [] = []
  replace tx (t ∷ rest) = (if str_eq t.id tx.id then tx else t) ∷ replace tx rest

  pub find-append :
      (id : String) (tx : Transaction F) (ts : List (Transaction F))
      → find tx.id ts ≡ none
      → find id (ts ++ tx ∷ []) ≡ (if str_eq tx.id id then some tx else find id ts)
  find-append id tx [] h = refl
  find-append id tx (t ∷ ts) h =
      ground (arith, eq_iff t.id id, eq_iff tx.id id, eq_iff t.id tx.id, find-append id tx ts)

  pub ids-append :
      (ts : List (Transaction F)) (tx : Transaction F) → ids (ts ++ tx ∷ []) ≡ ids ts ++ tx.id ∷ []
  ids-append [] tx = refl
  ids-append (t ∷ ts) tx = ap (t.id ∷◌) (ids-append ts tx)

  pub Distinct-append :
      (ts : List (Transaction F)) (tx : Transaction F)
      → Distinct ts
      → find tx.id ts ≡ none
      → Distinct (ts ++ tx ∷ [])
  Distinct-append [] tx d h = (refl, tt)
  Distinct-append (t ∷ ts) tx d h = ground (
    arith,
    eq_iff t.id tx.id,
    eq_iff tx.id t.id,
    find-append t.id tx ts,
    Distinct-append ts tx d.1,
  )

  pub ids-replace : (ts : List (Transaction F)) (tx : Transaction F) → ids (replace tx ts) ≡ ids ts
  ids-replace [] tx = refl
  ids-replace (t ∷ ts) tx = ground (arith, eq_iff t.id tx.id, ids-replace ts tx)

  abbrev replaced : String → Transaction F → Option (Transaction F) → Option (Transaction F)
  replaced id tx none = none
  replaced id tx (some t) = some (if str_eq tx.id id then tx else t)

  find-replaced :
      (id : String) (tx : Transaction F) (ts : List (Transaction F))
      → find id (replace tx ts) ≡ replaced id tx (find id ts)
  find-replaced id tx [] = refl
  find-replaced id tx (t ∷ ts) =
      ground (arith, eq_iff t.id tx.id, eq_iff t.id id, eq_iff tx.id id, find-replaced id tx ts)

  pub find-replace :
      (id : String) (tx : Transaction F) (ts : List (Transaction F)) {old : Transaction F}
      → find tx.id ts ≡ some old
      → find id (replace tx ts) ≡ (if str_eq tx.id id then some tx else find id ts)
  find-replace id tx ts h = ground (arith, find-replaced id tx ts, eq_iff tx.id id)

  find-replace_absent :
      (id : String) (tx : Transaction F) (ts : List (Transaction F))
      → find id ts ≡ none
      → find id (replace tx ts) ≡ none
  find-replace_absent id tx ts h = ground (arith, find-replaced id tx ts)

  pub Distinct-replace :
      (tx : Transaction F) (ts : List (Transaction F)) → Distinct ts → Distinct (replace tx ts)
  Distinct-replace tx [] d = tt
  Distinct-replace tx (t ∷ ts) d = ground (
    arith,
    eq_iff t.id tx.id,
    find-replace_absent t.id tx ts,
    find-replace_absent tx.id tx ts,
    Distinct-replace tx ts d.1,
  )

  -- Each transaction is found under its id.
  abbrev IsFoundIn : List (Transaction F) → Transaction F → Type 0
  IsFoundIn all t = find t.id all ≡ some t

  IsFoundIn-cons :
      (s : Transaction F) (all ts : List (Transaction F))
      → find s.id ts ≡ none
      → All (IsFoundIn all) ts
      → All (IsFoundIn (s ∷ all)) ts
  IsFoundIn-cons s all [] h a = tt
  IsFoundIn-cons s all (t ∷ ts) h (e, a) =
      ground (arith, eq_iff s.id t.id, eq_iff t.id s.id, IsFoundIn-cons s all ts)

  pub Distinct-found : (ts : List (Transaction F)) → Distinct ts → All (IsFoundIn ts) ts
  Distinct-found [] d = tt
  Distinct-found (t ∷ ts) d = (rw eq_refl refl, IsFoundIn-cons t ts ts d.0 (Distinct-found ts d.1))

  replace_absent :
      (tx : Transaction F) (ts : List (Transaction F)) → find tx.id ts ≡ none → replace tx ts ≡ ts
  replace_absent tx [] h = refl
  replace_absent tx (t ∷ ts) h = ground (arith, replace_absent tx ts)

  pub replace_last :
      (tx old : Transaction F) (ts : List (Transaction F))
      → find tx.id ts ≡ none
      → tx.id ≡ old.id
      → replace tx (ts ++ old ∷ []) ≡ ts ++ tx ∷ []
  replace_last tx old [] h e = ground (arith, eq_iff old.id tx.id)
  replace_last tx old (t ∷ ts) h e = ground (arith, replace_last tx old ts)

  pub find_last :
      (tx : Transaction F) (ts : List (Transaction F))
      → find tx.id ts ≡ none
      → find tx.id (ts ++ tx ∷ []) ≡ some tx
  find_last tx ts h = rw (find-append tx.id tx ts h, eq_refl) refl

  pub found_id :
      (id : String) (ts : List (Transaction F)) (tx : Transaction F)
      → find id ts ≡ some tx
      → tx.id ≡ id
  found_id id [] tx h = cc
  found_id id (t ∷ ts) tx h = elim (Bool-cases (str_eq t.id id)) [
    | inl e ↦
        ap (λ (x : Transaction F). x.id) (sym (some-injective _ _ (rw e at h)))
        ∙ (eq_iff t.id id).0 e
    | inr e ↦ found_id id ts tx (rw e at h)
  ]
