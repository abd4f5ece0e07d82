-- ===== src/Api/Validity.antt =====
-- What FailureRequest.Validate (internal/api/request.go) accepts.
-- Membership in a list of texts.
use smart_retry_orchestrator.Float.{Float64}
use smart_retry_orchestrator.Common.{
  List, Bool, String, str_eq, ◌∷◌, ◌≡◌, false, true, [], not, ◌↔◌, ◌⊎◌, ◌≢◌, ◌&&◌, arith, eq_iff,
  Bool-cases, inl, inr, refl, ap,
}
use smart_retry_orchestrator.Api.Requests.{
  FailureRequest, is_one_of, validate_failure, valid_currencies, valid_processors, append_if,
}

abbrev pub IsOneOf : List String → String → Type 0
IsOneOf [] s = ⊥
IsOneOf (k ∷ rest) s = (k ≡ s) ⊎ IsOneOf rest s

is_one_of_iff : (ks : List String) (s : String) → (is_one_of ks s ≡ true) ↔ IsOneOf ks s
is_one_of_iff [] s = (λ e. cc, λ h. absurd h)
is_one_of_iff (k ∷ rest) s = elim (Bool-cases (str_eq k s)) [
  | inl e ↦ rw e (λ _. inl ((eq_iff k s).0 e), λ _. refl)
  | inr e ↦
      let (to, from) = is_one_of_iff rest s in
      rw e
        (λ h. inr (to h), λ o. elim o [ inl same ↦ cc ((eq_iff k s).1 same, e) | inr h ↦ from h ])
]

append_if_iff :
    (failed : Bool) (message : String) (errs : List String)
    → (append_if failed message errs ≡ []) ↔ ((failed ≡ false) × (errs ≡ []))
unfolding append_if
append_if_iff true message [] = (λ e. cc, λ h. cc)
append_if_iff true message (x ∷ errs) = (λ e. cc, λ h. cc)
append_if_iff false message errs = (λ e. (refl, e), λ h. h.1)

ne_of_false : (s t : String) → (str_eq s t ≡ false) ↔ (s ≢ t)
ne_of_false s t = (
  λ e same. cc ((eq_iff s t).1 same, e),
  λ ne. elim (Bool-cases (str_eq s t)) [ inl e ↦ absurd (ne ((eq_iff s t).0 e)) | inr e ↦ e ],
)

-- The guard for a field that must not be empty and must be a key of a map.
guarded :
    (ks : List String) (s : String)
    → (str_eq s "" ≡ false) × ((not (str_eq s "") && not (is_one_of ks s)) ≡ false)
    → is_one_of ks s ≡ true
guarded ks s h = ground arith

unguarded :
    (ks : List String) (s : String)
    → is_one_of ks "" ≡ false
    → is_one_of ks s ≡ true
    → (str_eq s "" ≡ false) × ((not (str_eq s "") && not (is_one_of ks s)) ≡ false)
unguarded ks s absent h = elim (Bool-cases (str_eq s "")) [
  | inl e ↦ cc (ap (is_one_of ks) ((eq_iff s "").0 e), absent, h)
  | inr e ↦ rw (e, h) (refl, refl)
]

module _ {F : Type 0} ⦃fl : Float64 F⦄ where
  -- The fields that a failure event must have.
  pub record IsAcceptable (r : FailureRequest F) : Type 0 where
    pub named : r.transaction_id ≢ ""
    pub positive : fl.le r.amount (fl.lit 0 1) ≡ false
    pub currency_known : IsOneOf valid_currencies r.currency
    pub coded : r.failure_code ≢ ""
    pub processor_known : IsOneOf valid_processors r.processor

  -- Validate finds no error exactly when the request has an id, an amount that is greater than zero,
  -- one of the seven currencies, a failure code, and one of the three processors; any failure code
  -- that is not empty will do.
  pub validate_failure_iff : (r : FailureRequest F) → (validate_failure r ≡ []) ↔ IsAcceptable r
  unfolding validate_failure
  validate_failure_iff r = (
    λ e.
        let (p, e) = (append_if_iff _ _ _).0 e in
        let (p', e) = (append_if_iff _ _ _).0 e in
        let (c, e) = (append_if_iff _ _ _).0 e in
        let (k, e) = (append_if_iff _ _ _).0 e in
        let (k', e) = (append_if_iff _ _ _).0 e in
        let (a, e) = (append_if_iff _ _ _).0 e in
        let (i, _) = (append_if_iff _ _ _).0 e in
        record {
          named = (ne_of_false _ _).0 i;
          positive = a;
          currency_known =
              (is_one_of_iff valid_currencies r.currency).0 (guarded valid_currencies _ (k', k));
          coded = (ne_of_false _ _).0 c;
          processor_known =
              (is_one_of_iff valid_processors r.processor).0 (guarded valid_processors _ (p', p));
        },
    λ h.
        let i = (ne_of_false _ _).1 h.named in
        let c = (ne_of_false _ _).1 h.coded in
        let (k', k) =
          unguarded valid_currencies _ refl
            ((is_one_of_iff valid_currencies r.currency).1 h.currency_known) in
        let (p', p) =
          unguarded valid_processors _ refl
            ((is_one_of_iff valid_processors r.processor).1 h.processor_known) in
        (append_if_iff _ _ _).1 (
          p,
          (append_if_iff _ _ _).1 (
            p',
            (append_if_iff _ _ _).1 (
              c,
              (append_if_iff _ _ _).1 (
                k,
                (append_if_iff _ _ _).1
                    (k', (append_if_iff _ _ _).1 (h.positive, (append_if_iff _ _ _).1 (i, refl))),
              ),
            ),
          ),
        ),
  )
