-- ===== src/Orchestrator/Select/Sorting.antt =====
-- sort.Slice of Go's library on the few candidates of selectBestAlternative: an insertion sort, as it
-- is for fewer than thirteen elements. The sorted part is kept in reverse.
use smart_retry_orchestrator.Common.{
  Bool, List, All, ◌∷◌, ◌≡◌, if◌then◌else◌, false, true, [], ◌++◌, ◌⊎◌, Bool-cases, inl, inr, refl,
}
use mathlib.Core.List.{reverse, reverse-append}

module _ {ℓ} {A : Type ℓ} (less : A → A → Bool) where
  -- the swaps from the right, while the new element is less than its neighbour
  insert_back : A → List A → List A
  insert_back x [] = x ∷ []
  insert_back x (y ∷ ys) =
      let later = insert_back x ys in if less x y then y ∷ later else x ∷ y ∷ ys

  sort_loop : List A → List A → List A
  sort_loop sorted [] = sorted
  sort_loop sorted (x ∷ xs) = sort_loop (insert_back x sorted) xs

  unfoldable pub sort_slice : List A → List A
  unfolding insert_back sort_loop
  sort_slice xs = reverse (sort_loop [] xs)

  -- No entry is less than `l`.
  abbrev pub IsLeast : A → List A → Type 0
  IsLeast l = All (λ y. less y l ≡ false)

  -- On the elements of a class, "not less" is a total preorder.
  module _ {κ} (Class : A → Type κ)
      (asymm : (x y : A) → Class x → Class y → less x y ≡ true → less y x ≡ false)
      (trans : (x y z : A)
        → Class x
        → Class y
        → Class z
        → less x y ≡ false
        → less y z ≡ false
        → less x z ≡ false) where
    IsLeast-trans :
        (l m : A) (ys : List A)
        → Class l
        → Class m
        → All Class ys
        → less l m ≡ false
        → IsLeast l ys
        → IsLeast m ys
    IsLeast-trans l m [] cl cm c h a = tt
    IsLeast-trans l m (y ∷ ys) cl cm (cy, c) h (e, a) =
        (trans y l m cy cl cm e h, IsLeast-trans l m ys cl cm c h a)

    irrefl : (l : A) → Class l → less l l ≡ false
    irrefl l cl = elim (Bool-cases (less l l)) [ inl e ↦ asymm l l cl cl e | inr e ↦ e ]

    -- The new element becomes the last if it is less than the last, and else stands before it.
    abbrev IsInserted : A → A → List A → List A → A → Type (ℓ ⊔ κ)
    IsInserted x l result zs m =
        (result ≡ zs ++ m ∷ [])
        × All Class zs
        × IsLeast l zs
        × (((m ≡ l) × (less x l ≡ false)) ⊎ ((m ≡ x) × (less x l ≡ true)))

    insert_back-last :
        (x l : A) (ys : List A)
        → Class x
        → Class l
        → All Class ys
        → IsLeast l ys
        → (zs : List A) × (m : A) × IsInserted x l (insert_back x (ys ++ l ∷ [])) zs m
    unfolding insert_back
    insert_back-last x l [] cx cl c a = elim (Bool-cases (less x l)) [
      | inl e ↦ (l ∷ [], x, (rw e refl, (cl, tt), (irrefl l cl, tt), inr (refl, e)))
      | inr e ↦ (x ∷ [], l, (rw e refl, (cx, tt), (e, tt), inl (refl, e)))
    ]
    insert_back-last x l (y ∷ ys) cx cl (cy, c) (ay, a) = elim (Bool-cases (less x y)) [
      | inl e ↦
          let (zs, m, (shape, cz, az, origin)) = insert_back-last x l ys cx cl c a in
          (y ∷ zs, m, (rw (e, shape) refl, (cy, cz), (ay, az), origin))
      | inr e ↦
          let below = trans x y l cx cy cl e ay in
          (x ∷ y ∷ ys, l, (rw e refl, (cx, (cy, c)), (below, (ay, a)), inl (refl, below)))
    ]

    -- The last of the new list is not above the old last or the new element.
    insert_back-IsLeast :
        (x l : A) (zs : List A) (m : A)
        → Class x
        → Class l
        → All Class zs
        → IsLeast l zs
        → ((m ≡ l) × (less x l ≡ false)) ⊎ ((m ≡ x) × (less x l ≡ true))
        → Class m × IsLeast m zs × (less x m ≡ false) × (less l m ≡ false)
    insert_back-IsLeast x l zs m cx cl cz a (inl (e, h)) = rw e (cl, a, h, irrefl l cl)
    insert_back-IsLeast x l zs m cx cl cz a (inr (e, h)) =
        let other = asymm x l cx cl h in
        rw e (cx, IsLeast-trans l x zs cl cx cz other a, irrefl x cx, other)

    sort_loop-IsLeast :
        (xs ys : List A) (l : A)
        → All Class xs
        → All Class ys
        → Class l
        → IsLeast l ys
        → (zs : List A) × (m : A) × ((sort_loop (ys ++ l ∷ []) xs ≡ zs ++ m ∷ [])
            × Class m
            × IsLeast m xs
            × (less l m ≡ false))
    unfolding sort_loop
    sort_loop-IsLeast [] ys l cxs cys cl a = (ys, l, (refl, cl, tt, irrefl l cl))
    sort_loop-IsLeast (x ∷ xs) ys l (cx, cxs) cys cl a =
        let (zs, m, (shape, cz, az, origin)) = insert_back-last x l ys cx cl cys a in
        let (cm, am, xm, lm) = insert_back-IsLeast x l zs m cx cl cz az origin in
        let (ws, n, (shape', cn, an, mn)) = sort_loop-IsLeast xs zs m cxs cz cm am in
        (ws, n, (rw shape shape', cn, (trans x m n cx cm cn xm mn, an), trans l m n cl cm cn lm mn))

    -- The first element of the sorted slice belongs to the class, and no element is less than it.
    pub sort_slice-IsLeast :
        (x : A) (xs : List A)
        → All Class (x ∷ xs)
        → (m : A) × (rest : List A) × ((sort_slice (x ∷ xs) ≡ m ∷ rest)
            × Class m
            × IsLeast m (x ∷ xs))
    unfolding sort_slice
    sort_slice-IsLeast x xs (cx, cxs) =
        let (zs, m, (shape, cm, am, xm)) = sort_loop-IsLeast xs [] x cxs tt cx tt in
        (m, reverse zs, (rw (shape, reverse-append) refl, cm, (xm, am)))
