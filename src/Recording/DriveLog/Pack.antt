-- ===== src/Recording/DriveLog/Pack.antt =====
-- What fanning out and packing do to the columns of a `DriveLog`.
use kaivuriprokkis.Prelude.{
  ℕ, ◌≡◌, ◌∙◌, sym, ap, refl, Bool, true, false, Option, none, some, List, [], ◌∷◌, ◌++◌, take,
  drop, arith, Option-cases, Bool-cases, ◌⊎◌, inl, inr, if◌then◌else◌, zero, suc,
}
use kaivuriprokkis.Recording.DriveLog.{has, are_in, assign, concat, or_nil, keys, fan_out, pack}

module _ {K V : Type 0} (eqb : K → K → Bool) where
  -- The values that a row has under a name.
  unfoldable pub values_of : K → List (K × V) → List V
  values_of k [] = []
  values_of k ((j, v) ∷ row) = if eqb k j then v ∷ values_of k row else values_of k row

  unfoldable pub all_values : K → List (List (K × V)) → List V
  unfolding values_of
  all_values k [] = []
  all_values k (row ∷ rows) = values_of k row ++ all_values k rows

pub append_assoc {ℓ} : {A : Type ℓ} (xs ys zs : List A) → (xs ++ ys) ++ zs ≡ xs ++ (ys ++ zs)
append_assoc [] ys zs = refl
append_assoc (x ∷ xs) ys zs = ap (λ l. x ∷ l) (append_assoc xs ys zs)

pub append_nil {ℓ} : {A : Type ℓ} (xs : List A) → xs ++ [] ≡ xs
append_nil [] = refl
append_nil (x ∷ xs) = ap (λ l. x ∷ l) (append_nil xs)

concat-append :
    {V : Type 0} (xss : List (List V)) (ys : List V) → concat (xss ++ (ys ∷ [])) ≡ concat xss ++ ys
concat-append [] ys = append_nil ys
concat-append (xs ∷ xss) ys =
    ap (λ l. xs ++ l) (concat-append xss ys) ∙ sym (append_assoc xs (concat xss) ys)

module _ {K : Type 0} (eqb : K → K → Bool) (sound : (j k : K) → eqb j k ≡ true → j ≡ k) where
  pub has-take-drop :
      (n : ℕ) (ks : List K) (k : K)
      → has eqb k ks ≡ true
      → (has eqb k (take n ks) ≡ true) ⊎ (has eqb k (drop n ks) ≡ true)
  unfolding has
  has-take-drop zero ks k h = inr h
  has-take-drop (suc n) [] k h = inl h
  has-take-drop (suc n) (j ∷ ks) k h = elim (Bool-cases (eqb k j)) [
    | inl e ↦ inl (rw e refl)
    | inr e ↦ elim (has-take-drop n ks k (ground arith)) [
      | inl t ↦ inl (rw (e, t) refl)
      | inr d ↦ inr d
    ]
  ]

  pub are_in-has :
      (ks js : List K) (k : K)
      → are_in eqb ks js ≡ true
      → has eqb k js ≡ false
      → has eqb k ks ≡ false
  unfolding are_in has
  are_in-has [] js k a h = refl
  are_in-has (i ∷ ks) js k a h = elim (Bool-cases (eqb k i)) [
    | inl e ↦
        let at_i : has eqb i js ≡ false = ap (λ x. has eqb x js) (sym (sound k i e)) ∙ h in
        ground arith
    | inr e ↦ ground (arith, are_in-has ks js k)
  ]

module _ {K V : Type 0} (eqb : K → K → Bool) (sound : (j k : K) → eqb j k ≡ true → j ≡ k) where
  pub fan_out-values :
      (row : List (K × V)) (cols : K → List V) (k : K)
      → fan_out eqb row cols k ≡ cols k ++ values_of eqb k row
  unfolding fan_out values_of
  fan_out-values [] cols k = sym (append_nil (cols k))
  fan_out-values ((j, v) ∷ row) cols k = elim (Bool-cases (eqb k j)) [
    | inl e ↦
        fan_out-values row (assign eqb j (cols j ++ (v ∷ [])) cols) k
        ∙ rw (e, ← sound k j e, append_assoc (cols k) (v ∷ []) (values_of eqb k row)) refl
    | inr e ↦ fan_out-values row (assign eqb j (cols j ++ (v ∷ [])) cols) k ∙ rw e refl
  ]

  -- Moving the closing values of one name to its packed blocks leaves every column as it was.
  move-whole :
      (j : K) (vs : List V) (c : K → Option (List V)) (p : K → List (List V)) (k : K)
      → c j ≡ some vs
      → concat (assign eqb j (p j ++ (vs ∷ [])) p k) ++ or_nil (assign eqb j none c k)
        ≡ concat (p k) ++ or_nil (c k)
  move-whole j vs c p k e = elim (Bool-cases (eqb k j)) [
    | inl h ↦
        let at_k : c k ≡ some vs = ap c (sound k j h) ∙ e in
        rw (h, at_k, ← sound k j h, concat-append (p k) vs) (append_nil (concat (p k) ++ vs))
    | inr h ↦ rw h refl
  ]

  pub pack-whole :
      (ks : List K) (c : K → Option (List V)) (p : K → List (List V)) (k : K)
      → concat ((pack eqb ks c p).1 k) ++ or_nil ((pack eqb ks c p).0 k)
        ≡ concat (p k) ++ or_nil (c k)
  unfolding pack
  pack-whole [] c p k = refl
  pack-whole (j ∷ ks) c p k = elim (Option-cases (c j)) [
    | inl e ↦ rw (pack, e) (pack-whole ks c p k)
    | inr (vs, e) ↦
        rw (pack, e)
          (pack-whole ks (assign eqb j none c) (assign eqb j (p j ++ (vs ∷ [])) p) k
            ∙ move-whole j vs c p k e)
  ]

  assign-none :
      (j : K) (c : K → Option (List V)) (k : K) → c k ≡ none → assign eqb j none c k ≡ none
  assign-none j c k e = elim (Bool-cases (eqb k j)) [ inl h ↦ rw h refl | inr h ↦ rw (h, e) refl ]

  pub pack-none :
      (ks : List K) (c : K → Option (List V)) (p : K → List (List V)) (k : K)
      → c k ≡ none
      → (pack eqb ks c p).0 k ≡ none
  unfolding pack
  pack-none [] c p k e = e
  pack-none (j ∷ ks) c p k e = elim (Option-cases (c j)) [
    | inl n ↦ rw (pack, n) (pack-none ks c p k e)
    | inr (vs, n) ↦
        rw (pack, n)
          (pack-none ks (assign eqb j none c) (assign eqb j (p j ++ (vs ∷ [])) p) k
            (assign-none j c k e))
  ]

  -- The names that are packed have nothing left.
  pub pack-gone :
      (ks : List K) (c : K → Option (List V)) (p : K → List (List V)) (k : K)
      → has eqb k ks ≡ true
      → (pack eqb ks c p).0 k ≡ none
  unfolding pack has
  pack-gone [] c p k h = cc
  pack-gone (j ∷ ks) c p k h = elim (Option-cases (c j)) [
    | inl n ↦ elim (Bool-cases (eqb k j)) [
      | inl e ↦ rw (pack, n) (pack-none ks c p k (ap c (sound k j e) ∙ n))
      | inr e ↦ rw (pack, n) (pack-gone ks c p k (ground arith))
    ]
    | inr (vs, n) ↦ elim (Bool-cases (eqb k j)) [
      | inl e ↦
          rw (pack, n)
            (pack-none ks (assign eqb j none c) (assign eqb j (p j ++ (vs ∷ [])) p) k (rw e refl))
      | inr e ↦
          rw (pack, n)
            (pack-gone ks (assign eqb j none c) (assign eqb j (p j ++ (vs ∷ [])) p) k
              (ground arith))
    ]
  ]

  pub values_of-nil :
      (row : List (K × V)) (k : K) → has eqb k (keys row) ≡ false → values_of eqb k row ≡ []
  unfolding values_of keys has
  values_of-nil [] k h = refl
  values_of-nil ((j, v) ∷ row) k h = ground (arith, values_of-nil row k)
