-- ===== src/Prelude/Sort/Unique.antt =====
-- When two sorts give the same list: of a permutation with distinct keys, and of a list that is
-- joined from a lower and an upper part.
use mathlib.Core.Path.{◌≡◌, refl, ap, ap₂, ◌∙◌, subst, sym}
use mathlib.Core.Logic.{◌≢◌}
use Prim.Native.Nat.{ℕ, ◌≤◌}
use mathlib.Core.List.{List, [], ◌∷◌, ◌++◌, Permᴰ}
use native.Mathlib.Omega.{arith}
use research_platform.Prelude.Lists.{All}
use research_platform.Prelude.Sort.{insert_by, sort_by, IsAtMost, insert_by_front, sort_by-All}

module _ {ℓ} {A : Type ℓ} (key : A → ℕ) where
  -- No two elements have the same key.
  abbrev pub IsDistinct : List A → Type 0
  IsDistinct [] = Unit
  IsDistinct (x ∷ xs) = All (λ y. key x ≢ key y) xs × IsDistinct xs

  insert_by_swap :
      (x y : A) (zs : List A)
      → key x ≢ key y
      → insert_by key x (insert_by key y zs) ≡ insert_by key y (insert_by key x zs)
  unfolding insert_by
  insert_by_swap x y [] h = ground arith
  insert_by_swap x y (z ∷ zs) h = ground (arith, insert_by_swap x y zs h)

  insert_by-append :
      (x : A) (ws zs : List A)
      → IsAtMost key (key x) zs
      → insert_by key x (ws ++ zs) ≡ insert_by key x ws ++ zs
  unfolding insert_by
  insert_by-append x [] zs h = insert_by_front key x zs h
  insert_by-append x (w ∷ ws) zs h = ground (arith, insert_by-append x ws zs h)

  All-IsAtMost : (n : ℕ) (ys : List A) → All (λ y. n ≤ key y) ys → IsAtMost key n ys
  All-IsAtMost n [] h = tt
  All-IsAtMost n (y ∷ ys) h = h.0

  -- A list whose first part lies below its second is sorted part by part.
  pub sort_by-append :
      (xs ys : List A)
      → All (λ x. All (λ y. key x ≤ key y) ys) xs
      → sort_by key (xs ++ ys) ≡ sort_by key xs ++ sort_by key ys
  unfolding sort_by
  sort_by-append [] ys h = refl
  sort_by-append (x ∷ xs) ys h =
      ap (insert_by key x) (sort_by-append xs ys h.1)
      ∙ insert_by-append x (sort_by key xs) (sort_by key ys)
          (All-IsAtMost (key x) (sort_by key ys) (sort_by-All key (λ y. key x ≤ key y) ys h.0))

  All-perm : (P : A → Type 0) (xs ys : List A) → Permᴰ xs ys → All P xs → All P ys
  All-perm P _ _ Permᴰ.nil h = tt
  All-perm P _ _ (Permᴰ.cons {l₁ = xs} {l₂ = ys} e p) h = (subst P e h.0, All-perm P xs ys p h.1)
  All-perm P _ _ (Permᴰ.swap e f) h = (subst P f h.1.0, (subst P e h.0, h.1.1))
  All-perm P _ _ (Permᴰ.trans {l₁ = xs} {l₂ = ys} {l₃ = zs} p q) h =
      All-perm P ys zs q (All-perm P xs ys p h)

  IsDistinct-perm : (xs ys : List A) → Permᴰ xs ys → IsDistinct xs → IsDistinct ys
  IsDistinct-perm _ _ Permᴰ.nil h = tt
  IsDistinct-perm _ _ (Permᴰ.cons {b = b} {l₁ = xs} {l₂ = ys} e p) h = (
    All-perm (λ y. key b ≢ key y) xs ys p (subst (λ z. All (λ y. key z ≢ key y) xs) e h.0),
    IsDistinct-perm xs ys p h.1,
  )
  IsDistinct-perm _ _ (Permᴰ.swap {b = b} {b' = b'} {l = l} e f) h =
      subst (λ x. IsDistinct (x ∷ b' ∷ l)) f
        (subst (λ y. IsDistinct (b ∷ y ∷ l)) e ((λ q. h.0.0 (sym q), h.1.0), (h.0.1, h.1.1)))
  IsDistinct-perm _ _ (Permᴰ.trans {l₁ = xs} {l₂ = ys} {l₃ = zs} p q) h =
      IsDistinct-perm ys zs q (IsDistinct-perm xs ys p h)

  -- Two arrangements of elements with distinct keys are sorted to the same list.
  pub sort_by-eq_perm :
      (xs ys : List A) → Permᴰ xs ys → IsDistinct xs → sort_by key xs ≡ sort_by key ys
  unfolding sort_by
  sort_by-eq_perm _ _ Permᴰ.nil h = refl
  sort_by-eq_perm _ _ (Permᴰ.cons {l₁ = xs} {l₂ = ys} e p) h =
      ap₂ (insert_by key) e (sort_by-eq_perm xs ys p h.1)
  sort_by-eq_perm _ _ (Permᴰ.swap {a} {b} {l = l} e f) h =
      insert_by_swap a b (sort_by key l) h.0.0
      ∙ ap₂ (λ x y. insert_by key x (insert_by key y (sort_by key l))) f e
  sort_by-eq_perm _ _ (Permᴰ.trans {l₁ = xs} {l₂ = ys} {l₃ = zs} p q) h =
      sort_by-eq_perm xs ys p h ∙ sort_by-eq_perm ys zs q (IsDistinct-perm xs ys p h)
