-- ===== src/Prelude/Sort.antt =====
-- Python's `sorted(items, key=...)` with a numeric key: a stable sort.
pub mod Unique
use Prim.Native.Nat.{ℕ, suc, ◌≤◌}
use mathlib.Core.Path.{◌≡◌, refl, ap, ◌∙◌}
use mathlib.Core.List.{List, [], ◌∷◌, Perm}
use mathlib.Core.List.Perm
use native.Mathlib.Omega.{arith}
use research_platform.Prelude.Lists.{All, length}
use research_platform.Prelude.Tests.{leb, if◌then◌else◌, Bool-cases}
use mathlib.Core.Logic.{inl, inr}

module _ {ℓ} {A : Type ℓ} (key : A → ℕ) where
  pub insert_by : A → List A → List A
  insert_by x [] = x ∷ []
  insert_by x (y ∷ ys) = if leb (key x) (key y) then x ∷ y ∷ ys else y ∷ insert_by x ys

  unfoldable pub sort_by : List A → List A
  unfolding insert_by
  sort_by [] = []
  sort_by (x ∷ xs) = insert_by x (sort_by xs)

  -- `x` may stand in front of `ys`.
  abbrev pub IsAtMost : ℕ → List A → Type 0
  IsAtMost n [] = Unit
  IsAtMost n (y ∷ _) = n ≤ key y

  -- The keys ascend.
  abbrev pub IsAscending : List A → Type 0
  IsAscending [] = Unit
  IsAscending (x ∷ xs) = IsAtMost (key x) xs × IsAscending xs

  insert_by-IsAtMost :
      (n : ℕ) (x : A) (ys : List A) → n ≤ key x → IsAtMost n ys → IsAtMost n (insert_by x ys)
  unfolding insert_by
  insert_by-IsAtMost n x [] h k = h
  insert_by-IsAtMost n x (y ∷ ys) h k = ground arith

  insert_by-IsAscending : (x : A) (ys : List A) → IsAscending ys → IsAscending (insert_by x ys)
  unfolding insert_by
  insert_by-IsAscending x [] h = (tt, tt)
  insert_by-IsAscending x (y ∷ ys) h =
      ground (arith, insert_by-IsAscending x ys h.1, insert_by-IsAtMost (key y) x ys)

  pub sort_by-IsAscending : (xs : List A) → IsAscending (sort_by xs)
  unfolding sort_by
  sort_by-IsAscending [] = tt
  sort_by-IsAscending (x ∷ xs) = insert_by-IsAscending x (sort_by xs) (sort_by-IsAscending xs)

  insert_by-perm : (x : A) (ys : List A) → Perm (insert_by x ys) (x ∷ ys)
  unfolding insert_by
  insert_by-perm x [] = Perm.rfl
  insert_by-perm x (y ∷ ys) = elim (Bool-cases (leb (key x) (key y))) [
    | inl e ↦ rw e Perm.rfl
    | inr e ↦ rw e (Perm.trans (Perm.cons y (insert_by-perm x ys)) (Perm.swap x y ys))
  ]

  pub sort_by-perm : (xs : List A) → Perm (sort_by xs) xs
  unfolding sort_by
  sort_by-perm [] = Perm.rfl
  sort_by-perm (x ∷ xs) = Perm.trans (insert_by-perm x (sort_by xs)) (Perm.cons x (sort_by-perm xs))

  pub insert_by_front : (x : A) (ys : List A) → IsAtMost (key x) ys → insert_by x ys ≡ x ∷ ys
  unfolding insert_by
  insert_by_front x [] h = refl
  insert_by_front x (y ∷ ys) h = ground arith

  -- An ascending list is left as it is.
  pub sort_by_sorted : (xs : List A) → IsAscending xs → sort_by xs ≡ xs
  unfolding sort_by
  sort_by_sorted [] h = refl
  sort_by_sorted (x ∷ xs) h = ap (insert_by x) (sort_by_sorted xs h.1) ∙ insert_by_front x xs h.0

module _ {ℓ κ} {A : Type ℓ} (key : A → ℕ) (P : A → Type κ) where
  insert_by-All : (x : A) (ys : List A) → P x → All P ys → All P (insert_by key x ys)
  unfolding insert_by
  insert_by-All x [] p h = (p, tt)
  insert_by-All x (y ∷ ys) p h = elim (Bool-cases (leb (key x) (key y))) [
    | inl e ↦ rw e (p, h)
    | inr e ↦ rw e (h.0, insert_by-All x ys p h.1)
  ]

  -- What holds of every element holds of every element of the sorted list.
  pub sort_by-All : (xs : List A) → All P xs → All P (sort_by key xs)
  unfolding sort_by
  sort_by-All [] h = tt
  sort_by-All (x ∷ xs) h = insert_by-All x (sort_by key xs) h.0 (sort_by-All xs h.1)

  insert_by-All_given : (x : A) (ys : List A) → All P (insert_by key x ys) → P x × All P ys
  unfolding insert_by
  insert_by-All_given x [] h = h
  insert_by-All_given x (y ∷ ys) h = elim (Bool-cases (leb (key x) (key y))) [
    | inl e ↦ (rw e at h)
    | inr e ↦
        let kept : P y × All P (insert_by key x ys) = (rw e at h) in
        let (here, rest) = insert_by-All_given x ys kept.1 in (here, (kept.0, rest))
  ]

  -- What holds of every element of the sorted list holds of every element.
  pub sort_by-All_given : (xs : List A) → All P (sort_by key xs) → All P xs
  unfolding sort_by
  sort_by-All_given [] h = tt
  sort_by-All_given (x ∷ xs) h =
      let (here, rest) = insert_by-All_given x (sort_by key xs) h in
      (here, sort_by-All_given xs rest)

module _ {ℓ} {A : Type ℓ} (key : A → ℕ) where
  length-insert_by : (x : A) (ys : List A) → length (insert_by key x ys) ≡ suc (length ys)
  unfolding insert_by
  length-insert_by x [] = refl
  length-insert_by x (y ∷ ys) = ground (arith, length-insert_by x ys)

  pub length-sort_by : (xs : List A) → length (sort_by key xs) ≡ length xs
  unfolding sort_by
  length-sort_by [] = refl
  length-sort_by (x ∷ xs) = length-insert_by x (sort_by key xs) ∙ ap suc (length-sort_by xs)
