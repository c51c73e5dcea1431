-- ===== src/Base/Sorting.antt =====
-- `slice::sort_by_key`, a stable sort, as an insertion sort. `IsSorted` is ascending in the key.
use Prim.Native.Nat.{ℕ, suc, ◌≤◌}
use mathlib.Core.Path.{◌≡◌, refl, ◌∙◌, ap}
use mathlib.Core.Logic.{inl, inr}
use mathlib.Core.List.{List, [], ◌∷◌, Perm}
use mathlib.Core.List.Perm
use native.Mathlib.Omega.{arith}
use safe_cast.Base.Tests.{leb, leb→le, leb→lt, if◌then◌else◌, Bool-cases}
use safe_cast.Base.Lists.{length, All}

module _ {ℓ} {A : Type ℓ} (key : A → ℕ) where
  -- Before the first element that is not smaller: equal keys keep their order.
  unfoldable pub insert_by : A → List A → List A
  insert_by x [] = x ∷ []
  insert_by x (y ∷ ys) =
      let later = insert_by x ys in if leb (key x) (key y) then x ∷ y ∷ ys else y ∷ later

  unfoldable pub sort_by_key : List A → List A
  unfolding insert_by
  sort_by_key [] = []
  sort_by_key (x ∷ xs) = insert_by x (sort_by_key xs)

  -- Each element is at most as large as every later one.
  abbrev pub IsSorted : List A → Type 0
  IsSorted [] = Unit
  IsSorted (x ∷ xs) = All (λ y. key x ≤ key y) xs × IsSorted xs

  pub insert_by-All :
      (P : A → Type 0) (x : A) (xs : List A) → P x → All P xs → All P (insert_by x xs)
  unfolding insert_by
  insert_by-All P x [] p h = (p, tt)
  insert_by-All P x (y ∷ ys) p h = elim (Bool-cases (leb (key x) (key y))) [
    | inl e ↦ rw e (p, h)
    | inr e ↦ rw e (h.0, insert_by-All P x ys p h.1)
  ]

  pub sort_by_key-All : (P : A → Type 0) (xs : List A) → All P xs → All P (sort_by_key xs)
  unfolding sort_by_key
  sort_by_key-All P [] h = tt
  sort_by_key-All P (x ∷ xs) h = insert_by-All P x (sort_by_key xs) h.0 (sort_by_key-All P xs h.1)

  All-insert_by : (P : A → Type 0) (x : A) (xs : List A) → All P (insert_by x xs) → P x × All P xs
  unfolding insert_by
  All-insert_by P x [] h = h
  All-insert_by P x (y ∷ ys) h = elim (Bool-cases (leb (key x) (key y))) [
    | inl e ↦ rw e at h
    | inr e ↦
        let later = rw e at h in let ih = All-insert_by P x ys later.1 in (ih.0, (later.0, ih.1))
  ]

  pub All-sort_by_key : (P : A → Type 0) (xs : List A) → All P (sort_by_key xs) → All P xs
  unfolding sort_by_key
  All-sort_by_key P [] h = tt
  All-sort_by_key P (x ∷ xs) h =
      let parts = All-insert_by P x (sort_by_key xs) h in (parts.0, All-sort_by_key P xs parts.1)

  All-above :
      (x y : A) (ys : List A)
      → key x ≤ key y
      → All (λ z. key y ≤ key z) ys
      → All (λ z. key x ≤ key z) ys
  All-above x y [] le h = tt
  All-above x y (z ∷ zs) le h = (omega (arith, h.0), All-above x y zs le h.1)

  insert_by-IsSorted : (x : A) (xs : List A) → IsSorted xs → IsSorted (insert_by x xs)
  unfolding insert_by
  insert_by-IsSorted x [] h = (tt, tt)
  insert_by-IsSorted x (y ∷ ys) h = elim (Bool-cases (leb (key x) (key y))) [
    | inl e ↦ let le = leb→le (key x) (key y) e in rw e ((le, All-above x y ys le h.0), h)
    | inr e ↦
        let lt = leb→lt (key x) (key y) e in
        rw e
          (insert_by-All (λ z. key y ≤ key z) x ys (omega arith) h.0, insert_by-IsSorted x ys h.1)
  ]

  pub sort_by_key-IsSorted : (xs : List A) → IsSorted (sort_by_key xs)
  unfolding sort_by_key
  sort_by_key-IsSorted [] = tt
  sort_by_key-IsSorted (x ∷ xs) = insert_by-IsSorted x (sort_by_key xs) (sort_by_key-IsSorted xs)

  insert_by-perm : (x : A) (xs : List A) → Perm (insert_by x xs) (x ∷ xs)
  unfolding insert_by
  insert_by-perm x [] = Perm.refl (x ∷ [])
  insert_by-perm x (y ∷ ys) = elim (Bool-cases (leb (key x) (key y))) [
    | inl e ↦ rw e (Perm.refl (x ∷ y ∷ ys))
    | inr e ↦ rw e (Perm.trans (Perm.cons y (insert_by-perm x ys)) (Perm.swap x y ys))
  ]

  pub sort_by_key-perm : (xs : List A) → Perm (sort_by_key xs) xs
  unfolding sort_by_key
  sort_by_key-perm [] = Perm.refl []
  sort_by_key-perm (x ∷ xs) =
      Perm.trans (insert_by-perm x (sort_by_key xs)) (Perm.cons x (sort_by_key-perm xs))

  insert_by-length : (x : A) (xs : List A) → length (insert_by x xs) ≡ suc (length xs)
  unfolding insert_by
  insert_by-length x [] = refl
  insert_by-length x (y ∷ ys) = elim (Bool-cases (leb (key x) (key y))) [
    | inl e ↦ rw e refl
    | inr e ↦ rw e (ap suc (insert_by-length x ys))
  ]

  pub length-sort_by_key : (xs : List A) → length (sort_by_key xs) ≡ length xs
  unfolding sort_by_key
  length-sort_by_key [] = refl
  length-sort_by_key (x ∷ xs) = insert_by-length x (sort_by_key xs) ∙ ap suc (length-sort_by_key xs)
