-- ===== src/Base/Sort.antt =====
-- `Array.prototype.sort`: stable insertion by an order given as a Boolean test.
use Prim.Native.Nat.{ℕ, zero, suc}
use mathlib.Core.Path.{◌≡◌, refl, sym, subst}
use mathlib.Core.Logic.{◌⊎◌, inl, inr}
use mathlib.Core.Bool.{Bool, true, false}
use mathlib.Core.List.{List, [], ◌∷◌, Perm}
use mathlib.Core.List.Perm
use native.Mathlib.Omega.{arith}
use nkc.Base.Tests.{if◌then◌else◌, Bool-cases}
use nkc.Base.Lists.{All, All-map, All-take, All-elem, Elem, take}

-- `le a b`: the comparator leaves `a` before `b`.
module _ {A : Type 0} (le : A → A → Bool) where
  unfoldable pub insert : A → List A → List A
  insert x [] = x ∷ []
  insert x (y ∷ ys) = let rest = insert x ys in if le x y then x ∷ y ∷ ys else y ∷ rest

  unfoldable pub sort : List A → List A
  unfolding insert
  sort [] = []
  sort (x ∷ xs) = insert x (sort xs)

  abbrev pub IsSorted : List A → Type 0
  IsSorted [] = Unit
  IsSorted (x ∷ xs) = All (λ y. le x y ≡ true) xs × IsSorted xs

  insert-perm : (x : A) (ys : List A) → Perm (insert x ys) (x ∷ ys)
  unfolding insert
  insert-perm x [] = Perm.refl (x ∷ [])
  insert-perm x (y ∷ ys) = elim (Bool-cases (le x y)) [
    | inl e ↦ rw e (Perm.refl (x ∷ y ∷ ys))
    | inr e ↦ rw e (Perm.trans (Perm.cons y (insert-perm x ys)) (Perm.swap x y ys))
  ]

  pub sort-perm : (xs : List A) → Perm (sort xs) xs
  unfolding sort
  sort-perm [] = Perm.refl []
  sort-perm (x ∷ xs) = Perm.trans (insert-perm x (sort xs)) (Perm.cons x (sort-perm xs))

  All-insert : (P : A → Type 0) (x : A) (ys : List A) → P x → All P ys → All P (insert x ys)
  unfolding insert
  All-insert P x [] p h = (p, tt)
  All-insert P x (y ∷ ys) p h = ground (arith, All-insert P x ys p h.1)

  pub All-sort : (P : A → Type 0) (xs : List A) → All P xs → All P (sort xs)
  unfolding sort
  All-sort P [] h = tt
  All-sort P (x ∷ xs) h = All-insert P x (sort xs) h.0 (All-sort P xs h.1)

  Elem-insert_self : (x : A) (ys : List A) → Elem x (insert x ys)
  unfolding insert
  Elem-insert_self x [] = inl refl
  Elem-insert_self x (y ∷ ys) = elim (Bool-cases (le x y)) [
    | inl e ↦ rw e (inl refl)
    | inr e ↦ rw e (inr (Elem-insert_self x ys))
  ]

  Elem-insert : (a x : A) (ys : List A) → Elem a ys → Elem a (insert x ys)
  unfolding insert
  Elem-insert a x [] m = absurd m
  Elem-insert a x (y ∷ ys) (inl m) = elim (Bool-cases (le x y)) [
    | inl e ↦ rw e (inr (inl m))
    | inr e ↦ rw e (inl m)
  ]
  Elem-insert a x (y ∷ ys) (inr m) = elim (Bool-cases (le x y)) [
    | inl e ↦ rw e (inr (inr m))
    | inr e ↦ rw e (inr (Elem-insert a x ys m))
  ]

  pub Elem-sort : (a : A) (xs : List A) → Elem a xs → Elem a (sort xs)
  unfolding sort
  Elem-sort a [] m = absurd m
  Elem-sort a (x ∷ xs) (inl e) =
      subst (λ b. Elem b (insert x (sort xs))) (sym e) (Elem-insert_self x (sort xs))
  Elem-sort a (x ∷ xs) (inr m) = Elem-insert a x (sort xs) (Elem-sort a xs m)

  -- A cut of a sorted list leaves out no member that comes before what it keeps.
  pub take-IsSorted_first :
      (n : ℕ) (xs : List A) (a : A)
      → IsSorted xs
      → Elem a xs
      → Elem a (take n xs) ⊎ All (λ x. le x a ≡ true) (take n xs)
  take-IsSorted_first zero xs a s m = inr tt
  take-IsSorted_first (suc n) [] a s m = absurd m
  take-IsSorted_first (suc n) (x ∷ xs) a s (inl e) = inl (inl e)
  take-IsSorted_first (suc n) (x ∷ xs) a s (inr m) = elim (take-IsSorted_first n xs a s.1 m) [
    | inl k ↦ inl (inr k)
    | inr h ↦ inr (All-elem (λ y. le x y ≡ true) a xs s.0 m, h)
  ]

  pub take-IsSorted : (n : ℕ) (xs : List A) → IsSorted xs → IsSorted (take n xs)
  take-IsSorted zero xs s = tt
  take-IsSorted (suc n) [] s = tt
  take-IsSorted (suc n) (x ∷ xs) s =
      (All-take (λ y. le x y ≡ true) n xs s.0, take-IsSorted n xs s.1)

  module _ (total : (a b : A) → le a b ≡ false → le b a ≡ true)
      (trans : (a b c : A) → le a b ≡ true → le b c ≡ true → le a c ≡ true) where
    insert-IsSorted : (x : A) (ys : List A) → IsSorted ys → IsSorted (insert x ys)
    unfolding insert
    insert-IsSorted x [] s = (tt, tt)
    insert-IsSorted x (y ∷ ys) s = elim (Bool-cases (le x y)) [
      | inl e ↦
          rw e
            ((e, All-map (λ z. le y z ≡ true) (λ z. le x z ≡ true) (λ z. trans x y z e) ys s.0), s)
      | inr e ↦
          rw e (All-insert (λ z. le y z ≡ true) x ys (total x y e) s.0, insert-IsSorted x ys s.1)
    ]

    pub sort-IsSorted : (xs : List A) → IsSorted (sort xs)
    unfolding sort
    sort-IsSorted [] = tt
    sort-IsSorted (x ∷ xs) = insert-IsSorted x (sort xs) (sort-IsSorted xs)
