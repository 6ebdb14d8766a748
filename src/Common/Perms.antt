-- ===== src/Common/Perms.antt =====
-- Lengths of mapped and of permuted lists, over the native numbers.
use mathlib.Core.List.{List, [], ◌∷◌, ◌++◌, map, Perm, Permᴰ}
use mathlib.Core.Logic.{∥∥₁_elim}
use mathlib.Core.Path.{◌≡◌, refl, ap, ◌∙◌, sym, subst}
use native.Mathlib.Nat.{ℕ_set}
use Prim.Native.Nat.{suc}
use rmt_library.Common.Lists.{length, All}

module _ {ℓ} {A : Type ℓ} where
  length-permuted : {a b : List A} → Permᴰ a b → length a ≡ length b
  length-permuted Permᴰ.nil = refl
  length-permuted (Permᴰ.cons _ p) = ap suc (length-permuted p)
  length-permuted (Permᴰ.swap _ _) = refl
  length-permuted (Permᴰ.trans p q) = length-permuted p ∙ length-permuted q

  pub length-Perm : {a b : List A} → Perm a b → length a ≡ length b
  length-Perm p = ∥∥₁_elim p (ℕ_set _ _) length-permuted

-- What holds of each element holds behind a permutation.
pub All-Perm {ℓ κ} :
    {A : Type ℓ} (P : A → Type κ) {xs ys : List A} → Permᴰ xs ys → All P ys → All P xs
All-Perm P Permᴰ.nil h = tt
All-Perm P (Permᴰ.cons e p) h = (subst P (sym e) h.0, All-Perm P p h.1)
All-Perm P (Permᴰ.swap e f) h = (subst P (sym e) h.1.0, (subst P (sym f) h.0, h.1.1))
All-Perm P (Permᴰ.trans p q) h = All-Perm P p (All-Perm P q h)

module _ {ℓ κ} {A : Type ℓ} {B : Type κ} where
  pub length-map : (f : A → B) (xs : List A) → length (map f xs) ≡ length xs
  length-map f [] = refl
  length-map f (x ∷ xs) = ap suc (length-map f xs)

  pub map-append : (f : A → B) (xs ys : List A) → map f (xs ++ ys) ≡ map f xs ++ map f ys
  map-append f [] ys = refl
  map-append f (x ∷ xs) ys = ap (λ l. f x ∷ l) (map-append f xs ys)
