-- ===== src/Base/Members.antt =====
-- When a search of a sequence of integers finds one.
use mathlib.Core.Logic.{inl, inr, ◌↔◌}
use mathlib.Core.Path.{◌≡◌, refl, sym}
use mathlib.Core.Bool.{true}
use mathlib.Core.List.{List, [], ◌∷◌, Memᴰ}
use native.Mathlib.Omega.{arith}
use slavetat_ui.Base.Tests.{Bool-cases}
use slavetat_ui.Base.Lists.{any_of}
use slavetat_ui.Base.Int.{ℤ, ◌==ℤ◌, ==ℤ_iff}

any_of-Mem : (xs : List ℤ) (x : ℤ) → any_of (λ y. y ==ℤ x) xs ≡ true → Memᴰ x xs
any_of-Mem [] x h = ground arith
any_of-Mem (y ∷ ys) x h = elim (Bool-cases (y ==ℤ x)) [
  | inl e ↦ Memᴰ.head (sym ((==ℤ_iff y x).0 e))
  | inr e ↦ Memᴰ.tail (any_of-Mem ys x (rw e at h))
]

Mem-any_of : (xs : List ℤ) (x : ℤ) → Memᴰ x xs → any_of (λ y. y ==ℤ x) xs ≡ true
Mem-any_of [] x m = elim m [ ]
Mem-any_of (y ∷ ys) x (Memᴰ.head e) = rw ((==ℤ_iff y x).1 (sym e)) refl
Mem-any_of (y ∷ ys) x (Memᴰ.tail m) = ground (arith, Mem-any_of ys x m)

pub any_of_iff : (xs : List ℤ) (x : ℤ) → (any_of (λ y. y ==ℤ x) xs ≡ true) ↔ Memᴰ x xs
any_of_iff xs x = (any_of-Mem xs x, Mem-any_of xs x)
