-- ===== src/Base/Texts.antt =====
-- Lists of texts: membership and distinctness.
use mathlib.Core.Path.{◌≡◌, refl}
use mathlib.Core.Bool.{Bool, true, false}
use mathlib.Core.List.{List, [], ◌∷◌, ◌++◌}
use native.Mathlib.Omega.{arith}
use slavetat_ui.Base.Tests.{if◌then◌else◌}
use slavetat_ui.Base.Lists.{any_of}
use slavetat_ui.Base.Bytes.{Text, eq_text}

abbrev pub contains : Text → List Text → Bool
contains path paths = any_of (λ p. eq_text p path) paths

pub contains-snoc :
    (path q : Text) (paths : List Text)
    → contains path (paths ++ (q ∷ [])) ≡ (if contains path paths then true else eq_text q path)
contains-snoc path q [] = ground arith
contains-snoc path q (p ∷ ps) = ground (arith, contains-snoc path q ps)

-- The paths of a list are distinct.
abbrev pub IsDistinct : List Text → Type 0
IsDistinct [] = Unit
IsDistinct (p ∷ ps) = (contains p ps ≡ false) × IsDistinct ps

pub eq_text_sym : (p q : Text) → eq_text p q ≡ eq_text q p
eq_text_sym [] [] = refl
eq_text_sym [] (y ∷ ys) = refl
eq_text_sym (x ∷ xs) [] = refl
eq_text_sym (x ∷ xs) (y ∷ ys) = ground (arith, eq_text_sym xs ys)

pub IsDistinct-snoc :
    (q : Text) (paths : List Text)
    → IsDistinct paths
    → contains q paths ≡ false
    → IsDistinct (paths ++ (q ∷ []))
IsDistinct-snoc q [] d h = ground arith
IsDistinct-snoc q (p ∷ ps) d h =
    ground (arith, IsDistinct-snoc q ps, contains-snoc p q ps, eq_text_sym p q)
