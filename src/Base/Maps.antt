-- ===== src/Base/Maps.antt =====
-- `std::unordered_map` with text keys, as a list of entries with distinct keys.
use Prim.Native.Nat.{◌+◌}
use mathlib.Core.Path.{◌≡◌, refl, ap}
use mathlib.Core.Bool.{true, false}
use mathlib.Core.List.{List, [], ◌∷◌}
use mathlib.Core.Option.{Option, none, some}
use native.Mathlib.Omega.{arith}
use slavetat_ui.Base.Tests.{if◌then◌else◌, is_some}
use slavetat_ui.Base.Lists.{length}
use slavetat_ui.Base.Bytes.{Text, eq_text, eq_text_iff}
use slavetat_ui.Base.Texts.{contains, IsDistinct}

abbrev pub Map {ℓ} : Type ℓ → Type ℓ
Map A = List (Text × A)

module _ {ℓ} {A : Type ℓ} where
  abbrev pub keys : Map A → List Text
  keys [] = []
  keys ((k, a) ∷ m) = k ∷ keys m

  abbrev pub find_key : Text → Map A → Option A
  find_key key [] = none
  find_key key ((k, a) ∷ m) = if eq_text k key then some a else find_key key m

  abbrev pub erase_key : Text → Map A → Map A
  erase_key key [] = []
  erase_key key ((k, a) ∷ m) = if eq_text k key then m else (k, a) ∷ erase_key key m

  -- Writes the value of a key that is there.
  abbrev pub set_key : Text → A → Map A → Map A
  set_key key v [] = []
  set_key key v ((k, a) ∷ m) = if eq_text k key then (k, v) ∷ m else (k, a) ∷ set_key key v m

-- `std::list<std::string>::erase`, at the node of the text.
abbrev pub erase_text : Text → List Text → List Text
erase_text key [] = []
erase_text key (k ∷ ks) = if eq_text k key then ks else k ∷ erase_text key ks

pub contains_eq : (j k : Text) (ks : List Text) → j ≡ k → contains j ks ≡ contains k ks
contains_eq j k ks e = ap (λ t. contains t ks) e

pub contains-erase_text :
    (j k : Text) (ks : List Text)
    → IsDistinct ks
    → contains j (erase_text k ks) ≡ (if eq_text k j then false else contains j ks)
contains-erase_text j k [] d = ground arith
contains-erase_text j k (x ∷ ks) d = ground (
  arith,
  contains-erase_text j k ks d.1,
  eq_text_iff x k,
  eq_text_iff x j,
  eq_text_iff k j,
  contains_eq j x ks,
)

pub erase_text-IsDistinct :
    (k : Text) (ks : List Text) → IsDistinct ks → IsDistinct (erase_text k ks)
erase_text-IsDistinct k [] d = tt
erase_text-IsDistinct k (x ∷ ks) d =
    ground (arith, erase_text-IsDistinct k ks d.1, contains-erase_text x k ks d.1)

module _ {ℓ} {A : Type ℓ} where
  pub contains-keys : (key : Text) (m : Map A) → contains key (keys m) ≡ is_some (find_key key m)
  contains-keys key [] = refl
  contains-keys key ((k, a) ∷ m) = ground (arith, contains-keys key m)

  pub keys-erase_key : (key : Text) (m : Map A) → keys (erase_key key m) ≡ erase_text key (keys m)
  keys-erase_key key [] = refl
  keys-erase_key key ((k, a) ∷ m) = ground (arith, keys-erase_key key m)

  pub keys-set_key : (key : Text) (v : A) (m : Map A) → keys (set_key key v m) ≡ keys m
  keys-set_key key v [] = refl
  keys-set_key key v ((k, a) ∷ m) = ground (arith, keys-set_key key v m)

  pub find_key-set_key :
      (j k : Text) (v : A) (m : Map A)
      → find_key j (set_key k v m)
        ≡ (if eq_text k j then (if is_some (find_key j m) then some v else none) else find_key j m)
  find_key-set_key j k v [] = ground arith
  find_key-set_key j k v ((x, a) ∷ m) =
      ground (arith, find_key-set_key j k v m, eq_text_iff x k, eq_text_iff x j, eq_text_iff k j)

  -- A key that is not among the keys is not found.
  pub find_key_absent :
      (j k : Text) (m : Map A) → k ≡ j → contains k (keys m) ≡ false → find_key j m ≡ none
  find_key_absent j k [] e h = refl
  find_key_absent j k ((x, a) ∷ m) e h = ground (arith, find_key_absent j k m e)

  pub find_key-erase_key :
      (j k : Text) (m : Map A)
      → IsDistinct (keys m)
      → find_key j (erase_key k m) ≡ (if eq_text k j then none else find_key j m)
  find_key-erase_key j k [] d = ground arith
  find_key-erase_key j k ((x, a) ∷ m) d = ground (
    arith,
    find_key-erase_key j k m d.1,
    find_key_absent j x m,
    eq_text_iff x k,
    eq_text_iff x j,
    eq_text_iff k j,
  )

  pub length-erase_key :
      (k : Text) (m : Map A) → is_some (find_key k m) ≡ true → length (erase_key k m) + 1 ≡ length m
  length-erase_key k [] h = cc
  length-erase_key k ((x, a) ∷ m) h = ground (arith, length-erase_key k m)
