-- ===== src/Core/Models.antt =====
-- src/core/TattooModels.h. Strings are lists of bytes, messages are kept as literals, 32-bit
-- integers are `ℤ` where they are signed and `ℕ` where they are not.
use slavetat_ui.Base.{
  ℕ, ℤ, pos, negsuc, Float, one_f, zero_f, Text, codes, String, List, [], Option, Bool, true, false,
  ◌==◌,
}

pub record TattooEntry : Type 0 where
  pub runtime_handle : ℤ
  pub source_id : Text
  pub source_file : Text
  pub pack_name : Text
  pub domain : Text
  pub section : Text
  pub name : Text
  pub texture_path : Text
  pub area : Text
  pub slot : ℤ
  pub color : ℤ
  pub locked : Bool
  pub alpha : Float
  pub glow : ℤ
  pub glossiness : Float
  pub specular_strength : Float
  pub bump : Text
  pub glow_texture : Text
  pub emissive_mult : Float

-- The default member initializers.
abbrev pub default_entry : TattooEntry
default_entry = record {
  runtime_handle = pos 0;
  source_id = [];
  source_file = [];
  pack_name = [];
  domain = codes "default";
  section = [];
  name = [];
  texture_path = [];
  area = [];
  slot = negsuc 0;
  color = pos 0xFFFFFF;
  locked = false;
  alpha = one_f;
  glow = pos 0;
  glossiness = zero_f;
  specular_strength = zero_f;
  bump = [];
  glow_texture = [];
  emissive_mult = one_f;
}

-- `enum class TattooArea`. A cast can give it a value that no enumerator has: `other`.
pub data TattooArea : Type 0 where
  body face hands feet : TattooArea
  other : ℕ → TattooArea

abbrev pub eq_area : TattooArea → TattooArea → Bool
eq_area body body = true
eq_area face face = true
eq_area hands hands = true
eq_area feet feet = true
eq_area (other m) (other n) = m == n
eq_area a b = false

pub data SlotOccupancy : Type 0 where
  empty slave_tats external : SlotOccupancy

pub record TattooSlot : Type 0 where
  pub index : ℤ
  pub occupancy : SlotOccupancy
  pub tattoo : Option TattooEntry

pub record TattooSlots : Type 0 where
  pub actor_form_id : ℕ
  pub area : TattooArea
  pub configured_count : ℤ
  pub slots : List TattooSlot

pub record ApplyTattooRequest : Type 0 where
  pub actor_form_id : ℕ
  pub area : TattooArea
  pub slot : ℤ
  pub domain : Text
  pub section : Text
  pub name : Text
  pub color : ℤ
  pub alpha : Float

pub record ApplyTattooSuccess : Type 0 where
  pub actor_form_id : ℕ
  pub area : TattooArea
  pub slot : ℤ
  pub section : Text
  pub name : Text

pub data RemoveTattooMode : Type 0 where
  remove_and_synchronize synchronize_only : RemoveTattooMode

pub record RemoveTattooRequest : Type 0 where
  pub actor_form_id : ℕ
  pub area : TattooArea
  pub slot : ℤ
  pub mode : RemoveTattooMode

pub record RemoveTattooSuccess : Type 0 where
  pub actor_form_id : ℕ
  pub area : TattooArea
  pub slot : ℤ

pub data UpdateTattooAppearanceMode : Type 0 where
  update_and_synchronize synchronize_only : UpdateTattooAppearanceMode

pub record UpdateTattooAppearanceRequest : Type 0 where
  pub actor_form_id : ℕ
  pub runtime_handle : ℤ
  pub color : ℤ
  pub alpha : Float
  pub glow : ℤ
  pub glossiness : Float
  pub specular_strength : Float
  pub emissive_mult : Float
  pub mode : UpdateTattooAppearanceMode

pub record UpdateTattooAppearanceSuccess : Type 0 where
  pub actor_form_id : ℕ
  pub runtime_handle : ℤ

pub data ServiceErrorCode : Type 0 where
  slave_tats_unavailable jcontainers_unavailable query_available_failed actor_not_found :
      ServiceErrorCode
  invalid_area invalid_slot external_slot slot_query_failed tattoo_not_found : ServiceErrorCode
  apply_failed remove_failed synchronize_failed stale_tattoo_handle update_failed : ServiceErrorCode

pub record ServiceError : Type 0 where
  pub code : ServiceErrorCode
  pub message : String

-- `std::expected<A, ServiceError>`.
pub data Expected {ℓ} (A : Type ℓ) : Type ℓ where
  ok : A → Expected A
  unexpected : ServiceError → Expected A

abbrev pub fail {ℓ} : {A : Type ℓ} → ServiceErrorCode → String → Expected A
fail code message = unexpected (record { code = code; message = message })

-- A check that leaves a function with an error.
infixl 5 ◌>>=◌ ◌>>◌
abbrev pub ◌>>=◌ {ℓ κ} : {A : Type ℓ} {B : Type κ} → Expected A → (A → Expected B) → Expected B
ok a >>= f = f a
unexpected e >>= f = unexpected e

abbrev pub ◌>>◌ {ℓ κ} : {A : Type ℓ} {B : Type κ} → Expected A → Expected B → Expected B
m >> k = m >>= λ _. k
