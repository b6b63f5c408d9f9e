-- ===== src/Protocol/Enums/Macro.antt =====
-- src/protocol/enums.rs, the macros `u8_enum!` and `u8_enum_no_unknown!`: what they generate.
-- `from_u8` matches the byte against the discriminants in the order of declaration.
use sony_buds_tray_control.Prelude.{
  ℕ, ◌≡◌, ap, ◌↔◌, Bool, true, List, [], ◌∷◌, ◌==◌, ==_iff, if◌then◌else◌, PartialEq,
}

unfoldable pub find_variant : {A : Type 0} → (A → ℕ) → A → List A → ℕ → A
find_variant code other [] v = other
find_variant code other (x ∷ xs) v = if code x == v then x else find_variant code other xs v

pub record U8Enum (A : Type 0) : Type 0 where
  pub to_u8 : A → ℕ
  pub variants : List A
  pub unknown : A
  pub from_u8-to_u8 : (x : A) → find_variant to_u8 unknown variants (to_u8 x) ≡ x

module _ {A : Type 0} ⦃e : U8Enum A⦄ where
  abbrev pub to_u8 : A → ℕ
  to_u8 = e.to_u8

  unfoldable pub from_u8 : ℕ → A
  unfolding find_variant
  from_u8 = find_variant e.to_u8 e.unknown e.variants

  -- A value that is sent comes back as itself.
  pub from_u8-to_u8 : (x : A) → from_u8 (to_u8 x) ≡ x
  unfolding from_u8
  from_u8-to_u8 x = e.from_u8-to_u8 x

  -- `#[derive(PartialEq)]`: equal discriminants.
  unfoldable pub enum_beq : A → A → Bool
  enum_beq a b = e.to_u8 a == e.to_u8 b

  pub enum_beq_iff : (a b : A) → (enum_beq a b ≡ true) ↔ (a ≡ b)
  unfolding enum_beq
  enum_beq_iff a b = (
    λ h. cc (e.from_u8-to_u8 a, e.from_u8-to_u8 b, (==_iff (e.to_u8 a) (e.to_u8 b)).0 h),
    λ h. (==_iff (e.to_u8 a) (e.to_u8 b)).1 (ap e.to_u8 h),
  )

instance abbrev pub enum_eq : {A : Type 0} ⦃e : U8Enum A⦄ → PartialEq A
enum_eq = record { beq = enum_beq; beq_iff = enum_beq_iff }
