-- ===== src/Device/Properties/Bounds.antt =====
-- src/device/state.rs, the setters of `Properties`: the ranges of what they set.
use sony_buds_tray_control.Device.Properties.{
  Properties, band_limit, nudge_ambient_level, nudge_eq_band, nudge_gain, set_volume,
}
use sony_buds_tray_control.Prelude.{
  All, List, Option-cases, [], arith, as_i8, as_u8, clamp_ℤ, get_elem?, if◌then◌else◌, inl, inr,
  length, length-set, negsuc, none, pos, refl, set, some, subst, suc, sym, zero, ℕ, ℤ, ◌-◌, ◌==◌,
  ◌∷◌, ◌≡◌, ◌≤ℤ◌, ◌≤◌,
}

-- Whatever volume is asked for, the one that is kept is the nearest from 0 to 30, never a value that
-- the cast to a byte wrapped, and the volume that the device reported stays.
pub set_volume-bounds :
    (p : Properties) (v : ℤ)
    → (pos (set_volume p v).play_volume.desired ≡ clamp_ℤ v (pos 0) (pos 30))
      × ((set_volume p v).play_volume.desired ≤ 30)
      × ((set_volume p v).play_volume.current ≡ p.play_volume.current)
unfolding set_volume clamp_ℤ as_u8
set_volume-bounds p v = ground arith

-- Whatever step is taken from whatever level, the ambient level that results is from 1 to 20.
pub nudge_ambient_level-bounds :
    (p : Properties) (delta : ℤ)
    → (1 ≤ (nudge_ambient_level p delta).nc_asm_ambient_level.desired)
      × ((nudge_ambient_level p delta).nc_asm_ambient_level.desired ≤ 20)
unfolding nudge_ambient_level clamp_ℤ as_u8
nudge_ambient_level-bounds p delta = ground arith

nudge_gain-bounds :
    (limit : ℕ) (gain delta : ℤ)
    → 1 ≤ limit
    → limit ≤ 10
    → (negsuc (limit - 1) ≤ℤ nudge_gain limit gain delta)
      × (nudge_gain limit gain delta ≤ℤ pos limit)
unfolding nudge_gain clamp_ℤ as_u8 as_i8
nudge_gain-bounds limit gain delta lo hi = ground arith

-- A gain that a band of an equalizer with these gains can have.
abbrev pub InBand : ℕ → ℤ → Type 0
InBand limit gain = (negsuc (limit - 1) ≤ℤ gain) × (gain ≤ℤ pos limit)

All-set {κ} : (P : ℤ → Type κ) (xs : List ℤ) (i : ℕ) (v : ℤ) → All P xs → P v → All P (set xs i v)
All-set P [] i v h k = tt
All-set P (x ∷ xs) zero v h k = (k, h.1)
All-set P (x ∷ xs) (suc i) v h k = (h.0, All-set P xs i v h.1 k)

band_limit_range : (gains : List ℤ) → (1 ≤ band_limit gains) × (band_limit gains ≤ 10)
unfolding band_limit
band_limit_range gains = ground arith

nudge_eq_band_absent :
    (p : Properties) (band : ℕ) (delta : ℤ)
    → get_elem? p.eq_config.desired band ≡ none
    → nudge_eq_band p band delta ≡ p
unfolding nudge_eq_band
nudge_eq_band_absent p band delta absent = ground arith

nudge_eq_band_found :
    (p : Properties) (band : ℕ) (delta g : ℤ)
    → get_elem? p.eq_config.desired band ≡ some g
    → (nudge_eq_band p band delta).eq_config.desired
      ≡ set p.eq_config.desired band (nudge_gain (band_limit p.eq_config.desired) g delta)
unfolding nudge_eq_band
nudge_eq_band_found p band delta g found = ground arith

-- The largest gain of an equalizer with so many bands: the five bands reach ten steps up and down, the
-- ten bands six.
abbrev pub largest : ℕ → ℕ
largest bands = if bands == 5 then 10 else 6

-- Every gain of the equalizer is in the range of its number of bands.
abbrev pub GainsOk : List ℤ → Type 0
GainsOk gains = All (InBand (largest (length gains))) gains

band_limit-largest : (gains : List ℤ) → band_limit gains ≡ largest (length gains)
unfolding band_limit
band_limit-largest gains = refl

-- If every gain of the equalizer is from -10 to 10 where it has five bands, and from -6 to 6 where it has
-- any other number, it still is after any step of any band, whether there is such a band or not, and the
-- number of bands stays.
pub nudge_eq_band-GainsOk :
    (p : Properties) (band : ℕ) (delta : ℤ)
    → GainsOk p.eq_config.desired
    → GainsOk (nudge_eq_band p band delta).eq_config.desired
      × (length (nudge_eq_band p band delta).eq_config.desired ≡ length p.eq_config.desired)
nudge_eq_band-GainsOk p band delta h =
    let gains = p.eq_config.desired in
    elim (Option-cases (get_elem? gains band)) [
      | inl absent ↦ rw (nudge_eq_band_absent p band delta absent) (h, refl)
      | inr (g, found) ↦
          let range = band_limit_range gains in
          let same = length-set gains band (nudge_gain (band_limit gains) g delta) in
          let inside = nudge_gain-bounds (band_limit gains) g delta range.0 range.1 in
          rw (nudge_eq_band_found p band delta g found) (
            subst
                (λ n.
                  All (InBand (largest n)) (set gains band (nudge_gain (band_limit gains) g delta)))
                (sym same)
                (All-set (InBand (largest (length gains))) gains band _ h (
                  subst (λ n. InBand n (nudge_gain (band_limit gains) g delta))
                    (band_limit-largest gains) inside)),
            same,
          )
    ]
