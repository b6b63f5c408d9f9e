-- ===== src/Device/Engine/Build/Fits.antt =====
-- src/device/engine.rs, `build_commit_steps`: the results of its blocks, up to the equalizer.
use sony_buds_tray_control.Protocol.Codec.Writer
use sony_buds_tray_control.Device.Engine.Build.Block.{
  Block, only, run, send_commit, to_commit, when,
}
use sony_buds_tray_control.Device.Engine.Build.Common.{command, command_t2, to_step}
use sony_buds_tray_control.Device.Engine.Build.Settings.{
  device_list_type, multipoint_block, request_steps,
}
use sony_buds_tray_control.Device.Engine.Build.Sound.{
  button_block, dsee_block, eq_config_block, eq_config_built, eq_preset_block, listening_block,
  nc_asm_block, nc_asm_steps, play_control_block, shutdown_block, volume_block, wire_bands,
  wire_gain,
}
use sony_buds_tray_control.Device.Engine.Build.Total.{IsSome}
use sony_buds_tray_control.Device.Engine.Commit.{both, dirty-commit}
use sony_buds_tray_control.Device.Engine.Defs.{PropCommit, Step}
use sony_buds_tray_control.Device.Properties.{Properties}
use sony_buds_tray_control.Device.State.{MultipointRequest, SupportFunctions, dirty}
use sony_buds_tray_control.Prelude.{
  All, All-append, Bool, Bool-cases, List, Option, Option-cases, [], ap, arith, bool_eq, err, false,
  inl, inr, int_eq, leb, length, length-map, list_eq, map, nat_eq, none, ok, option_eq, refl, some,
  suc, true, zero, ℕ, ℤ, ◌%◌, ◌+◌, ◌==◌, ◌||◌, ◌∷◌, ◌≡◌, ◌≤◌, ◌⊎◌,
}
use sony_buds_tray_control.Protocol.Codec.Error.{SerResult}
use sony_buds_tray_control.Protocol.Codec.Writer.{Writer}
use sony_buds_tray_control.Protocol.Enums.{
  CommandT1, CommandT2, ConnectivityActionType, DataType, EqEbbInquiredType, EqPresetId,
  PeripheralInquiredType, command_t1_enum, command_t2_enum, connectivity_action_type_enum,
  data_type_enum, enum_eq, eq_ebb_inquired_type_enum, eq_preset_id_enum,
  peripheral_inquired_type_enum, to_u8,
}
use sony_buds_tray_control.Protocol.Payloads.{
  EqEbbParamEq, eq_ebb_param_eq_payload, mac_bytes, pad_to, serialize, write_nc_asm_base,
}
use sony_buds_tray_control.Text.{String, as_bytes}

-- The bands fit a payload, or none are to be sent.
abbrev pub BandsFit : Properties → Type 0
BandsFit p =
    ((dirty p.eq_config || dirty p.eq_clear_bass) ≡ false) ⊎ (length p.eq_config.desired ≤ 59)

abbrev pub BlockOk : Block → Type 0
BlockOk b = (p : Properties) → BandsFit p → All IsSome (b p).0 × BandsFit (b p).1

pub run-ok : (bs : List Block) → All BlockOk bs → BlockOk (run bs)
unfolding run
run-ok [] h p fit = (tt, fit)
run-ok (b ∷ bs) h p fit =
    let first = h.0 p fit in
    let rest = run-ok bs h.1 (b p).1 first.1 in
    (All-append IsSome (b p).0 (run bs (b p).1).0 first.0 rest.0, rest.1)

pub when-IsSome : (b : Bool) (ss : List (Option Step)) → All IsSome ss → All IsSome (when b ss)
when-IsSome true ss h = h
when-IsSome false ss h = tt

pub only-ok :
    (f : Properties → List (Option Step)) → ((p : Properties) → All IsSome (f p)) → BlockOk (only f)
only-ok f h p fit = (h p, fit)

-- What `serialize` makes of what was written.
abbrev written : SerResult (Unit {0} × Writer) → Option (List ℕ)
written (ok (_, w)) = some w.buf
written (err _) = none

length-pad_to : (n : ℕ) (bs : List ℕ) → length (pad_to n bs) ≡ n
unfolding pad_to
length-pad_to zero bs = refl
length-pad_to (suc n) [] = ap suc (length-pad_to n [])
length-pad_to (suc n) (b ∷ bs) = ap suc (length-pad_to n bs)

length-mac_bytes : (address : String) → length (mac_bytes address) ≡ 17
unfolding mac_bytes
length-mac_bytes address = length-pad_to 17 (as_bytes address)

pub shutdown_block-ok : (s : SupportFunctions) → BlockOk (shutdown_block s)
unfolding shutdown_block send_commit serialize Writer.u8
shutdown_block-ok s p fit = ground arith

nc_asm_steps-IsSome : (s : SupportFunctions) (p : Properties) → IsSome (nc_asm_steps s p)
unfolding nc_asm_steps send_commit serialize Writer.u8 write_nc_asm_base
nc_asm_steps-IsSome s p = ground arith

pub nc_asm_block-ok : (s : SupportFunctions) → BlockOk (nc_asm_block s)
unfolding nc_asm_block
nc_asm_block-ok s p fit = (when-IsSome _ (nc_asm_steps s p ∷ []) (nc_asm_steps-IsSome s p, tt), fit)

pub button_block-ok : (s : SupportFunctions) → BlockOk (button_block s)
unfolding button_block send_commit serialize Writer.u8
button_block-ok s p fit = ground arith

pub volume_block-ok : BlockOk volume_block
unfolding volume_block send_commit serialize Writer.u8
volume_block-ok p fit = ground arith

pub play_control_block-ok : BlockOk play_control_block
unfolding play_control_block command serialize Writer.u8
play_control_block-ok p fit = ground arith

pub listening_block-ok : (s : SupportFunctions) → BlockOk (listening_block s)
unfolding listening_block send_commit serialize Writer.u8
listening_block-ok s p fit = ground arith

pub dsee_block-ok : (s : SupportFunctions) → BlockOk (dsee_block s)
unfolding dsee_block send_commit serialize Writer.u8
dsee_block-ok s p fit = ground arith

pub eq_preset_block-ok : BlockOk eq_preset_block
unfolding eq_preset_block send_commit command serialize Writer.u8 Writer.pod_array
eq_preset_block-ok p fit = ground arith

length-wire_bands : (p : Properties) → length (wire_bands p) ≤ suc (length p.eq_config.desired)
unfolding wire_bands
length-wire_bands p =
    let gains = p.eq_config.desired in
    elim (Bool-cases (length gains == 5)) [
      | inl five ↦ rw (wire_bands, five) (omega (arith, length-map (wire_gain 10) gains))
      | inr other ↦ rw (wire_bands, other) (omega (arith, length-map (wire_gain 6) gains))
    ]

-- A payload that ends in a run of bytes has a result, when they fit.
pub written-IsSome :
    (v : List ℕ) (w : Writer)
    → length w.buf + length v ≤ w.limit
    → IsSome (written (Writer.bytes v w))
unfolding Writer.bytes
written-IsSome v w fits = ground arith

to_commit-IsSome :
    (type : DataType) (c : PropCommit) (o : Option (List ℕ))
    → IsSome o
    → IsSome (to_commit type c o)
to_commit-IsSome type c none h = h
to_commit-IsSome type c (some bytes) h = tt

pub to_command-IsSome : (type : DataType) (o : Option (List ℕ)) → IsSome o → IsSome (to_step type o)
to_command-IsSome type none h = h
to_command-IsSome type (some bytes) h = tt

eq_param-IsSome :
    (c : PropCommit) (id : EqPresetId) (bands : List ℕ)
    → length bands ≤ 60
    → IsSome (send_commit {A = EqEbbParamEq} c (record { preset_id = id; bands = bands }))
unfolding send_commit serialize Writer.u8 Writer.pod_array
eq_param-IsSome c id bands few =
    let short : leb 256 (length bands) ≡ false = ground arith in
    let head =
      to_u8 CommandT1.eq_ebb_set_param
      ∷ to_u8 EqEbbInquiredType.preset_eq
      ∷ to_u8 id
      ∷ (length bands % 256)
      ∷ [] in
    to_commit-IsSome _ c _ (
      rw (serialize, short)
        (written-IsSome (map (λ b. b) bands) (record { buf = head; limit = 64 })
          (omega (arith, length-map (λ b. b) bands, few))))

pub eq_config_built-ok :
    (p : Properties) (gains : List ℤ)
    → length (wire_bands p) ≤ 60
    → BandsFit p
    → All IsSome (eq_config_built p gains).0 × BandsFit (eq_config_built p gains).1
unfolding command serialize Writer.u8
eq_config_built-ok p [] few fit =
    (tt, inl (both (dirty-commit p.eq_config) (dirty-commit p.eq_clear_bass)))
eq_config_built-ok p (g ∷ gs) few fit = ((eq_param-IsSome _ _ _ few, (tt, tt)), fit)

pub eq_config_block-ok : BlockOk eq_config_block
unfolding eq_config_block
eq_config_block-ok p (inl clean) = rw (eq_config_block, clean) (tt, inl clean)
eq_config_block-ok p (inr few) = elim (Bool-cases (dirty p.eq_config || dirty p.eq_clear_bass)) [
  | inl yes' ↦
      rw (eq_config_block, yes')
        (eq_config_built-ok p p.eq_config.desired (omega (arith, length-wire_bands p, few))
          (inr few))
  | inr clean ↦ rw (eq_config_block, clean) (tt, inr few)
]

pub request_steps-ok :
    (s : SupportFunctions) (r : MultipointRequest) → All IsSome (request_steps s r)
unfolding request_steps command_t2 serialize Writer.u8
request_steps-ok s (MultipointRequest.switch address) =
    let head =
      to_u8 CommandT2.peri_set_extended_param
      ∷ to_u8 PeripheralInquiredType.source_switch_control
      ∷ [] in
    let fits = length-mac_bytes address in
    (
      to_command-IsSome _ _ (
          written-IsSome (mac_bytes address) (record { buf = head; limit = 64 })
            (omega (arith, fits))),
      tt,
    )
request_steps-ok s (MultipointRequest.connect address) =
    let head =
      to_u8 CommandT2.peri_set_extended_param
      ∷ to_u8 (device_list_type s)
      ∷ to_u8 ConnectivityActionType.connect
      ∷ [] in
    let fits = length-mac_bytes address in
    (
      to_command-IsSome _ _ (
          written-IsSome (mac_bytes address) (record { buf = head; limit = 64 })
            (omega (arith, fits))),
      (tt, tt),
    )

pub multipoint_block-ok : (s : SupportFunctions) → BlockOk (multipoint_block s)
unfolding multipoint_block
multipoint_block-ok s p fit = elim (Option-cases p.multipoint_request.desired) [
  | inl nothing ↦ rw (multipoint_block, nothing) (tt, fit)
  | inr (r, asked) ↦ rw (multipoint_block, asked) (request_steps-ok s r, fit)
]
