-- ===== src/Tests/Device.antt =====
-- src/device: engines, tasks and settable values at concrete inputs.
use sony_buds_tray_control.Protocol.Codec.Writer
use sony_buds_tray_control.Device.Engine.{
  Engine, Step, Task, Wait, apply, await, commit_ok, cons, done, if_table2, is_ready, new, nil,
  play_volume, send, upscaling,
}
use sony_buds_tray_control.Device.Engine.Build.Common.{
  command, command_t2, device_list_queries, sequence, when_support1, when_support2_any, when_table2,
}
use sony_buds_tray_control.Device.Engine.Build.Exclusive.{Answer, refused, request-task_in_progress}
use sony_buds_tray_control.Device.Engine.Build.Init.{build_init_steps}
use sony_buds_tray_control.Device.Engine.Build.Request.{request_commit, request_init, request_sync}
use sony_buds_tray_control.Device.Engine.Commit.{pending, pending-apply, wanted}
use sony_buds_tray_control.Device.Engine.Frames.{
  flush_from, flush_send_buf, handle_frame, process_frame,
}
use sony_buds_tray_control.Device.Engine.Frames.Flush.{
  IsFaithful, delivered, flush_send_buf-TakesAll, flush_send_buf-delivered,
}
use sony_buds_tray_control.Device.Engine.Frames.Stream.{process_frame-pack, process_frame-partial}
use sony_buds_tray_control.Device.Engine.Invariant.{EngineOk, some≢none}
use sony_buds_tray_control.Device.Engine.Poll.{poll}
use sony_buds_tray_control.Device.Engine.Poll.Preserve.{poll-EngineOk}
use sony_buds_tray_control.Device.Engine.Resolve.{resolve_list, settle-resolve_list}
use sony_buds_tray_control.Device.Engine.Runner.{settle}
use sony_buds_tray_control.Device.Engine.Settle.{IsSettled, settle-IsSettled}
use sony_buds_tray_control.Device.Engine.Timeout.{GaveUp, expire, expire-timeout}
use sony_buds_tray_control.Device.Properties.{
  Properties, default_properties, nudge_ambient_level, nudge_eq_band, set_volume,
}
use sony_buds_tray_control.Device.Properties.Bounds.{
  GainsOk, nudge_ambient_level-bounds, nudge_eq_band-GainsOk, set_volume-bounds,
}
use sony_buds_tray_control.Device.State.{default_state}
use sony_buds_tray_control.Prelude.{
  List, Result, [], arith, clamp_ℤ, inl, length, min, negsuc, none, ok, pos, refl, some, take, ℕ,
  ◌++◌, ◌∷◌, ◌≡◌, ◌≤◌,
}
use sony_buds_tray_control.Protocol.Codec.Writer.{Writer}
use sony_buds_tray_control.Protocol.Enums.{DataType, data_type_enum, data_type_to_u8}
use sony_buds_tray_control.Protocol.Packet.{
  checksum, escape, escape_byte, header, pack, sum_from, to_be_bytes,
}
use sony_buds_tray_control.Protocol.Payloads.{serialize}
use sony_buds_tray_control.Transport.{PollStatus, Transport}

-- A transport that takes in all it is given, and one that takes in two bytes at a time; the state of
-- both is what they took in.
abbrev sink : Transport (List ℕ)
sink = record {
  poll_read = λ c. (ok PollStatus.timeout, c);
  recv = λ n c. (ok [], c);
  send = λ chunk c. (ok (length chunk), c ++ chunk);
}

abbrev dribble : Transport (List ℕ)
dribble = record {
  poll_read = λ c. (ok PollStatus.timeout, c);
  recv = λ n c. (ok [], c);
  send = λ chunk c. (ok (min 2 (length chunk)), c ++ take (min 2 (length chunk)) chunk);
}

ok-injective : {E A : Type 0} {a b : A} → (let r : Result E A = ok a in r) ≡ ok b → a ≡ b
ok-injective h = cc

dribble-IsFaithful : IsFaithful dribble (λ c. c)
dribble-IsFaithful = record {
  accepts = λ chunk c n h. let same = ok-injective h in (omega (arith, same), rw same refl);
}

abbrev loaded : Engine
loaded = record new { send_buf = 5 ∷ 6 ∷ 7 ∷ [] }

dribble_ok : (flush_send_buf dribble loaded (1 ∷ [])).error ≡ none
unfolding flush_send_buf flush_from
dribble_ok = refl

flush_send_buf-delivered_example :
    delivered (λ c. c) (flush_send_buf dribble loaded (1 ∷ [])) ≡ 1 ∷ 5 ∷ 6 ∷ 7 ∷ []
flush_send_buf-delivered_example =
    flush_send_buf-delivered dribble (λ c. c) dribble-IsFaithful loaded (1 ∷ []) dribble_ok

flush_send_buf-TakesAll_example :
    ((flush_send_buf sink loaded []).error ≡ none) × ((flush_send_buf sink loaded []).left ≡ [])
flush_send_buf-TakesAll_example = flush_send_buf-TakesAll sink (λ chunk c. refl) loaded []

process_frame-pack_example :
    process_frame 0
      (record new { recv_buf = (7 ∷ []) ++ (pack DataType.data_mdr 1 (62 ∷ []) ++ 9 ∷ []) })
    ≡ handle_frame 0
        (record { type = DataType.data_mdr; seq = 1; payload = 62 ∷ [] })
        (record new { recv_buf = 9 ∷ [] })
process_frame-pack_example =
    process_frame-pack 0 DataType.data_mdr 1 (62 ∷ []) (7 ∷ []) (9 ∷ []) new (omega arith)
      (omega arith, tt)

ack_cut : pack DataType.ack 1 [] ≡ (62 ∷ 1 ∷ 1 ∷ []) ++ 0 ∷ (0 ∷ 0 ∷ 0 ∷ 2 ∷ 60 ∷ [])
unfolding pack header escape escape_byte checksum sum_from to_be_bytes data_type_to_u8
ack_cut = refl

process_frame-partial_example :
    process_frame 0 (record new { recv_buf = 62 ∷ 1 ∷ 1 ∷ [] })
    ≡ (record new { recv_buf = 62 ∷ 1 ∷ 1 ∷ [] }, none)
process_frame-partial_example =
    process_frame-partial 0 DataType.ack 1 [] (62 ∷ 1 ∷ 1 ∷ []) 0 (0 ∷ 0 ∷ 0 ∷ 2 ∷ 60 ∷ []) new
      ack_cut

-- A command on its way, whose acknowledgement is due at 3000, before the end of the task.
abbrev due : Task
due = record {
  steps = send (1 ∷ []) DataType.data_mdr Wait.ack (some play_volume) ∷ done commit_ok ∷ [];
  deadline = some 3000;
  current_wait = some Wait.ack;
  last_send = some (1 ∷ [], DataType.data_mdr);
  retries = 1;
}

abbrev waiting : Engine
waiting = record new { task = some due; tx_seq = 1 }

waiting-EngineOk : EngineOk waiting
waiting-EngineOk = (omega arith, ((refl, some≢none 3000), omega arith))

expire-timeout_example : GaveUp (expire 4 3000 waiting)
expire-timeout_example = expire-timeout 3000 waiting due refl refl (omega arith)

-- A task with a step for the second table in front.
abbrev guarded : List Step
guarded = if_table2 (cons (await Wait.support_function) nil) ∷ await Wait.ack ∷ []

settle-IsSettled_example : IsSettled default_state (settle 3 default_state guarded)
settle-IsSettled_example = settle-IsSettled 3 default_state guarded (omega arith)

abbrev louder : Properties
louder = record default_properties { play_volume = record { desired = 20; current = 12 } }

pending-apply_example :
    (wanted (apply play_volume louder) ≡ wanted louder)
    × (pending upscaling (apply play_volume louder) ≡ pending upscaling louder)
pending-apply_example = pending-apply play_volume upscaling louder

set_volume-bounds_example :
    (pos (set_volume louder (negsuc 4)).play_volume.desired ≡ clamp_ℤ (negsuc 4) (pos 0) (pos 30))
    × ((set_volume louder (negsuc 4)).play_volume.desired ≤ 30)
    × ((set_volume louder (negsuc 4)).play_volume.current ≡ 12)
set_volume-bounds_example = set_volume-bounds louder (negsuc 4)

nudge_ambient_level-bounds_example :
    (1 ≤ (nudge_ambient_level louder (pos 50)).nc_asm_ambient_level.desired)
    × ((nudge_ambient_level louder (pos 50)).nc_asm_ambient_level.desired ≤ 20)
nudge_ambient_level-bounds_example = nudge_ambient_level-bounds louder (pos 50)

-- An equalizer of five bands.
abbrev tuned : Properties
tuned = record default_properties {
  eq_config = record { desired = pos 10 ∷ negsuc 9 ∷ pos 0 ∷ pos 7 ∷ pos 3 ∷ []; current = [] };
}

nudge_eq_band-GainsOk_example :
    GainsOk (nudge_eq_band tuned 0 (pos 1)).eq_config.desired
    × (length (nudge_eq_band tuned 0 (pos 1)).eq_config.desired ≡ 5)
nudge_eq_band-GainsOk_example = nudge_eq_band-GainsOk tuned 0 (pos 1) (ground arith)

poll-EngineOk_example : EngineOk ((poll sink 10 waiting []).0.0)
poll-EngineOk_example = poll-EngineOk sink 10 waiting [] waiting-EngineOk

settle-resolve_list_example :
    resolve_list default_state (settle 1 default_state guarded) ≡ resolve_list default_state guarded
settle-resolve_list_example = settle-resolve_list 1 default_state guarded

abbrev engine_of : Answer → Engine
engine_of none = new
engine_of (some (_, e)) = e

abbrev starting : Engine
starting = engine_of (request_init 0 new)

request-task_in_progress_example :
    (request_init 9 starting ≡ refused starting)
    × (request_sync 9 starting ≡ refused starting)
    × (request_commit 9 starting ≡ refused starting)
unfolding request_init build_init_steps sequence command command_t2 when_table2 when_support1
    when_support2_any device_list_queries serialize is_ready Writer.u8
request-task_in_progress_example = request-task_in_progress 0 9 new starting (inl refl)
