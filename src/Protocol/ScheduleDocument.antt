-- ===== src/Protocol/ScheduleDocument.antt =====
-- packages/esp-protocol/src/schedule.ts: the schedule that goes over the wire, its checks and its JSON.
use aquarium_controller.Prelude.{
  ℕ, zero, suc, ◌+◌, ◌/◌, ◌%◌, Bool, ◌&&◌, ◌||◌, List, [], ◌∷◌, ◌++◌, map, if◌then◌else◌, leb, ltb,
  ◌==◌, Text, codes,
}
use aquarium_controller.Prelude.Result.{Result, ok, schema_error, guard, ◌>>=◌, ◌>>◌}
use aquarium_controller.Protocol.Limits.{legacy_max_sync_time, assert_legacy_schedule_fits}
use aquarium_controller.Protocol.Hash.{unsigned_djb2}

abbrev pub legacy_light_channel_type : ℕ
legacy_light_channel_type = 108

abbrev pub legacy_pump_channel_type : ℕ
legacy_pump_channel_type = 112

pub record LegacySchedulePoint : Type 0 where
  pub t : ℕ
  pub p : ℕ

pub record LegacyScheduleLink : Type 0 where
  pub s : LegacySchedulePoint
  pub d : LegacySchedulePoint

pub record LegacyScheduleChannel : Type 0 where
  pub o : ℕ
  pub t : ℕ
  pub l : List LegacyScheduleLink

pub record LegacyScheduleCore : Type 0 where
  pub c : List LegacyScheduleChannel

pub record LegacyScheduleDocument : Type 0 where
  pub c : List LegacyScheduleChannel
  pub sync_time : ℕ

abbrev pub every {ℓ} : {A : Type ℓ} → (A → Bool) → List A → Bool
every f [] = Bool.true
every f (x ∷ xs) = f x && every f xs

-- legacySchedulePointSchema, legacyScheduleLinkSchema, legacyScheduleChannelSchema
abbrev pub point_accepted : LegacySchedulePoint → Bool
point_accepted x = leb x.t 1439 && leb x.p 100

abbrev pub link_accepted : LegacyScheduleLink → Bool
link_accepted x = point_accepted x.s && point_accepted x.d

abbrev pub channel_accepted : LegacyScheduleChannel → Bool
channel_accepted x =
    leb x.o 63
    && ((x.t == legacy_light_channel_type || x.t == legacy_pump_channel_type)
        && every link_accepted x.l)

unfoldable pub core_accepted : LegacyScheduleCore → Bool
core_accepted x = every channel_accepted x.c

unfoldable pub document_accepted : LegacyScheduleDocument → Bool
document_accepted x =
    every channel_accepted x.c && (ltb 0 x.sync_time && leb x.sync_time legacy_max_sync_time)

-- The decimal digits of a number, by fuel that is more than there are digits.
unfoldable pub digits_from : ℕ → ℕ → Text → Text
digits_from zero n acc = acc
digits_from (suc fuel) n acc =
    let more = digits_from fuel (n / 10) ((b'0' + n % 10) ∷ acc) in
    if ltb n 10 then (b'0' + n) ∷ acc else more

unfoldable pub decimal_text : ℕ → Text
unfolding digits_from
decimal_text n = digits_from (suc n) n []

-- Comma-separated
unfoldable pub join : List Text → Text
join [] = []
join (x ∷ []) = x
join (x ∷ y ∷ rest) = x ++ (codes "," ++ join (y ∷ rest))

point_json : LegacySchedulePoint → Text
unfolding decimal_text
point_json x =
    codes "{\"t\":" ++ (decimal_text x.t ++ (codes ",\"p\":" ++ (decimal_text x.p ++ codes "}")))

link_json : LegacyScheduleLink → Text
unfolding point_json
link_json x =
    codes "{\"s\":" ++ (point_json x.s ++ (codes ",\"d\":" ++ (point_json x.d ++ codes "}")))

channel_json : LegacyScheduleChannel → Text
unfolding link_json join decimal_text
channel_json x =
    codes "{\"o\":"
    ++ (decimal_text x.o
        ++ (codes ",\"t\":"
            ++ (decimal_text x.t
                ++ (codes ",\"l\":[" ++ (join (map link_json x.l) ++ codes "]}")))))

-- {"c":[ … ], without the closing brace
unfoldable pub channels_json : List LegacyScheduleChannel → Text
unfolding channel_json join
channels_json c = codes "{\"c\":[" ++ (join (map channel_json c) ++ codes "]")

-- `utf8` is the platform's TextEncoder.
module _ (utf8 : Text → List ℕ) where
  unfoldable pub serialize_legacy_schedule_core : LegacyScheduleCore → Result Text
  serialize_legacy_schedule_core schedule = do
    guard (core_accepted schedule) schema_error
    let serialized = channels_json schedule.c ++ codes "}"
    assert_legacy_schedule_fits utf8 serialized
    ok serialized

  unfoldable pub serialize_legacy_schedule_document : LegacyScheduleCore → ℕ → Result Text
  serialize_legacy_schedule_document schedule sync_time = do
    guard (document_accepted (record { c = schedule.c; sync_time = sync_time })) schema_error
    let serialized =
        channels_json schedule.c
        ++ (codes ",\"syncTime\":" ++ (decimal_text sync_time ++ codes "}"))
    assert_legacy_schedule_fits utf8 serialized
    ok serialized

  unfoldable pub calculate_legacy_schedule_hash : LegacyScheduleCore → Result Text
  calculate_legacy_schedule_hash schedule = do
    serialized ← serialize_legacy_schedule_core schedule
    ok (decimal_text (unsigned_djb2 utf8 serialized))
