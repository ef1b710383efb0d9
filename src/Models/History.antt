-- ===== src/Models/History.antt =====
-- The presence and light histories (tags 57 to 60) of ms605/models.py.
pub mod Laws
pub mod Tests
use ms605_ble.Prelude.{
  ℕ, zero, suc, ◌+◌, ◌-◌, ◌*◌, ◌/◌, ◌%◌, List, [], ◌∷◌, Bool, true, false, not, ◌==◌, if◌then◌else◌,
  length, Result, ok, frame_error, raise_if, ◌>>=◌, ◌>>◌,
}
use ms605_ble.Bytes.{get_item, slice}
use ms605_ble.Models.Fields.{read_u16, read_u32}

pub record PresenceHistoryRecord : Type 0 where
  pub index : ℕ
  pub sensor_presence_mask : ℕ
  pub zone_enable_mask : ℕ
  pub zone_presence_mask : ℕ
  pub timestamp : ℕ
  pub sub_sensor_triggers : List ℕ
  pub zone_triggers : List ℕ

unfoldable pub decode_presence_history_simple : List ℕ → Result PresenceHistoryRecord
decode_presence_history_simple value = do
  raise_if (not (length value == 9)) frame_error
  index ← read_u16 value 0
  sensor_mask ← get_item value 2
  zone_enable_mask ← get_item value 3
  zone_presence_mask ← get_item value 4
  timestamp ← read_u32 value 5
  ok (record {
    index = index;
    sensor_presence_mask = sensor_mask;
    zone_enable_mask = zone_enable_mask;
    zone_presence_mask = zone_presence_mask;
    timestamp = timestamp;
    sub_sensor_triggers = [];
    zone_triggers = [];
  })

-- `struct.unpack_from(">nH", value, offset)`
unfoldable pub read_u16s : ℕ → List ℕ → ℕ → Result (List ℕ)
read_u16s zero value offset = ok []
read_u16s (suc n) value offset = do
  x ← read_u16 value offset
  rest ← read_u16s n value (offset + 2)
  ok (x ∷ rest)

unfoldable pub decode_presence_history_detail : List ℕ → Result PresenceHistoryRecord
decode_presence_history_detail value = do
  raise_if (not (length value == 37)) frame_error
  index ← read_u16 value 0
  sensor_mask ← get_item value 2
  sub_triggers ← read_u16s 7 value 3
  zone_enable_mask ← get_item value 17
  zone_presence_mask ← get_item value 18
  zone_triggers ← read_u16s 7 value 19
  timestamp ← read_u32 value 33
  ok (record {
    index = index;
    sensor_presence_mask = sensor_mask;
    zone_enable_mask = zone_enable_mask;
    zone_presence_mask = zone_presence_mask;
    timestamp = timestamp;
    sub_sensor_triggers = sub_triggers;
    zone_triggers = zone_triggers;
  })

-- `parser(raw[i : i + record_size]) for i in range(i, ..., record_size)`
unfoldable pub records_from :
    {A : Type 0} → (List ℕ → Result A) → ℕ → ℕ → ℕ → List ℕ → Result (List A)
records_from parser record_size zero i raw = ok []
records_from parser record_size (suc rounds) i raw = do
  a ← parser (slice i (i + record_size) raw)
  rest ← records_from parser record_size rounds (i + record_size) raw
  ok (a ∷ rest)

-- `usable = len(raw) - (len(raw) % record_size)`, in records
abbrev pub usable_records : ℕ → List ℕ → ℕ
usable_records record_size raw =
    let usable = length raw - length raw % record_size in usable / record_size

unfoldable pub decode_presence_history : Bool → List ℕ → Result (List PresenceHistoryRecord)
decode_presence_history detail raw =
    if detail
    then records_from decode_presence_history_detail 37 (usable_records 37 raw) 0 raw
    else records_from decode_presence_history_simple 9 (usable_records 9 raw) 0 raw

pub record LightSample : Type 0 where
  pub index : ℕ
  pub timestamp : ℕ
  pub light_lux : ℕ

-- The body of the loop, for one record.
unfoldable pub light_sample : List ℕ → Result LightSample
light_sample rec = do
  index ← read_u16 rec 0
  timestamp ← read_u32 rec 2
  light ← read_u16 rec 6
  ok (record { index = index; timestamp = timestamp; light_lux = light })

unfoldable pub decode_light_history : List ℕ → Result (List LightSample)
decode_light_history raw = records_from light_sample 8 (usable_records 8 raw) 0 raw
