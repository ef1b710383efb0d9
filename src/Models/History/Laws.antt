-- ===== src/Models/History/Laws.antt =====
-- Histories against the layout of their records.
use ms605_ble.Prelude.{
  ℕ, ◌+◌, ◌-◌, ◌*◌, ◌/◌, ◌%◌, ◌<◌, List, [], ◌∷◌, ◌++◌, All, false, length, map, concat, drop, take,
  take-append, length-append, Result, ok, ◌≡◌, refl, sym, ap, ◌∙◌, arith, append_assoc, drop-append,
  drop-drop,
}
use ms605_ble.Bytes.{slice, u16_bytes}
use ms605_ble.Bytes.Laws.{u16_value-bytes}
use ms605_ble.Models.Fields.{read_u16, read_u32}
use ms605_ble.Models.History.{
  PresenceHistoryRecord, decode_presence_history_simple, records_from, usable_records,
  decode_presence_history, LightSample, light_sample, decode_light_history,
}

-- Records of one size, each of which its parser reads, are read one after the other.
module _ {A : Type 0} (parser : List ℕ → Result A) (bytes_of : A → List ℕ) (size : ℕ) where
  abbrev pub IsRead : A → Type 0
  IsRead a = (length (bytes_of a) ≡ size) × (parser (bytes_of a) ≡ ok a)

  pub records_read :
      (i : ℕ) (raw : List ℕ) (items : List A) (tail : List ℕ)
      → All IsRead items
      → drop i raw ≡ concat (map bytes_of items) ++ tail
      → records_from parser size (length items) i raw ≡ ok items
  unfolding records_from
  records_read i raw [] tail h p = refl
  records_read i raw (a ∷ items) tail ((long, reads), more) p =
      ground (arith, ap parser cut, reads, records_read (i + size) raw items tail more next)
    where
      whole : drop i raw ≡ bytes_of a ++ (concat (map bytes_of items) ++ tail)
      whole = p ∙ append_assoc (bytes_of a) (concat (map bytes_of items)) tail

      cut : slice i (i + size) raw ≡ bytes_of a
      cut =
          ap (λ n. take n (drop i raw)) (let q : i + size - i ≡ size = omega arith in q)
          ∙ ap (take size) whole
          ∙ take-append size (bytes_of a) (concat (map bytes_of items) ++ tail) (sym long)

      next : drop (i + size) raw ≡ concat (map bytes_of items) ++ tail
      next =
          sym (drop-drop size i raw)
          ∙ ap (drop size) whole
          ∙ drop-append size (bytes_of a) (concat (map bytes_of items) ++ tail) (sym long)

  pub length-records :
      (items : List A)
      → All IsRead items
      → length (concat (map bytes_of items)) ≡ length items * size
  length-records [] h = omega arith
  length-records (a ∷ items) ((long, reads), more) = omega (
    arith,
    length-append (bytes_of a) (concat (map bytes_of items)),
    long,
    length-records items more,
  )

-- The eight bytes of a light sample: a number, a time and the light.
abbrev pub light_bytes : LightSample → List ℕ
light_bytes s =
    u16_bytes s.index
    ++ (u16_bytes (s.timestamp / 65536)
        ++ (u16_bytes (s.timestamp % 65536) ++ u16_bytes s.light_lux))

light-IsRead : (s : LightSample) → IsRead light_sample light_bytes 8 s
unfolding light_sample read_u16 read_u32
light-IsRead s = (refl, ground (arith, u16_value-bytes s.index, u16_value-bytes s.light_lux))

All-IsRead : (samples : List LightSample) → All (IsRead light_sample light_bytes 8) samples
All-IsRead [] = tt
All-IsRead (s ∷ samples) = (light-IsRead s, All-IsRead samples)

-- The samples of a light history in their layout, whatever is cut off behind the last whole one, are
-- read by `decode_light_history` in their order.
pub decode_light_history-layout :
    (samples : List LightSample) (cut_off : List ℕ)
    → length cut_off < 8
    → decode_light_history (concat (map light_bytes samples) ++ cut_off) ≡ ok samples
unfolding decode_light_history
decode_light_history-layout samples cut_off h =
    let raw = concat (map light_bytes samples) ++ cut_off in
    let count : usable_records 8 raw ≡ length samples = omega (
      arith,
      length-append (concat (map light_bytes samples)) cut_off,
      length-records light_sample light_bytes 8 samples (All-IsRead samples),
    ) in
    ap (λ n. records_from light_sample 8 n 0 raw) count
    ∙ records_read light_sample light_bytes 8 0 raw samples cut_off (All-IsRead samples) refl

-- The nine bytes of a coarse presence record: a number, three masks and a time.
abbrev pub simple_bytes : PresenceHistoryRecord → List ℕ
simple_bytes p =
    u16_bytes p.index
    ++ (p.sensor_presence_mask
        ∷ p.zone_enable_mask
        ∷ p.zone_presence_mask
        ∷ (u16_bytes (p.timestamp / 65536) ++ u16_bytes (p.timestamp % 65536)))

-- A coarse record has no triggers.
abbrev pub IsSimple : PresenceHistoryRecord → Type 0
IsSimple p = (p.sub_sensor_triggers ≡ []) × (p.zone_triggers ≡ [])

simple-IsRead :
    (p : PresenceHistoryRecord)
    → IsSimple p
    → IsRead decode_presence_history_simple simple_bytes 9 p
unfolding decode_presence_history_simple read_u16 read_u32
simple-IsRead p (no_sub, no_zone) = (refl, ground (arith, no_sub, no_zone, u16_value-bytes p.index))

All-simple :
    (records : List PresenceHistoryRecord)
    → All IsSimple records
    → All (IsRead decode_presence_history_simple simple_bytes 9) records
All-simple [] h = tt
All-simple (p ∷ records) (simple, rest) = (simple-IsRead p simple, All-simple records rest)

-- The coarse records of a presence history in their layout, whatever is cut off behind the last
-- whole one, are read by `decode_presence_history`, without `detail`, in their order.
pub decode_presence_history-layout :
    (records : List PresenceHistoryRecord) (cut_off : List ℕ)
    → All IsSimple records
    → length cut_off < 9
    → decode_presence_history false (concat (map simple_bytes records) ++ cut_off) ≡ ok records
unfolding decode_presence_history
decode_presence_history-layout records cut_off simple h =
    let raw = concat (map simple_bytes records) ++ cut_off in
    let good = All-simple records simple in
    let count : usable_records 9 raw ≡ length records = omega (
      arith,
      length-append (concat (map simple_bytes records)) cut_off,
      length-records decode_presence_history_simple simple_bytes 9 records good,
    ) in
    ap (λ n. records_from decode_presence_history_simple 9 n 0 raw) count
    ∙ records_read decode_presence_history_simple simple_bytes 9 0 raw records cut_off good refl
