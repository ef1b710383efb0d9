-- ===== src/Models/Live/Laws.antt =====
-- The radar output against the layout of its payload.
use ms605_ble.Prelude.{
  ℕ, suc, ◌+◌, ◌-◌, ◌*◌, ◌/◌, ◌%◌, ◌<◌, ◌≤◌, ℤ, pos, negsuc, List, [], ◌∷◌, ◌++◌, Bool, true, false,
  ltb, length, map, concat, drop, Result, ok, frame_error, ◌≡◌, refl, sym, ap, ◌∙◌, arith,
  if◌then◌else◌, length-append, ◌>>=◌, ◌>>◌, raise_if,
}
use ms605_ble.Bytes.{get_item, first, u16_bytes, u16_value}
use ms605_ble.Bytes.Laws.{u16_value-bytes}
use ms605_ble.Models.Fields.{signed_u16, read_i16}
use ms605_ble.Models.Fields.Pairs.{field_at, drop_more}
use ms605_ble.Models.Segments.{flags_from}
use ms605_ble.Models.Live.{
  RadarZoneLive, RadarOutputSnapshot, nonzero, radar_zone, radar_zones, decode_radar_output,
}

-- Two's complement in sixteen bits.
abbrev pub unsigned : ℤ → ℕ
unsigned (pos n) = n
unsigned (negsuc n) = 0xFFFF - n

abbrev pub i16_bytes : ℤ → List ℕ
i16_bytes z = u16_bytes (unsigned z)

abbrev pub IsI16 : ℤ → Type 0
IsI16 (pos n) = n < 0x8000
IsI16 (negsuc n) = n < 0x8000

abbrev pub flag_byte : Bool → ℕ
flag_byte b = if b then 1 else 0

-- The ten bytes of a zone: two readings, two flags and two thresholds.
abbrev pub zone_bytes : RadarZoneLive → List ℕ
zone_bytes z =
    i16_bytes z.current_trigger
    ++ (i16_bytes z.current_maintain
        ++ (flag_byte z.enabled
            ∷ flag_byte z.trigger_active
            ∷ (i16_bytes z.trigger_threshold ++ i16_bytes z.maintain_threshold)))

-- The zones are numbered from `i` on, and their numbers fit their fields.
abbrev pub AreZones : ℕ → List RadarZoneLive → Type 0
AreZones i [] = Unit {0}
AreZones i (z ∷ zones) =
    ((z.index ≡ i)
      × IsI16 z.current_trigger
      × IsI16 z.current_maintain
      × IsI16 z.trigger_threshold
      × IsI16 z.maintain_threshold)
    × AreZones (i + 1) zones

module _ (value : List ℕ) where
  i16_at :
      (i hi lo : ℕ) (rest : List ℕ)
      → drop i value ≡ hi ∷ lo ∷ rest
      → read_i16 value i ≡ ok (signed_u16 (u16_value hi lo))
  unfolding read_i16
  i16_at i hi lo rest e = ground (arith, field_at value i (hi ∷ lo ∷ rest) e)

  byte_at : (i b : ℕ) (rest : List ℕ) → drop i value ≡ b ∷ rest → get_item value i ≡ ok b
  byte_at i b rest e = ap first e

  zone_at :
      (i a b c d e f g h k l : ℕ) (rest : List ℕ)
      → drop (1 + i * 10) value ≡ a ∷ b ∷ c ∷ d ∷ e ∷ f ∷ g ∷ h ∷ k ∷ l ∷ rest
      → radar_zone i value
        ≡ ok (record {
          index = i;
          current_trigger = signed_u16 (u16_value a b);
          current_maintain = signed_u16 (u16_value c d);
          enabled = nonzero e;
          trigger_active = nonzero f;
          trigger_threshold = signed_u16 (u16_value g h);
          maintain_threshold = signed_u16 (u16_value k l);
        })
  unfolding radar_zone
  zone_at i a b c d e f g h k l rest p = ground (
    arith,
    i16_at (1 + i * 10) a b _ p,
    i16_at (1 + i * 10 + 2) c d _ (drop_more 2 (1 + i * 10) value _ p),
    byte_at (1 + i * 10 + 4) e _ (drop_more 4 (1 + i * 10) value _ p),
    byte_at (1 + i * 10 + 5) f _ (drop_more 5 (1 + i * 10) value _ p),
    i16_at (1 + i * 10 + 6) g h _ (drop_more 6 (1 + i * 10) value _ p),
    i16_at (1 + i * 10 + 6 + 2) k l _ (
        ap (λ n. drop n value) (let q : 1 + i * 10 + 6 + 2 ≡ 1 + i * 10 + 8 = omega arith in q)
        ∙ drop_more 8 (1 + i * 10) value _ p),
  )

signed-unsigned :
    (z : ℤ) → IsI16 z → signed_u16 (u16_value (unsigned z / 256) (unsigned z % 256)) ≡ z
unfolding signed_u16
signed-unsigned (pos n) h = ground (arith, u16_value-bytes n)
signed-unsigned (negsuc n) h = ground (arith, u16_value-bytes (0xFFFF - n))

nonzero-flag_byte : (b : Bool) → nonzero (flag_byte b) ≡ b
nonzero-flag_byte true = refl
nonzero-flag_byte false = refl

module _ (value : List ℕ) where
  zone_read :
      (i : ℕ) (z : RadarZoneLive) (zones : List RadarZoneLive) (rest : List ℕ)
      → AreZones i (z ∷ zones)
      → drop (1 + i * 10) value ≡ zone_bytes z ++ rest
      → radar_zone i value ≡ ok z
  zone_read i z zones rest ((at, ct, cm, tt', mt), more) p = ground (
    arith,
    at,
    zone_at value i _ _ _ _ _ _ _ _ _ _ rest p,
    signed-unsigned z.current_trigger ct,
    signed-unsigned z.current_maintain cm,
    signed-unsigned z.trigger_threshold tt',
    signed-unsigned z.maintain_threshold mt,
    nonzero-flag_byte z.enabled,
    nonzero-flag_byte z.trigger_active,
  )

  zones_read :
      (i : ℕ) (zones : List RadarZoneLive) (rest : List ℕ)
      → AreZones i zones
      → drop (1 + i * 10) value ≡ concat (map zone_bytes zones) ++ rest
      → radar_zones (length zones) i value ≡ ok zones
  unfolding radar_zones
  zones_read i [] rest h p = refl
  zones_read i (z ∷ zones) rest h p = ground (
    arith,
    zone_read i z zones (concat (map zone_bytes zones) ++ rest) h p,
    zones_read (i + 1) zones rest (h.1) (
        ap (λ n. drop n value) (let q : 1 + (i + 1) * 10 ≡ 1 + i * 10 + 10 = omega arith in q)
        ∙ drop_more 10 (1 + i * 10) value _ p),
  )

length-zones :
    (zones : List RadarZoneLive) → length (concat (map zone_bytes zones)) ≡ length zones * 10
length-zones [] = refl
length-zones (z ∷ zones) =
    omega (arith, length-append (zone_bytes z) (concat (map zone_bytes zones)), length-zones zones)

long_enough : (n : ℕ) → 70 ≤ n → ltb (suc n) 71 ≡ false
long_enough n h = ground arith

decoded :
    (mask : ℕ) (rest : List ℕ) (zones : List RadarZoneLive)
    → 70 ≤ length rest
    → radar_zones 7 0 (mask ∷ rest) ≡ ok zones
    → decode_radar_output (mask ∷ rest)
      ≡ ok (record { sub_sensor_presence = flags_from 3 0 mask; zones = zones })
unfolding decode_radar_output
decoded mask rest zones long read =
    ap (λ b. raise_if b frame_error >> (radar_zones 7 0 (mask ∷ rest) >>= after))
      (long_enough (length rest) long)
    ∙ ap (λ r. r >>= after) read
  where
    after : List RadarZoneLive → Result RadarOutputSnapshot
    after zs = ok (record { sub_sensor_presence = flags_from 3 0 mask; zones = zs })

-- A payload of a presence mask and seven zones in their layout, their numbers in two's complement,
-- followed by anything, is decoded by `decode_radar_output` to these zones and to the three lowest
-- bits of the mask.
pub decode_radar_output-layout :
    (mask : ℕ) (zones : List RadarZoneLive) (tail : List ℕ)
    → length zones ≡ 7
    → AreZones 0 zones
    → decode_radar_output (mask ∷ (concat (map zone_bytes zones) ++ tail))
      ≡ ok (record { sub_sensor_presence = flags_from 3 0 mask; zones = zones })
decode_radar_output-layout mask zones tail seven h =
    let body = concat (map zone_bytes zones) in
    decoded mask (body ++ tail) zones
      (omega (arith, seven, length-append body tail, length-zones zones))
      (ap (λ n. radar_zones n 0 (mask ∷ (body ++ tail))) (sym seven)
        ∙ zones_read (mask ∷ (body ++ tail)) 0 zones tail h refl)
