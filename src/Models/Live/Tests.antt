-- ===== src/Models/Live/Tests.antt =====
-- A live radar payload with a negative threshold, and the theorem there.
use ms605_ble.Prelude.{
  ℕ, ◌++◌, pos, negsuc, List, [], ◌∷◌, true, false, map, concat, ok, ◌≡◌, refl, arith,
}
use ms605_ble.Models.Segments.{flags_from}
use ms605_ble.Models.Live.{RadarZoneLive, decode_radar_output}
use ms605_ble.Models.Live.Laws.{AreZones, zone_bytes, decode_radar_output-layout}

abbrev zone : ℕ → RadarZoneLive
zone i = record {
  index = i;
  current_trigger = pos 300;
  current_maintain = pos i;
  enabled = true;
  trigger_active = false;
  trigger_threshold = negsuc 4;
  maintain_threshold = pos 32767;
}

abbrev seven : List RadarZoneLive
seven = map zone (0 ∷ 1 ∷ 2 ∷ 3 ∷ 4 ∷ 5 ∷ 6 ∷ [])

negative_bytes : zone_bytes (zone 2) ≡ 1 ∷ 44 ∷ 0 ∷ 2 ∷ 1 ∷ 0 ∷ 255 ∷ 251 ∷ 127 ∷ 255 ∷ []
negative_bytes = refl

decode_radar_output-layout_example :
    decode_radar_output (5 ∷ (concat (map zone_bytes seven) ++ (9 ∷ [])))
    ≡ ok (record { sub_sensor_presence = flags_from 3 0 5; zones = seven })
decode_radar_output-layout_example = decode_radar_output-layout 5 seven (9 ∷ []) refl seven-AreZones
  where
    seven-AreZones : AreZones 0 seven
    seven-AreZones = ground arith
