-- ===== src/Models/History/Tests.antt =====
-- Histories of two records with a cut-off third, and the theorems there.
use ms605_ble.Prelude.{ℕ, ◌++◌, List, [], ◌∷◌, false, map, concat, ok, ◌≡◌, refl, arith}
use ms605_ble.Models.History.{
  PresenceHistoryRecord, LightSample, decode_presence_history, decode_light_history,
}
use ms605_ble.Models.History.Laws.{
  light_bytes, simple_bytes, decode_light_history-layout, decode_presence_history-layout,
}

abbrev samples : List LightSample
samples =
    record { index = 1; timestamp = 1700000000; light_lux = 120 }
    ∷ record { index = 258; timestamp = 1700000060; light_lux = 65535 }
    ∷ []

decode_light_history-layout_example :
    decode_light_history (concat (map light_bytes samples) ++ (1 ∷ 2 ∷ 3 ∷ [])) ≡ ok samples
decode_light_history-layout_example =
    decode_light_history-layout samples (1 ∷ 2 ∷ 3 ∷ []) (omega arith)

abbrev presences : List PresenceHistoryRecord
presences =
    record {
      index = 7;
      sensor_presence_mask = 5;
      zone_enable_mask = 127;
      zone_presence_mask = 8;
      timestamp = 1700000000;
      sub_sensor_triggers = [];
      zone_triggers = [];
    }
    ∷ []

abbrev presence_bytes : List ℕ
presence_bytes = 0 ∷ 7 ∷ 5 ∷ 127 ∷ 8 ∷ 101 ∷ 83 ∷ 241 ∷ 0 ∷ []

presence_laid_out : concat (map simple_bytes presences) ≡ presence_bytes
presence_laid_out = refl

decode_presence_history-layout_example :
    decode_presence_history false (concat (map simple_bytes presences) ++ (0 ∷ [])) ≡ ok presences
decode_presence_history-layout_example =
    decode_presence_history-layout presences (0 ∷ []) ((refl, refl), tt) (omega arith)
