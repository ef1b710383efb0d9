-- ===== src/Models/Config/Tests.antt =====
-- A response without any of the attributes, reported distances, and the theorems there.
use ms605_ble.Prelude.{
  ℕ, List, [], ◌∷◌, ◌++◌, none, some, true, false, arith, err, frame_error, ◌≡◌, refl,
}
use ms605_ble.Protocol.Frame.{ParsedFrame, get}
use ms605_ble.Models.Config.{decode_config, zone_distances, fallback_distances_m}
use ms605_ble.Models.Config.Laws.{decode_config-err, zone_distances-far}

abbrev no_attributes : ParsedFrame
no_attributes = record {
  subdev_type = 192;
  trigger_src = 17;
  msg_id = 1;
  attributes = [];
  crc_ok = true;
  expected_crc = 0;
  actual_crc = 0;
  is_push = false;
}

raised : decode_config no_attributes ≡ err frame_error
unfolding decode_config get
raised = refl

decode_config-err_example : frame_error ≡ frame_error
decode_config-err_example = decode_config-err no_attributes frame_error raised

abbrev far : List ℕ
far = 8 ∷ 16 ∷ 24 ∷ 32 ∷ 40 ∷ 50 ∷ 61 ∷ []

-- Eight boundaries, of which the first is dropped.
eight_boundaries :
    zone_distances (some (0 ∷ 8 ∷ 16 ∷ 24 ∷ 32 ∷ 40 ∷ 50 ∷ 61 ∷ []))
    ≡ 8 ∷ 16 ∷ 24 ∷ 32 ∷ 40 ∷ 50 ∷ 61 ∷ []
unfolding zone_distances
eight_boundaries = refl

zone_distances-far_example :
    (zone_distances (some (0 ∷ (far ++ []))) ≡ far)
    × (zone_distances (some far) ≡ far)
    × (zone_distances (some (1 ∷ 2 ∷ [])) ≡ fallback_distances_m)
    × (zone_distances none ≡ fallback_distances_m)
zone_distances-far_example = zone_distances-far far [] (1 ∷ 2 ∷ []) 0 refl (ground arith)
