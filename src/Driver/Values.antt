-- ===== src/Driver/Values.antt =====
-- What each `set_...` method sends is read back as the value of the profile.
use ms605_ble.Prelude.{
  ℕ, List, [], ◌∷◌, Option, none, some, Bool, true, length, map, Result, ok, ℤ, pos, negsuc, ◌++◌,
  ◌≡◌, refl, sym, ap, ◌∙◌, subst, arith, >>=-eq-ok, ok-inj, Result-cases, inl, inr,
}
use ms605_ble.Equality.{Eq, opt_Eq, list_Eq, pair_Eq, bool_Eq, int_Eq}
use ms605_ble.Protocol.Frame.{ParsedFrame, get}
use ms605_ble.Models.Zones.{
  SubSensorTiming, encode_zone_thresholds, encode_presence_absence_times, decode_zone_thresholds,
  decode_presence_absence_times,
}
use ms605_ble.Models.Zones.Laws.{
  decode-encode_zone_thresholds, decode-encode_presence_absence_times, threshold_arg, timing_arg,
}
use ms605_ble.Models.Segments.{
  SubSensorZoneMap, encode_segment_map, decode_segment_map, encode_subsensor_enable, flags_sum,
  flags_from, masks_of,
}
use ms605_ble.Models.Segments.Laws.{
  decode-encode_segment_map, masks_of-three, flags_from-sum, flags_from-encode_subsensor_enable,
  zones_held,
}
use ms605_ble.Models.Config.{Ms605Config, zones_enabled}
use ms605_ble.Models.Config.Reads.{IsRead}
use ms605_ble.Profiles.{
  Section, sensitivity, detect_mode, zone_enable, zone_thresholds, subsensor_zones,
  subsensor_timing, subsensor_enable, ConfigProfile, validate, same_value, from_config, zones_value,
  sorted_set, checked, are_flags, has_section,
}
use ms605_ble.Profiles.Checks.{validate-IsChecked, checked-passed}
use ms605_ble.Profiles.ZoneSets.{sorted_set-sorted, mask_from-IsZone}
use ms605_ble.Driver.{
  tag_of, level_byte, zone_enable_value, enable_value, segment_value, value_or_error, section_value,
}

test-eq : {A : Type 0} (e : Eq A) (a b : A) → a ≡ b → e.test a b ≡ true
test-eq e a b h = subst (λ x. e.test a x ≡ true) h (e.same a)

level-read :
    (o : Option ℤ) (v rest : List ℕ) (n : ℕ)
    → value_or_error level_byte o ≡ ok v
    → v ≡ n ∷ rest
    → o ≡ some (pos n)
level-read none v rest n h e = cc
level-read (some (negsuc m)) v rest n h e = cc
level-read (some (pos m)) v rest n h e = ground (arith, h, e)

flags-read :
    (o : Option (List Bool)) (v rest : List ℕ) (n : ℕ)
    → value_or_error zone_enable_value o ≡ ok v
    → checked (are_flags 7) o ≡ ok tt
    → v ≡ n ∷ rest
    → o ≡ some (flags_from 7 0 n)
unfolding zone_enable_value
flags-read none v rest n h c e = cc
flags-read (some flags) v rest n h c e =
    let seven : length flags ≡ 7 = ground (arith, c) in
    let packed : flags_sum 0 flags ≡ n = ground (arith, h, e, seven) in
    ap (λ l. some l)
      (sym (flags_from-sum flags)
        ∙ ap (λ k. flags_from k 0 (flags_sum 0 flags)) seven
        ∙ ap (flags_from 7 0) packed)

enables-read :
    (o : Option (List Bool)) (v rest : List ℕ) (n : ℕ)
    → value_or_error enable_value o ≡ ok v
    → checked (are_flags 3) o ≡ ok tt
    → v ≡ n ∷ rest
    → o ≡ some (flags_from 3 0 n)
enables-read none v rest n h c e = cc
enables-read (some flags) v rest n h c e =
    let three : length flags ≡ 3 = ground (arith, c) in
    let (mask, packed, whole) =
      >>=-eq-ok (encode_subsensor_enable flags) (λ mask. ok (mask ∷ [])) h in
    let (small, unpacked) = flags_from-encode_subsensor_enable flags mask packed in
    let same : mask ≡ n = ground (arith, whole, e) in
    ap (λ l. some l) (sym unpacked ∙ ap (λ k. flags_from k 0 mask) three ∙ ap (flags_from 3 0) same)

-- Where a tag holds what the encoder made, the decoded value is what was encoded.
module _ {A B : Type 0} (encode : A → Result (List ℕ)) (decode : List ℕ → Result B) where
  pairs-read :
      (arg : B → A)
      → ((a : A) (v : List ℕ) → encode a ≡ ok v → (b : B) × (decode v ≡ ok b) × (arg b ≡ a))
      → (o : Option A) (v w : List ℕ) (b : B) → value_or_error encode o ≡ ok v
      → v ≡ w
      → decode w ≡ ok b
      → o ≡ some (arg b)
  pairs-read arg law none v w b h same read = cc
  pairs-read arg law (some a) v w b h same read =
      let (b', read', back) = law a v h in
      let one : b' ≡ b = ok-inj (sym read' ∙ ap decode same ∙ read) in
      ap (λ x. some x) (sym back ∙ ap arg one)

sorted-three :
    (a b c : List ℤ) (masks : List ℕ)
    → masks_of (a ∷ b ∷ c ∷ []) ≡ ok masks
    → map sorted_set (map (λ zs. map (λ z. pos z) zs) (map (zones_held 7 0) (a ∷ b ∷ c ∷ [])))
      ≡ map sorted_set (a ∷ b ∷ c ∷ [])
sorted-three a b c masks h =
    let (x, y, z, e, ea, eb, ec) = masks_of-three a b c masks h in
    rw
      (
        sorted_set-sorted a (mask_from-IsZone 0 a x ea),
        sorted_set-sorted b (mask_from-IsZone 0 b y eb),
        sorted_set-sorted c (mask_from-IsZone 0 c z ec),
      )
      refl

sorted-encoded :
    (zone_lists : List (List ℤ)) (value : List ℕ)
    → encode_segment_map zone_lists ≡ ok value
    → map sorted_set (map (λ zs. map (λ z. pos z) zs) (map (zones_held 7 0) zone_lists))
      ≡ map sorted_set zone_lists
unfolding encode_segment_map
sorted-encoded (a ∷ b ∷ c ∷ []) value h =
    let (masks, made, whole) =
      >>=-eq-ok (masks_of (a ∷ b ∷ c ∷ [])) (λ masks. ok (masks ++ (0 ∷ []))) h in
    sorted-three a b c masks made
sorted-encoded [] value h = absurd (ground (arith, h))
sorted-encoded (a ∷ []) value h = absurd (ground (arith, h))
sorted-encoded (a ∷ b ∷ []) value h = absurd (ground (arith, h))
sorted-encoded (a ∷ b ∷ c ∷ d ∷ more) value h = absurd (ground (arith, h))

zone_args-map :
    (maps : List SubSensorZoneMap)
    → map (λ zm. map (λ z. pos z) zm.zones) maps
      ≡ map (λ zs. map (λ z. pos z) zs) (map (λ m. m.zones) maps)
zone_args-map [] = refl
zone_args-map (m ∷ maps) = ap (λ l. map (λ z. pos z) m.zones ∷ l) (zone_args-map maps)

segment_value-encoded :
    (zone_lists : List (List ℤ)) (v : List ℕ)
    → segment_value zone_lists ≡ ok v
    → encode_segment_map zone_lists ≡ ok v
segment_value-encoded zone_lists v h = elim (Result-cases (encode_segment_map zone_lists)) [
  | inr (e, failed) ↦ absurd (ground (arith, h, failed))
  | inl (value, made) ↦ ground (arith, h, made)
]

zones-read :
    (o : Option (List (List ℤ))) (v w : List ℕ) (maps : List SubSensorZoneMap)
    → value_or_error segment_value o ≡ ok v
    → v ≡ w
    → decode_segment_map w ≡ ok maps
    → zones_value o ≡ zones_value (some (map (λ zm. map (λ z. pos z) zm.zones) maps))
zones-read none v w maps h same read = cc
zones-read (some zone_lists) v w maps h same read =
    let made = segment_value-encoded zone_lists v h in
    let (size, small, maps', read', back) = decode-encode_segment_map zone_lists v made in
    let one : maps' ≡ maps = ok-inj (sym read' ∙ ap decode_segment_map same ∙ read) in
    ap (λ l. some l)
      (sym (sorted-encoded zone_lists v made)
        ∙ ap (λ l. map sorted_set (map (λ zs. map (λ z. pos z) zs) l)) (sym back)
        ∙ ap (map sorted_set) (sym (zone_args-map maps'))
        ∙ ap (λ l. map sorted_set (map (λ zm. map (λ z. pos z) zm.zones) l)) one)

value-same : {v w : List ℕ} {o : Option (List ℕ)} → o ≡ some v → o ≡ some w → v ≡ w
value-same h e = cc (h, e)

timings-back :
    (a : List (ℤ × ℤ)) (v : List ℕ)
    → encode_presence_absence_times a ≡ ok v
    → (b : List SubSensorTiming) × (decode_presence_absence_times v ≡ ok b) × (map timing_arg b ≡ a)
timings-back a v h =
    let (size, b, read, back) = decode-encode_presence_absence_times a v h in (b, read, back)

pub section_value-read :
    (f : ParsedFrame) (cfg : Ms605Config) (p : ConfigProfile) (wanted : List Section) (k : Section)
    (v : List ℕ)
    → IsRead f cfg
    → validate wanted p ≡ ok tt
    → has_section k wanted ≡ true
    → section_value p k ≡ ok v
    → get f.attributes (tag_of k) ≡ some v
    → same_value p (from_config cfg) k ≡ true
unfolding same_value from_config zones_enabled
section_value-read f cfg p wanted sensitivity v r c named h got =
    let (rest, e) = r.level in
    test-eq (opt_Eq int_Eq) _ _
      (level-read p.sensitivity v rest cfg.sensitivity h (value-same got e))
section_value-read f cfg p wanted detect_mode v r c named h got =
    let (rest, e) = r.mode in
    test-eq (opt_Eq int_Eq) _ _
      (level-read p.detect_mode v rest cfg.detect_mode h (value-same got e))
section_value-read f cfg p wanted zone_enable v r c named h got =
    let (rest, e) = r.zones in
    let fit =
      checked-passed zone_enable wanted _ named
        ((validate-IsChecked wanted p c).zone_enable_checked) in
    test-eq (opt_Eq (list_Eq bool_Eq)) _ _
      (flags-read p.zone_enable v rest cfg.zone_enable h fit (value-same got e))
section_value-read f cfg p wanted zone_thresholds v r c named h got =
    let (w, e, read) = r.thresholds in
    test-eq (opt_Eq (list_Eq (pair_Eq int_Eq int_Eq))) _ _ (
      pairs-read encode_zone_thresholds decode_zone_thresholds (map threshold_arg)
        decode-encode_zone_thresholds p.zone_thresholds v w cfg.zone_thresholds h (value-same got e)
        read)
section_value-read f cfg p wanted subsensor_zones v r c named h got =
    let (w, e, read) = r.segments in
    test-eq (opt_Eq (list_Eq (list_Eq int_Eq))) _ _
      (zones-read p.subsensor_zones v w cfg.segment_map h (value-same got e) read)
section_value-read f cfg p wanted subsensor_timing v r c named h got =
    let (w, e, read) = r.times in
    test-eq (opt_Eq (list_Eq (pair_Eq int_Eq int_Eq))) _ _ (
      pairs-read encode_presence_absence_times decode_presence_absence_times (map timing_arg)
        timings-back p.subsensor_timing v w cfg.presence_absence_times h (value-same got e) read)
section_value-read f cfg p wanted subsensor_enable v r c named h got =
    let (rest, e) = r.enables in
    let fit =
      checked-passed subsensor_enable wanted _ named
        ((validate-IsChecked wanted p c).subsensor_enable_checked) in
    test-eq (opt_Eq (list_Eq bool_Eq)) _ _
      (enables-read p.subsensor_enable v rest cfg.sub_sensor_enable h fit (value-same got e))
