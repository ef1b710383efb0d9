-- ===== src/Driver/Learning.antt =====
-- `apply_profile` does not start an auto-calibration.
use ms605_ble.Prelude.{
  ℕ, List, [], ◌∷◌, Option, none, some, Bool, true, false, ◌==◌, ◌&&◌, if◌then◌else◌, Result, ok,
  err, ℤ, pos, negsuc, ◌≡◌, refl, arith,
}
use ms605_ble.Bytes.{bytes_eq}
use ms605_ble.Protocol.Frame.{Attr}
use ms605_ble.Profiles.{
  Section, sensitivity, detect_mode, zone_enable, zone_thresholds, subsensor_zones,
  subsensor_timing, subsensor_enable, profile_section_keys, ConfigProfile, validate,
}
use ms605_ble.Driver.{
  tag_of, level_byte, value_or_error, section_value, writes, is_learning, send_value, after_check,
  set_section, and_applied, then_write, write_sections, apply_profile,
}

-- A SET of the detect mode 4, which makes a device learn its space.
abbrev pub starts_learning : ℕ → List ℕ → Bool
starts_learning tag value = tag == 52 && bytes_eq value (4 ∷ [])

module _ {Device : Type 0} (P : Device → Type 0) where
  choose :
      (b : Bool) (x y : Result (List Section) × Device)
      → (b ≡ true → P (x.1))
      → P (y.1)
      → P ((if b then x else y).1)
  choose true x y p q = p refl
  choose false x y p q = q

  after_check-keeps :
      (c : Result (Unit {0})) (d : Device) (writing : Result (List Section) × Device)
      → P d
      → P (writing.1)
      → P ((after_check c d writing).1)
  after_check-keeps (err e) d writing p q = p
  after_check-keeps (ok u) d writing p q = q

  and_applied-keeps :
      (k : Section) (r : Result (List Section) × Device) → P (r.1) → P ((and_applied k r).1)
  and_applied-keeps k (err e, d) p = p
  and_applied-keeps k (ok applied, d) p = p

  then_write-keeps :
      (k : Section) (next : Device → Result (List Section) × Device)
      (r : Result (Unit {0}) × Device)
      → P (r.1)
      → ((d : Device) → P d → P ((next d).1))
      → P ((then_write k next r).1)
  then_write-keeps k next (err e, d) p q = p
  then_write-keeps k next (ok u, d) p q = and_applied-keeps k (next d) (q d p)

not_learning :
    (p : ConfigProfile) (wanted : List Section) (k : Section) (v : List ℕ)
    → writes p wanted k ≡ true
    → section_value p k ≡ ok v
    → starts_learning (tag_of k) v ≡ false
not_learning p wanted sensitivity v w h = refl
not_learning p wanted detect_mode v w h = mode p.detect_mode (ground (arith, w)) h
  where
    mode :
        (o : Option ℤ)
        → is_learning o ≡ false
        → value_or_error level_byte o ≡ ok v
        → starts_learning 52 v ≡ false
    mode none w h = absurd (cc h)
    mode (some (negsuc n)) w h = absurd (cc h)
    mode (some (pos n)) w h = ground (arith, w, h)
not_learning p wanted zone_enable v w h = refl
not_learning p wanted zone_thresholds v w h = refl
not_learning p wanted subsensor_zones v w h = refl
not_learning p wanted subsensor_timing v w h = refl
not_learning p wanted subsensor_enable v w h = refl

module _ {Device : Type 0} (send : List Attr → Device → Result (Unit {0}) × Device)
    (P : Device → Type 0)
    (keeps : (tag : ℕ) (value : List ℕ) (d : Device)
      → starts_learning tag value ≡ false
      → P d
      → P ((send ((tag, value) ∷ []) d).1))
    (p : ConfigProfile) (wanted : List Section) where
  send_value-keeps :
      (k : Section) (made : Result (List ℕ)) (d : Device)
      → ((v : List ℕ) → made ≡ ok v → starts_learning (tag_of k) v ≡ false)
      → P d
      → P ((send_value send (tag_of k) made d).1)
  send_value-keeps k (err e) d safe start = start
  send_value-keeps k (ok v) d safe start = keeps (tag_of k) v d (safe v refl) start

  write_sections-keeps :
      (keys : List Section) (d : Device) → P d → P ((write_sections send p wanted keys d).1)
  unfolding write_sections set_section
  write_sections-keeps [] d start = start
  write_sections-keeps (k ∷ keys) d start =
      choose P (writes p wanted k)
        (then_write k (write_sections send p wanted keys) (set_section send p k d))
        (write_sections send p wanted keys d)
        (λ w.
          then_write-keeps P k (write_sections send p wanted keys) (set_section send p k d)
            (send_value-keeps k (section_value p k) d (λ v made. not_learning p wanted k v w made)
              start)
            (write_sections-keeps keys))
        (write_sections-keeps keys d start)

-- Whatever the outcome, `apply_profile` never puts a device into space learning: what every SET
-- other than one of the detect mode 4 leaves true stays true.
pub apply_profile-never_learns :
    {Device : Type 0} (send : List Attr → Device → Result (Unit {0}) × Device) (P : Device → Type 0)
    (p : ConfigProfile) (wanted : List Section) (d : Device)
    → ((tag : ℕ) (value : List ℕ) (d : Device)
        → starts_learning tag value ≡ false
        → P d
        → P ((send ((tag, value) ∷ []) d).1))
    → P d
    → P ((apply_profile send p wanted d).1)
unfolding apply_profile
apply_profile-never_learns send P p wanted d keeps start =
    after_check-keeps P (validate wanted p) d (write_sections send p wanted profile_section_keys d)
      start (write_sections-keeps send P keeps p wanted profile_section_keys d start)
