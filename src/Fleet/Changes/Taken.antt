-- ===== src/Fleet/Changes/Taken.antt =====
-- What `from_profile` puts into the fields of a SensorChanges.
use ms605_ble.Prelude.{
  List, [], ◌∷◌, Option, none, some, Bool, true, false, ◌==◌, if◌then◌else◌, ok, ◌≡◌, refl, sym, ap,
  ◌∙◌, ok-inj,
}
use ms605_ble.Profiles.{
  Section, sensitivity, detect_mode, zone_enable, zone_thresholds, subsensor_zones,
  subsensor_timing, subsensor_enable, section_number, ConfigProfile,
}
use ms605_ble.Fleet.Changes.{
  SensorChanges, no_changes, ChangeSection, of_profile, dnd_section, absolute_change, set_change,
  set_changes, from_profile,
}

-- `key in sections`
abbrev pub names : Section → List ChangeSection → Bool
names s [] = false
names s (dnd_section ∷ sections) = names s sections
names s (of_profile k ∷ sections) =
    if section_number k == section_number s then true else names s sections

-- A field after `set_changes`: that of the profile, or what it was.
abbrev pub chosen : {A : Type 0} → Bool → A → A → A
chosen true new old = new
chosen false new old = old

chosen_again :
    {A : Type 0} (a b : Bool) (new old : A)
    → chosen a new (chosen b new old) ≡ chosen (if b then true else a) new old
chosen_again true true new old = refl
chosen_again true false new old = refl
chosen_again false true new old = refl
chosen_again false false new old = refl

every :
    (P : Section → Type 0)
    → P sensitivity
    → P detect_mode
    → P zone_enable
    → P zone_thresholds
    → P subsensor_zones
    → P subsensor_timing
    → P subsensor_enable
    → (s : Section) → P s
every P a b c d e f g sensitivity = a
every P a b c d e f g detect_mode = b
every P a b c d e f g zone_enable = c
every P a b c d e f g zone_thresholds = d
every P a b c d e f g subsensor_zones = e
every P a b c d e f g subsensor_timing = f
every P a b c d e f g subsensor_enable = g

-- Naming a section sets this field if it is the section `k`, and else leaves it as it is.
abbrev Sets :
    {F : Type 0}
    → (SensorChanges → F)
    → Section
    → ConfigProfile
    → F
    → SensorChanges
    → Section
    → Type 0
Sets field k p new c j =
    field (set_change p j c) ≡ chosen (section_number j == section_number k) new (field c)

-- A field of a SensorChanges that only the name `k` sets, to `new`.
module _ {F : Type 0} (field : SensorChanges → F) (k : Section) (p : ConfigProfile) (new : F)
    (set_by : (c : SensorChanges) (j : Section) → Sets field k p new c j)
    (kept_by : (b : Bool) (c : SensorChanges) → field (record c { dnd = some b }) ≡ field c) where
  set_changes-field :
      (dnd : Option Bool) (sections : List ChangeSection) (c d : SensorChanges)
      → set_changes p dnd sections c ≡ ok d
      → field d ≡ chosen (names k sections) new (field c)
  unfolding set_changes
  set_changes-field dnd [] c d h = ap field (sym (ok-inj h))
  set_changes-field none (dnd_section ∷ sections) c d h = absurd (cc h)
  set_changes-field (some b) (dnd_section ∷ sections) c d h =
      set_changes-field (some b) sections (record c { dnd = some b }) d h
      ∙ ap (chosen (names k sections) new) (kept_by b c)
  set_changes-field none (of_profile j ∷ sections) c d h =
      set_changes-field none sections (set_change p j c) d h
      ∙ ap (chosen (names k sections) new) (set_by c j)
      ∙ chosen_again (names k sections) (section_number j == section_number k) new (field c)
  set_changes-field (some b) (of_profile j ∷ sections) c d h =
      set_changes-field (some b) sections (set_change p j c) d h
      ∙ ap (chosen (names k sections) new) (set_by c j)
      ∙ chosen_again (names k sections) (section_number j == section_number k) new (field c)

-- What `from_profile` puts into each field.
pub record IsTaken (p : ConfigProfile) (sections : List ChangeSection) (d : SensorChanges)
    : Type 0 where
  pub sensitivity_taken : d.sensitivity ≡ chosen (names sensitivity sections) p.sensitivity none
  pub detect_mode_taken : d.detect_mode ≡ chosen (names detect_mode sections) p.detect_mode none
  pub zone_enable_taken : d.zone_enable ≡ chosen (names zone_enable sections) p.zone_enable none
  pub zone_thresholds_taken :
      d.zone_thresholds
      ≡ chosen (names zone_thresholds sections) (absolute_change p.zone_thresholds) none
  pub subsensor_zones_taken :
      d.subsensor_zones ≡ chosen (names subsensor_zones sections) p.subsensor_zones none
  pub subsensor_timing_taken :
      d.subsensor_timing ≡ chosen (names subsensor_timing sections) p.subsensor_timing none
  pub subsensor_enable_taken :
      d.subsensor_enable ≡ chosen (names subsensor_enable sections) p.subsensor_enable none

pub from_profile-IsTaken :
    (p : ConfigProfile) (sections : List ChangeSection) (dnd : Option Bool) (d : SensorChanges)
    → from_profile p sections dnd ≡ ok d
    → IsTaken p sections d
unfolding from_profile
from_profile-IsTaken p sections dnd d h = record {
  sensitivity_taken =
      set_changes-field (λ c. c.sensitivity) sensitivity p p.sensitivity
        (λ c.
          every (Sets (λ c. c.sensitivity) sensitivity p p.sensitivity c) refl refl refl refl refl
            refl refl)
        (λ b c. refl) dnd sections no_changes d h;
  detect_mode_taken =
      set_changes-field (λ c. c.detect_mode) detect_mode p p.detect_mode
        (λ c.
          every (Sets (λ c. c.detect_mode) detect_mode p p.detect_mode c) refl refl refl refl refl
            refl refl)
        (λ b c. refl) dnd sections no_changes d h;
  zone_enable_taken =
      set_changes-field (λ c. c.zone_enable) zone_enable p p.zone_enable
        (λ c.
          every (Sets (λ c. c.zone_enable) zone_enable p p.zone_enable c) refl refl refl refl refl
            refl refl)
        (λ b c. refl) dnd sections no_changes d h;
  zone_thresholds_taken =
      set_changes-field (λ c. c.zone_thresholds) zone_thresholds p
        (absolute_change p.zone_thresholds)
        (λ c.
          every
            (Sets (λ c. c.zone_thresholds) zone_thresholds p (absolute_change p.zone_thresholds) c)
            refl refl refl refl refl refl refl)
        (λ b c. refl) dnd sections no_changes d h;
  subsensor_zones_taken =
      set_changes-field (λ c. c.subsensor_zones) subsensor_zones p p.subsensor_zones
        (λ c.
          every (Sets (λ c. c.subsensor_zones) subsensor_zones p p.subsensor_zones c) refl refl refl
            refl refl refl refl)
        (λ b c. refl) dnd sections no_changes d h;
  subsensor_timing_taken =
      set_changes-field (λ c. c.subsensor_timing) subsensor_timing p p.subsensor_timing
        (λ c.
          every (Sets (λ c. c.subsensor_timing) subsensor_timing p p.subsensor_timing c) refl refl
            refl refl refl refl refl)
        (λ b c. refl) dnd sections no_changes d h;
  subsensor_enable_taken =
      set_changes-field (λ c. c.subsensor_enable) subsensor_enable p p.subsensor_enable
        (λ c.
          every (Sets (λ c. c.subsensor_enable) subsensor_enable p p.subsensor_enable c) refl refl
            refl refl refl refl refl)
        (λ b c. refl) dnd sections no_changes d h;
}
