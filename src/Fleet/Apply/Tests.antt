-- ===== src/Fleet/Apply/Tests.antt =====
-- Changes applied to a device that is its configuration.
use ms605_ble.Prelude.{
  List, [], ◌∷◌, none, some, Result, device_error, ◌==◌, Bool, true, false, if◌then◌else◌, ok, err,
  storage_error, pos, ◌≡◌, refl,
}
use ms605_ble.Events.{LinkState}
use ms605_ble.Protocol.Frame.{Attr}
use ms605_ble.Models.Config.{Ms605Config}
use ms605_ble.Fleet.Changes.{SensorChanges, no_changes, resolve, validate_changes}
use ms605_ble.Fleet.Apply.{
  Device, ApplyStatus, write_target, poll_verify, compare_once, apply_locked, apply_changes,
}
use ms605_ble.Driver.{set_section, apply_profile}
use ms605_ble.Profiles.{validate, sections_present, diff_sections, same_value, from_config}
use ms605_ble.Fleet.Apply.Prepared.{IsSeen}
use ms605_ble.Fleet.Apply.Verified.{apply_changes-verified}
use ms605_ble.Fleet.Apply.Safety.{IsKept, IsSavedFirst, apply_changes-IsSavedFirst}

-- A device is its configuration and its do-not-disturb.
abbrev Store : Type 0
Store = Ms605Config × Bool

-- A SET of the sensitivity; another one is refused.
abbrev keep_level : List Attr → Store → Result (Unit {0}) × Store
keep_level ((tag, n ∷ []) ∷ []) (cfg, dnd) =
    if tag == 61
    then (ok tt, (record cfg { sensitivity = n }, dnd))
    else (err device_error, (cfg, dnd))
keep_level attrs d = (err device_error, d)

-- Snapshots are saved if `disk`.
abbrev store : Bool → Device Store
store disk = record {
  read_config = λ d. (ok (d.0), d);
  read_dnd = λ d. (ok (d.1), d);
  send = keep_level;
  set_dnd = λ b d. (ok tt, (d.0, b));
  connected = λ d. true;
  save_snapshot = λ p sections dnd d. (if disk then ok 7 else err storage_error, d);
}

abbrev device : Store
device = (
  record {
    sub_sensor_enable = 7;
    segment_map = [];
    presence_absence_times = [];
    zone_enable = 127;
    zone_thresholds = [];
    detect_mode = 1;
    zone_distances_m = [];
    sensitivity = 1;
    raw_attributes = [];
  },
  false,
)

abbrev changes : SensorChanges
changes = record no_changes { sensitivity = some (pos 3); dnd = some true }

verified-ok :
    ((apply_changes (store true) 2 true false LinkState.connected changes device).0).status
    ≡ ApplyStatus.ok_status
unfolding apply_changes apply_locked resolve validate_changes validate write_target apply_profile
    sections_present set_section poll_verify compare_once diff_sections same_value from_config
verified-ok = refl

apply_changes-verified_example :
    IsSeen
      (store true)
      changes
      device
      (apply_changes (store true) 2 true false LinkState.connected changes device)
apply_changes-verified_example =
    apply_changes-verified (store true) 2 true false LinkState.connected changes device verified-ok

store-IsKept : IsKept (store true) (λ d. d ≡ device)
store-IsKept = record {
  by_config = λ d p. p;
  by_dnd = λ d p. p;
  by_saving = λ q sections dnd d p. p;
}

apply_changes-IsSavedFirst_example :
    IsSavedFirst
      (store true)
      (λ d. d ≡ device)
      changes
      device
      (((apply_changes (store true) 2 true false LinkState.connected changes device).0).snapshot)
      ((apply_changes (store true) 2 true false LinkState.connected changes device).1)
apply_changes-IsSavedFirst_example =
    apply_changes-IsSavedFirst (store true) (λ d. d ≡ device) 2 true false LinkState.connected
      changes device store-IsKept refl

-- The snapshot that the disk took is named, and the device then has the new settings; without a disk
-- there is no name, and the device is as it was.
named :
    ((apply_changes (store true) 2 true false LinkState.connected changes device).0).snapshot
    ≡ some 7
unfolding apply_changes apply_locked resolve validate_changes validate write_target apply_profile
    sections_present set_section poll_verify compare_once diff_sections same_value from_config
named = refl

unnamed :
    ((apply_changes (store false) 2 true false LinkState.connected changes device).0).snapshot
    ≡ none
unfolding apply_changes apply_locked resolve validate_changes validate
unnamed = refl

unchanged : (apply_changes (store false) 2 true false LinkState.connected changes device).1 ≡ device
unfolding apply_changes apply_locked resolve validate_changes validate
unchanged = refl
