-- ===== src/Models/Config/Reads.antt =====
-- Which attribute each field of a configuration was read from.
use ms605_ble.Prelude.{
  ℕ, List, [], ◌∷◌, Option, none, some, Result, ok, or_raise, frame_error, ◌≡◌, ap, ◌∙◌, subst,
  >>=-eq-ok, ok-inj,
}
use ms605_ble.Protocol.Frame.{ParsedFrame, get}
use ms605_ble.Models.Zones.{decode_zone_thresholds, decode_presence_absence_times}
use ms605_ble.Models.Segments.{decode_segment_map}
use ms605_ble.Models.Config.{Ms605Config, require, require_byte, first_byte, decode_config}

abbrev pub ReadsByte : ParsedFrame → ℕ → ℕ → Type 0
ReadsByte f tag b = (rest : List ℕ) × (get f.attributes tag ≡ some (b ∷ rest))

-- The value of a tag, and what a decoder makes of it.
abbrev pub ReadsBy : {A : Type 0} → (List ℕ → Result A) → ParsedFrame → ℕ → A → Type 0
ReadsBy decode f tag a = (v : List ℕ) × (get f.attributes tag ≡ some v) × (decode v ≡ ok a)

pub record IsRead (f : ParsedFrame) (cfg : Ms605Config) : Type 0 where
  pub enables : ReadsByte f 41 cfg.sub_sensor_enable
  pub segments : ReadsBy decode_segment_map f 48 cfg.segment_map
  pub times : ReadsBy decode_presence_absence_times f 49 cfg.presence_absence_times
  pub zones : ReadsByte f 50 cfg.zone_enable
  pub thresholds : ReadsBy decode_zone_thresholds f 51 cfg.zone_thresholds
  pub mode : ReadsByte f 52 cfg.detect_mode
  pub level : ReadsByte f 61 cfg.sensitivity

required-some : (o : Option (List ℕ)) (v : List ℕ) → or_raise o frame_error ≡ ok v → o ≡ some v
required-some none v h = cc
required-some (some w) v h = cc

require-some :
    (f : ParsedFrame) (tag : ℕ) (v : List ℕ) → require f tag ≡ ok v → get f.attributes tag ≡ some v
unfolding require
require-some f tag v h = required-some (get f.attributes tag) v h

first_byte-cons : (v : List ℕ) (b : ℕ) → first_byte v ≡ ok b → (rest : List ℕ) × (v ≡ b ∷ rest)
first_byte-cons [] b h = absurd (cc h)
first_byte-cons (c ∷ v) b h = (v, cc h)

require_byte-some : (f : ParsedFrame) (tag b : ℕ) → require_byte f tag ≡ ok b → ReadsByte f tag b
unfolding require_byte
require_byte-some f tag b h =
    let (v, got, first) = >>=-eq-ok (require f tag) first_byte h in
    let (rest, e) = first_byte-cons v b first in
    (rest, require-some f tag v got ∙ ap (λ l. some l) e)

-- Every field of a configuration that `decode_config` returned stands in the response.
pub decode_config-IsRead :
    (f : ParsedFrame) (cfg : Ms605Config) → decode_config f ≡ ok cfg → IsRead f cfg
unfolding decode_config
decode_config-IsRead f cfg h =
    let (a1, e1, h1) = >>=-eq-ok (require_byte f 41) _ h in
    let (v2, g2, h2) = >>=-eq-ok (require f 48) _ h1 in
    let (a2, e2, h3) = >>=-eq-ok (decode_segment_map v2) _ h2 in
    let (v3, g3, h4) = >>=-eq-ok (require f 49) _ h3 in
    let (a3, e3, h5) = >>=-eq-ok (decode_presence_absence_times v3) _ h4 in
    let (a4, e4, h6) = >>=-eq-ok (require_byte f 50) _ h5 in
    let (v5, g5, h7) = >>=-eq-ok (require f 51) _ h6 in
    let (a5, e5, h8) = >>=-eq-ok (decode_zone_thresholds v5) _ h7 in
    let (a6, e6, h9) = >>=-eq-ok (require_byte f 52) _ h8 in
    let (v7, g7, h10) = >>=-eq-ok (require f 53) _ h9 in
    let (a8, e8, h11) = >>=-eq-ok (require_byte f 61) _ h10 in
    subst (IsRead f) (ok-inj h11) (record {
      enables = require_byte-some f 41 a1 e1;
      segments = (v2, require-some f 48 v2 g2, e2);
      times = (v3, require-some f 49 v3 g3, e3);
      zones = require_byte-some f 50 a4 e4;
      thresholds = (v5, require-some f 51 v5 g5, e5);
      mode = require_byte-some f 52 a6 e6;
      level = require_byte-some f 61 a8 e8;
    })
