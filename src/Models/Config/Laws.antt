-- ===== src/Models/Config/Laws.antt =====
-- How reading a configuration fails.
use ms605_ble.Prelude.{
  leb, ℕ, zero, suc, ◌+◌, ◌*◌, ◌≤◌, ◌<◌, ◌++◌, List, [], ◌∷◌, Option, none, some, Bool, true, false,
  not, ltb, ◌==◌, length, Result, ok, err, Error, frame_error, or_raise, raise_if, ◌>>=◌, ◌>>◌,
  if◌then◌else◌, ◌≡◌, refl, ap, arith, sym, length-append, take-append,
}
use ms605_ble.Bytes.{slice}
use ms605_ble.Protocol.Frame.{ParsedFrame, get}
use ms605_ble.Models.Fields.{read_pairs}
use ms605_ble.Models.Fields.Pairs.{pairs_rest, read_pairs-eq_rest}
use ms605_ble.Models.Zones.{decode_zone_thresholds, decode_presence_absence_times}
use ms605_ble.Models.Segments.{maps_from, decode_segment_map}
use ms605_ble.Models.Config.{
  require, require_byte, first_byte, decode_config, zone_distances, fallback_distances_m,
}

-- What is raised is a FrameError.
abbrev pub RaisesFrameError : {A : Type 0} → Result A → Type 0
RaisesFrameError r = (e : Error) → r ≡ err e → e ≡ frame_error

module _ {A B : Type 0} where
  then_too :
      (r : Result A) (next : A → Result B)
      → RaisesFrameError r
      → ((a : A) → RaisesFrameError (next a))
      → RaisesFrameError (r >>= next)
  then_too (ok a) next p q e' h = q a e' h
  then_too (err e) next p q e' h = ground (arith, p e refl, h)

returned : {A : Type 0} (a : A) → RaisesFrameError (ok a)
returned a e h = absurd (ground (arith, h))

required : (o : Option (List ℕ)) → RaisesFrameError (or_raise o frame_error)
required none e h = ground (arith, h)
required (some v) e h = absurd (ground (arith, h))

require-only : (f : ParsedFrame) (tag : ℕ) → RaisesFrameError (require f tag)
unfolding require
require-only f tag = required (get f.attributes tag)

first_byte-only : (value : List ℕ) → RaisesFrameError (first_byte value)
first_byte-only [] e h = ground (arith, h)
first_byte-only (b ∷ value) e h = absurd (ground (arith, h))

require_byte-only : (f : ParsedFrame) (tag : ℕ) → RaisesFrameError (require_byte f tag)
unfolding require_byte
require_byte-only f tag = then_too (require f tag) first_byte (require-only f tag) first_byte-only

segments-only : (value : List ℕ) → RaisesFrameError (decode_segment_map value)
unfolding decode_segment_map maps_from
segments-only [] e h = ground (arith, h)
segments-only (a ∷ []) e h = ground (arith, h)
segments-only (a ∷ b ∷ []) e h = ground (arith, h)
segments-only (a ∷ b ∷ c ∷ rest) e h = absurd (ground (arith, h))

pairs_rest-enough :
    (n : ℕ) (rest : List ℕ)
    → n * 4 ≤ length rest
    → (pairs : List (ℕ × ℕ)) × (pairs_rest n rest ≡ ok pairs)
unfolding pairs_rest
pairs_rest-enough zero rest h = ([], refl)
pairs_rest-enough (suc n) [] h = absurd (omega (arith, h))
pairs_rest-enough (suc n) (a ∷ []) h = absurd (omega (arith, h))
pairs_rest-enough (suc n) (a ∷ b ∷ []) h = absurd (omega (arith, h))
pairs_rest-enough (suc n) (a ∷ b ∷ c ∷ []) h = absurd (omega (arith, h))
pairs_rest-enough (suc n) (a ∷ b ∷ c ∷ d ∷ rest) h =
    let (pairs, read) = pairs_rest-enough n rest (omega (arith, h)) in
    (_, ap (λ r. r >>= λ ps. ok ((a * 256 + b, c * 256 + d) ∷ ps)) read)

pairs-only :
    (n : ℕ) (value : List ℕ) → n * 4 ≤ length value → RaisesFrameError (read_pairs n 0 value)
pairs-only n value h e failed =
    let (pairs, read) = pairs_rest-enough n value h in
    absurd (ground (arith, read_pairs-eq_rest n 0 value value refl, read, failed))

guarded :
    {A : Type 0} (test : Bool) (next : Result A)
    → (test ≡ false → RaisesFrameError next)
    → RaisesFrameError (raise_if test frame_error >> next)
guarded true next p e h = ground (arith, h)
guarded false next p e h = p refl e h

thresholds-only : (value : List ℕ) → RaisesFrameError (decode_zone_thresholds value)
unfolding decode_zone_thresholds
thresholds-only value = guarded (not (length value == 28)) _ (λ sized.
    then_too (read_pairs 7 0 value) _ (pairs-only 7 value (enough sized)) (λ pairs. returned _))
  where
    enough : not (length value == 28) ≡ false → 7 * 4 ≤ length value
    enough sized = ground (arith, sized)

times-only : (value : List ℕ) → RaisesFrameError (decode_presence_absence_times value)
unfolding decode_presence_absence_times
times-only value = guarded (ltb (length value) 12) _ (λ sized.
    then_too (read_pairs 3 0 value) _ (pairs-only 3 value (enough sized)) (λ pairs. returned _))
  where
    enough : ltb (length value) 12 ≡ false → 3 * 4 ≤ length value
    enough sized = ground (arith, sized)

-- `decode_config` raises FrameError and nothing else, whichever attributes the response has and
-- however long their values are.
pub decode_config-err :
    (response : ParsedFrame) (e : Error) → decode_config response ≡ err e → e ≡ frame_error
unfolding decode_config
decode_config-err f = then_too _ _ (require_byte-only f 41) (λ a.
    then_too _ _ (require-only f 48) (λ b. then_too _ _ (segments-only b) (λ c.
      then_too _ _ (require-only f 49) (λ d. then_too _ _ (times-only d) (λ g.
        then_too _ _ (require_byte-only f 50) (λ h. then_too _ _ (require-only f 51) (λ i.
          then_too _ _ (thresholds-only i) (λ j. then_too _ _ (require_byte-only f 52) (λ k.
            then_too _ _ (require-only f 53)
              (λ l. then_too _ _ (require_byte-only f 61) (λ m. returned _)))))))))))

-- Seven distances, and what stands around them.
seven_taken : (b : ℕ) (far more : List ℕ) → length far ≡ 7 → slice 1 8 (b ∷ (far ++ more)) ≡ far
seven_taken b far more h = take-append 7 far more (sym h)

eight_or_more :
    (b : ℕ) (far more : List ℕ) → length far ≡ 7 → leb 8 (length (b ∷ (far ++ more))) ≡ true
eight_or_more b far more h = ground (arith, length-append far more, h)

seven_kept :
    (d : List ℕ) → length d ≡ 7 → (if not (length d == 7) then fallback_distances_m else d) ≡ d
seven_kept d h = ground (arith, h)

-- Eight boundaries or more come to the seven after the first, which is the near end of the first
-- zone; seven are the distances themselves; fewer, or none reported, come to the fallback.
pub zone_distances-far :
    (far more few : List ℕ) (b : ℕ)
    → length far ≡ 7
    → length few < 7
    → (zone_distances (some (b ∷ (far ++ more))) ≡ far)
      × (zone_distances (some far) ≡ far)
      × (zone_distances (some few) ≡ fallback_distances_m)
      × (zone_distances none ≡ fallback_distances_m)
unfolding zone_distances
zone_distances-far far more few b h fewer = (
  rw (eight_or_more b far more h, seven_taken b far more h) (seven_kept far h),
  ground (arith, h),
  ground (arith, fewer),
  refl,
)
