-- ===== src/Protocol/Frame/Errors.antt =====
-- The one exception that `parse_frame` raises.
use ms605_ble.Prelude.{
  ℕ, ◌+◌, ◌-◌, List, [], ◌∷◌, length, drop, err, Error, frame_error, ◌≡◌, arith, length-drop,
  length-take,
}
use ms605_ble.Bytes.{u16_value, slice}
use ms605_ble.Protocol.Frame.{parse_body, parse_frame}
use ms605_ble.Protocol.Frame.Attrs.{parse_rest-err, parse_attrs-eq}

parse_body-err :
    (s : ℕ) (body field : List ℕ) (e : Error)
    → length field ≡ 2
    → parse_body s body field ≡ err e
    → e ≡ frame_error
unfolding parse_body
parse_body-err s [] field e k h = cc
parse_body-err s (t ∷ []) field e k h = cc
parse_body-err s (t ∷ m ∷ rest) [] e k h = absurd (omega arith)
parse_body-err s (t ∷ m ∷ rest) (a ∷ []) e k h = absurd (omega arith)
parse_body-err s (t ∷ m ∷ rest) (a ∷ b ∷ []) e k h = ground (
  arith,
  parse_attrs-eq (length (t ∷ m ∷ rest)) t m rest,
  parse_rest-err (length (t ∷ m ∷ rest)) rest e (omega arith),
)
parse_body-err s (t ∷ m ∷ rest) (a ∷ b ∷ c ∷ xs) e k h = absurd (omega arith)

-- Whatever `parse_frame` is given, it returns a frame or raises `FrameError`: its indexing never
-- fails, no field that it unpacks is short, and its loop ends within the rounds of the model.
pub parse_frame-err : (packet : List ℕ) (e : Error) → parse_frame packet ≡ err e → e ≡ frame_error
unfolding parse_frame
parse_frame-err [] e h = cc
parse_frame-err (c0 ∷ []) e h = cc
parse_frame-err (c0 ∷ c1 ∷ []) e h = cc
parse_frame-err (c0 ∷ c1 ∷ s ∷ []) e h = cc
parse_frame-err (c0 ∷ c1 ∷ s ∷ hi ∷ []) e h = cc
parse_frame-err (c0 ∷ c1 ∷ s ∷ hi ∷ lo ∷ rest) e h = ground (
  arith,
  length-drop (5 + u16_value hi lo) (c0 ∷ c1 ∷ s ∷ hi ∷ lo ∷ rest),
  length-take (5 + u16_value hi lo + 2 - (5 + u16_value hi lo))
      (drop (5 + u16_value hi lo) (c0 ∷ c1 ∷ s ∷ hi ∷ lo ∷ rest)),
  parse_body-err s (slice 5 (5 + u16_value hi lo) (c0 ∷ c1 ∷ s ∷ hi ∷ lo ∷ rest))
      (slice (5 + u16_value hi lo) (5 + u16_value hi lo + 2) (c0 ∷ c1 ∷ s ∷ hi ∷ lo ∷ rest)) e,
)
