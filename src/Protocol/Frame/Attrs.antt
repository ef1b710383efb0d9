-- ===== src/Protocol/Frame/Attrs.antt =====
-- The attribute list of a frame: what serializing writes, what the parser's loop reads, and that
-- the two undo each other.
use ms605_ble.Prelude.{
  Error, ℕ, zero, suc, ◌+◌, ◌-◌, ◌<◌, ◌≤◌, pos, List, [], ◌∷◌, ◌++◌, ltb, length, take, drop, All,
  Result, ok, err, frame_error, no_fuel, ◌>>=◌, ◌>>◌, raise_if, ◌≡◌, refl, ap, sym, ◌∙◌, arith,
  drop-drop, length-drop, Bool-cases, inl, inr, >>=-eq-ok, take-append, drop-append,
  take-append-drop, length-append, length-take, All-take, All-drop,
}
use ms605_ble.Bytes.{IsByte, AreBytes, slice, u16_bytes, u16_value}
use ms605_ble.Bytes.Laws.{u16_value-bytes, u16_bytes-value}
use ms605_ble.Protocol.Frame.{Attr, AttrArg, parse_attrs}

-- What one attribute and what a list of them look like on the wire.
abbrev pub attr_bytes : Attr → List ℕ
attr_bytes (t, v) = t ∷ (u16_bytes (length v) ++ v)

abbrev pub attrs_bytes : List Attr → List ℕ
attrs_bytes [] = []
attrs_bytes (a ∷ attrs) = attr_bytes a ++ attrs_bytes attrs

-- An attribute that the format can carry.
abbrev pub IsAttr : Attr → Type 0
IsAttr (t, v) = IsByte t × (length v < 65536) × AreBytes v

abbrev pub attr_arg : Attr → AttrArg
attr_arg (t, v) = (pos t, v)

-- The loop of `parse_frame` as a recursion on what is left of the body.
pub parse_rest : ℕ → List ℕ → Result (List Attr)
parse_rest zero rest = err no_fuel
parse_rest (suc rounds) [] = ok []
parse_rest (suc rounds) (tag ∷ hi ∷ lo ∷ rest) =
    raise_if (ltb (length rest) (u16_value hi lo)) frame_error
    >> (parse_rest rounds (drop (u16_value hi lo) rest) >>= λ attrs.
        ok ((tag, take (u16_value hi lo) rest) ∷ attrs))
parse_rest (suc rounds) _ = err frame_error

-- What the slices of the body are, seen from its rest behind `offset`.
drop_rest :
    (k offset : ℕ) (body rest : List ℕ)
    → drop offset body ≡ rest
    → drop (offset + k) body ≡ drop k rest
drop_rest k offset body rest e = sym (drop-drop k offset body) ∙ ap (drop k) e

slice_rest :
    (k m offset : ℕ) (body rest : List ℕ)
    → drop offset body ≡ rest
    → slice (offset + k) (offset + k + m) body ≡ take m (drop k rest)
slice_rest k m offset body rest e =
    ap (λ j. take j (drop (offset + k) body))
      (let q : offset + k + m - (offset + k) ≡ m = omega arith in q)
    ∙ ap (take m) (drop_rest k offset body rest e)

module _ (n : ℕ) (body : List ℕ) (offset t hi lo : ℕ) (rest : List ℕ)
    (e : drop offset body ≡ t ∷ hi ∷ lo ∷ rest)
    (k : length (t ∷ hi ∷ lo ∷ rest) + offset ≡ length body)
    (ih : u16_value hi lo ≤ length rest
      → parse_attrs n body (offset + 3 + u16_value hi lo)
        ≡ parse_rest n (drop (u16_value hi lo) rest)) where
  size_field : slice (offset + 1) (offset + 3) body ≡ hi ∷ lo ∷ []
  size_field =
      ap (λ j. slice (offset + 1) j body) (let q : offset + 3 ≡ offset + 1 + 2 = omega arith in q)
      ∙ slice_rest 1 2 offset body _ e

  parse_attrs_round : parse_attrs (suc n) body offset ≡ parse_rest (suc n) (t ∷ hi ∷ lo ∷ rest)
  unfolding parse_attrs parse_rest
  parse_attrs_round = ground (
    arith,
    ap (λ (l : List ℕ). l) e,
    size_field,
    slice_rest 3 (u16_value hi lo) offset body _ e,
    ih,
  )

parse_attrs-eq_rest :
    (n : ℕ) (body : List ℕ) (offset : ℕ) (rest : List ℕ)
    → drop offset body ≡ rest
    → length rest + offset ≡ length body
    → parse_attrs n body offset ≡ parse_rest n rest
parse_attrs-eq_rest zero body offset rest e k = unfold parse_attrs parse_rest in refl
parse_attrs-eq_rest (suc n) body offset [] e k = unfold parse_attrs parse_rest in ground arith
parse_attrs-eq_rest (suc n) body offset (t ∷ []) e k = unfold parse_attrs parse_rest in ground arith
parse_attrs-eq_rest (suc n) body offset (t ∷ hi ∷ []) e k =
    unfold parse_attrs parse_rest in ground arith
parse_attrs-eq_rest (suc n) body offset (t ∷ hi ∷ lo ∷ rest) e k =
    parse_attrs_round n body offset t hi lo rest e k λ h.
      parse_attrs-eq_rest n body (offset + 3 + u16_value hi lo) (drop (u16_value hi lo) rest)
        (drop_rest (u16_value hi lo) (offset + 3) body rest (drop_rest 3 offset body _ e))
        (omega (arith, length-drop (u16_value hi lo) rest))

-- The loop, from where `parse_body` starts it.
pub parse_attrs-eq :
    (n t m : ℕ) (rest : List ℕ) → parse_attrs n (t ∷ m ∷ rest) 2 ≡ parse_rest n rest
parse_attrs-eq n t m rest = parse_attrs-eq_rest n (t ∷ m ∷ rest) 2 rest refl (omega arith)

-- Reading what was written gives the attributes back, and nothing is left over.
pub parse_rest-bytes :
    (n : ℕ) (attrs : List Attr)
    → All IsAttr attrs
    → length attrs < n
    → parse_rest n (attrs_bytes attrs) ≡ ok attrs
unfolding parse_rest
parse_rest-bytes zero attrs h k = absurd (omega arith)
parse_rest-bytes (suc n) [] h k = refl
parse_rest-bytes (suc n) ((t, v) ∷ attrs) h k = ground (
  arith,
  u16_value-bytes (length v),
  length-append v (attrs_bytes attrs),
  take-append (length v) v (attrs_bytes attrs) refl,
  drop-append (length v) v (attrs_bytes attrs) refl,
  parse_rest-bytes n attrs h.1 (omega arith),
)

-- What a round that succeeds has seen.
parse_round-ok :
    (n t hi lo : ℕ) (rest : List ℕ) (attrs : List Attr)
    → parse_rest (suc n) (t ∷ hi ∷ lo ∷ rest) ≡ ok attrs
    → (tail : List Attr) × (u16_value hi lo ≤ length rest)
      × (parse_rest n (drop (u16_value hi lo) rest) ≡ ok tail)
      × (attrs ≡ (t, take (u16_value hi lo) rest) ∷ tail)
unfolding parse_rest
parse_round-ok n t hi lo rest attrs h = elim (Bool-cases (ltb (length rest) (u16_value hi lo))) [
  | inl short ↦ ground arith
  | inr fits ↦
      let (tail, read, e) =
        >>=-eq-ok (parse_rest n (drop (u16_value hi lo) rest))
          (λ attrs. ok ((t, take (u16_value hi lo) rest) ∷ attrs)) (rw fits at h) in
      (tail, ground arith, read, ground arith)
]

-- What the parser accepts is the one way to write what it returns.
pub parse_rest-canonical :
    (n : ℕ) (rest : List ℕ) (attrs : List Attr)
    → AreBytes rest
    → parse_rest n rest ≡ ok attrs
    → (attrs_bytes attrs ≡ rest) × All IsAttr attrs
unfolding parse_rest
parse_rest-canonical zero rest attrs b h = cc
parse_rest-canonical (suc n) [] attrs b h = ground arith
parse_rest-canonical (suc n) (t ∷ []) attrs b h = cc
parse_rest-canonical (suc n) (t ∷ hi ∷ []) attrs b h = cc
parse_rest-canonical (suc n) (t ∷ hi ∷ lo ∷ rest) attrs b h =
    let (tail, fits, read, e) = parse_round-ok n t hi lo rest attrs h in
    let (same, good) =
      parse_rest-canonical n (drop (u16_value hi lo) rest) tail
        (All-drop IsByte (u16_value hi lo) rest b.1.1.1) read in
    rw e (
      ground (
        arith,
        same,
        length-take (u16_value hi lo) rest,
        take-append-drop (u16_value hi lo) rest,
        u16_bytes-value hi lo,
      ),
      (
        (
          b.0,
          omega (arith, length-take (u16_value hi lo) rest),
          All-take IsByte (u16_value hi lo) rest b.1.1.1,
        ),
        good,
      ),
    )

-- The loop over the attributes raises `FrameError` or nothing, given rounds enough.
pub parse_rest-err :
    (n : ℕ) (rest : List ℕ) (e : Error)
    → length rest < n
    → parse_rest n rest ≡ err e
    → e ≡ frame_error
unfolding parse_rest
parse_rest-err zero rest e k h = absurd (omega arith)
parse_rest-err (suc n) [] e k h = cc
parse_rest-err (suc n) (t ∷ []) e k h = cc
parse_rest-err (suc n) (t ∷ hi ∷ []) e k h = cc
parse_rest-err (suc n) (t ∷ hi ∷ lo ∷ rest) e k h = ground (
  arith,
  parse_rest-err n (drop (u16_value hi lo) rest) e
      (omega (arith, length-drop (u16_value hi lo) rest)),
)
