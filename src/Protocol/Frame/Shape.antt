-- ===== src/Protocol/Frame/Shape.antt =====
-- The envelope that `parse_frame` strips: a packet passes its checks exactly if it is the two magic
-- words, a subdevice byte, the length of a body, the body and two bytes of checksum.
use ms605_ble.Prelude.{
  take, length-drop, length-take, take-append-drop, true, ok, refl, ℕ, ◌+◌, ◌-◌, List, [], ◌∷◌,
  ◌++◌, length, drop, ◌≡◌, ap, sym, ◌∙◌, arith, length-append, drop-append, take-append,
  append_assoc,
}
use ms605_ble.Bytes.{bytes_eq, slice, u16_value}
use ms605_ble.Bytes.Laws.{slice-append}
use ms605_ble.Protocol.Frame.{ParsedFrame, magic_tail, parse_body, parse_frame}

abbrev pub envelope : ℕ → ℕ → ℕ → List ℕ → ℕ → ℕ → List ℕ
envelope s hi lo body chi clo = 0x55 ∷ 0xaa ∷ s ∷ hi ∷ lo ∷ (body ++ (chi ∷ clo ∷ magic_tail))

module _ (s hi lo : ℕ) (body : List ℕ) (chi clo : ℕ) (size : length body ≡ u16_value hi lo) where
  tail_part :
      drop (length (envelope s hi lo body chi clo) - 2) (envelope s hi lo body chi clo) ≡ magic_tail
  tail_part =
      ap (drop (length (envelope s hi lo body chi clo) - 2))
        (ap front (sym (append_assoc body (chi ∷ clo ∷ []) magic_tail)))
      ∙ drop-append (length (envelope s hi lo body chi clo) - 2) (front (body ++ (chi ∷ clo ∷ [])))
          magic_tail
          (omega (
            arith,
            length-append body (chi ∷ clo ∷ magic_tail),
            length-append body (chi ∷ clo ∷ []),
          ))
    where
      front : List ℕ → List ℕ
      front xs = 0x55 ∷ 0xaa ∷ s ∷ hi ∷ lo ∷ xs

  body_part : slice 5 (5 + u16_value hi lo) (envelope s hi lo body chi clo) ≡ body
  body_part = take-append (5 + u16_value hi lo - 5) body (chi ∷ clo ∷ magic_tail) (omega arith)

  crc_part :
      slice (5 + u16_value hi lo) (5 + u16_value hi lo + 2) (envelope s hi lo body chi clo)
      ≡ chi ∷ clo ∷ []
  crc_part =
      slice-append (5 + u16_value hi lo) (5 + u16_value hi lo + 2)
        (0x55 ∷ 0xaa ∷ s ∷ hi ∷ lo ∷ body) (chi ∷ clo ∷ []) magic_tail (omega arith) (omega arith)

  pub parse_frame-envelope :
      parse_frame (envelope s hi lo body chi clo) ≡ parse_body s body (chi ∷ clo ∷ [])
  unfolding parse_frame
  parse_frame-envelope =
      ground (arith, length-append body (chi ∷ clo ∷ magic_tail), tail_part, body_part, crc_part)

-- A packet that passed the checks, taken apart.
pub record Enveloped (packet : List ℕ) (f : ParsedFrame) : Type 0 where
  pub s : ℕ
  pub hi : ℕ
  pub lo : ℕ
  pub body : List ℕ
  pub chi : ℕ
  pub clo : ℕ
  pub size : length body ≡ u16_value hi lo
  pub packet_eq : packet ≡ envelope s hi lo body chi clo
  pub read : parse_body s body (chi ∷ clo ∷ []) ≡ ok f

four :
    (xs : List ℕ)
    → length xs ≡ 4
    → (a : ℕ) × (b : ℕ) × (c : ℕ) × (d : ℕ) × (xs ≡ a ∷ b ∷ c ∷ d ∷ [])
four [] h = absurd (omega arith)
four (a ∷ []) h = absurd (omega arith)
four (a ∷ b ∷ []) h = absurd (omega arith)
four (a ∷ b ∷ c ∷ []) h = absurd (omega arith)
four (a ∷ b ∷ c ∷ d ∷ []) h = (a, b, c, d, refl)
four (a ∷ b ∷ c ∷ d ∷ e ∷ xs) h = absurd (omega arith)

-- What the guards of `parse_frame` have found.
guards :
    (c0 c1 s hi lo : ℕ) (rest : List ℕ) (f : ParsedFrame)
    → parse_frame (c0 ∷ c1 ∷ s ∷ hi ∷ lo ∷ rest) ≡ ok f
    → (c0 ≡ 0x55)
      × (c1 ≡ 0xaa)
      × (length rest ≡ u16_value hi lo + 4)
      × (bytes_eq (drop (length rest + 3) (c0 ∷ c1 ∷ s ∷ hi ∷ lo ∷ rest)) magic_tail ≡ true)
unfolding parse_frame
guards c0 c1 s hi lo rest f h = ground arith

module _ (s hi lo : ℕ) (body : List ℕ) (a b c d : ℕ) (f : ParsedFrame)
    (h : parse_frame (0x55 ∷ 0xaa ∷ s ∷ hi ∷ lo ∷ (body ++ (a ∷ b ∷ c ∷ d ∷ []))) ≡ ok f) where
  last_two : (c ≡ 0xaa) × (d ≡ 0x55)
  last_two =
      ground (arith, ap (λ xs. bytes_eq xs magic_tail) seam, (guards 0x55 0xaa s hi lo _ f h).3)
    where
      front : List ℕ → List ℕ
      front xs = 0x55 ∷ 0xaa ∷ s ∷ hi ∷ lo ∷ xs

      seam :
          drop (length (body ++ (a ∷ b ∷ c ∷ d ∷ [])) + 3) (front (body ++ (a ∷ b ∷ c ∷ d ∷ [])))
          ≡ c ∷ d ∷ []
      seam =
          ap (drop (length (body ++ (a ∷ b ∷ c ∷ d ∷ [])) + 3))
            (ap front (sym (append_assoc body (a ∷ b ∷ []) (c ∷ d ∷ []))))
          ∙ drop-append (length (body ++ (a ∷ b ∷ c ∷ d ∷ [])) + 3) (front (body ++ (a ∷ b ∷ [])))
              (c ∷ d ∷ [])
              (omega
                (arith, length-append body (a ∷ b ∷ c ∷ d ∷ []), length-append body (a ∷ b ∷ [])))

-- Every accepted packet has that form.
pub parse_frame-ok :
    (packet : List ℕ) (f : ParsedFrame) → parse_frame packet ≡ ok f → Enveloped packet f
parse_frame-ok (c0 ∷ c1 ∷ s ∷ hi ∷ lo ∷ rest) f h =
    let (e0, e1, size, _) = guards c0 c1 s hi lo rest f h in
    let n = u16_value hi lo in
    let (a, b, c, d, e) = four (drop n rest) (omega (arith, length-drop n rest)) in
    let body = take n rest in
    let whole : rest ≡ body ++ (a ∷ b ∷ c ∷ d ∷ []) =
      sym (take-append-drop n rest) ∙ ap (λ t. body ++ t) e in
    let packed : c0 ∷ c1 ∷ s ∷ hi ∷ lo ∷ rest
        ≡ 0x55 ∷ 0xaa ∷ s ∷ hi ∷ lo ∷ (body ++ (a ∷ b ∷ c ∷ d ∷ [])) =
      cc (e0, e1, whole) in
    let (ec, ed) = last_two s hi lo body a b c d f (sym (ap parse_frame packed) ∙ h) in
    let same : c0 ∷ c1 ∷ s ∷ hi ∷ lo ∷ rest ≡ envelope s hi lo body a b =
      cc (e0, e1, whole, ec, ed) in
    let fits : length body ≡ n = omega (arith, length-take n rest) in
    record {
      s = s;
      hi = hi;
      lo = lo;
      body = body;
      chi = a;
      clo = b;
      size = fits;
      packet_eq = same;
      read = sym (parse_frame-envelope s hi lo body a b fits) ∙ sym (ap parse_frame same) ∙ h;
    }
parse_frame-ok [] f h = unfold parse_frame in cc
parse_frame-ok (c0 ∷ []) f h = unfold parse_frame in cc
parse_frame-ok (c0 ∷ c1 ∷ []) f h = unfold parse_frame in cc
parse_frame-ok (c0 ∷ c1 ∷ s ∷ []) f h = unfold parse_frame in cc
parse_frame-ok (c0 ∷ c1 ∷ s ∷ hi ∷ []) f h = unfold parse_frame in cc
