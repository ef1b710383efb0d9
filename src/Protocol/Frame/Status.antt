-- ===== src/Protocol/Frame/Status.antt =====
-- What the status accessors of `ParsedFrame` say about the attributes.
use ms605_ble.Prelude.{
  ℕ, List, [], ◌∷◌, ◌++◌, none, some, ◌==◌, ◌≡◌, ◌≢◌, ◌↔◌, Option, refl, ap, arith, Bool-cases, inl,
  inr,
}
use ms605_ble.Protocol.Frame.{
  Attr, ParsedFrame, get_all, tag_status, first_bytes, first_nonzero, first_error_status,
}

-- The attributes hold no status byte but zeros.
abbrev pub AllZero : List Attr → Type 0
AllZero attrs =
    (before after : List Attr) (s : ℕ) (v : List ℕ)
    → attrs ≡ before ++ (tag_status, s ∷ v) ∷ after
    → s ≡ 0

AllZero-cons :
    (t : ℕ) (w : List ℕ) (attrs : List Attr)
    → ((s : ℕ) (v : List ℕ) → t ≡ tag_status → w ≡ s ∷ v → s ≡ 0)
    → AllZero attrs
    → AllZero ((t, w) ∷ attrs)
AllZero-cons t w attrs head rest [] after s v e = head s v (cc e) (cc e)
AllZero-cons t w attrs head rest (b ∷ before) after s v e = rest before after s v (cc e)

AllZero-tail : (a : Attr) (attrs : List Attr) → AllZero (a ∷ attrs) → AllZero attrs
AllZero-tail a attrs z before after s v e = z (a ∷ before) after s v (ap (λ r. a ∷ r) e)

AllZero-nil : AllZero []
AllZero-nil [] after s v e = cc e
AllZero-nil (b ∷ before) after s v e = cc e

abbrev first_error : List Attr → Option ℕ
first_error attrs = first_nonzero (first_bytes (get_all attrs tag_status))

none→AllZero : (attrs : List Attr) → first_error attrs ≡ none → AllZero attrs
unfolding get_all
none→AllZero [] h = AllZero-nil
none→AllZero ((t, []) ∷ attrs) h =
    AllZero-cons t [] attrs (λ s v _ e. cc e) (none→AllZero attrs (ground arith))
none→AllZero ((t, x ∷ w) ∷ attrs) h =
    AllZero-cons t (x ∷ w) attrs (λ s v p e. ground arith) (none→AllZero attrs (ground arith))

AllZero→none : (attrs : List Attr) → AllZero attrs → first_error attrs ≡ none
unfolding get_all
AllZero→none [] z = refl
AllZero→none ((t, []) ∷ attrs) z = ground (arith, AllZero→none attrs (AllZero-tail (t, []) attrs z))
AllZero→none ((t, x ∷ w) ∷ attrs) z =
    ground (arith, zero_head, AllZero→none attrs (AllZero-tail (t, x ∷ w) attrs z))
  where
    zero_head : t ≡ tag_status → x ≡ 0
    zero_head e = z [] attrs x w (ap (λ k. (k, x ∷ w) ∷ attrs) e)

-- `first_error_status` returns None exactly if every status attribute (tag 3) that is not empty
-- begins with a zero byte, wherever it stands: no failure is hidden behind a success.
pub first_error_status-none_iff :
    (f : ParsedFrame) → (first_error_status f ≡ none) ↔ AllZero f.attributes
unfolding first_error_status
first_error_status-none_iff f = (none→AllZero f.attributes, AllZero→none f.attributes)

-- Where the first status that is not zero stands.
pub record FirstError (attrs : List Attr) (s : ℕ) : Type 0 where
  pub before : List Attr
  pub after : List Attr
  pub rest : List ℕ
  pub attrs_eq : attrs ≡ before ++ (tag_status, s ∷ rest) ∷ after
  pub not_zero : s ≢ 0
  pub zeros : AllZero before

FirstError-cons :
    (t : ℕ) (w : List ℕ) (attrs : List Attr) (s : ℕ)
    → ((s : ℕ) (v : List ℕ) → t ≡ tag_status → w ≡ s ∷ v → s ≡ 0)
    → FirstError attrs s
    → FirstError ((t, w) ∷ attrs) s
FirstError-cons t w attrs s head r = record {
  before = (t, w) ∷ r.before;
  after = r.after;
  rest = r.rest;
  attrs_eq = ap (λ l. (t, w) ∷ l) r.attrs_eq;
  not_zero = r.not_zero;
  zeros = AllZero-cons t w r.before head r.zeros;
}

some→FirstError : (attrs : List Attr) (s : ℕ) → first_error attrs ≡ some s → FirstError attrs s
unfolding get_all
some→FirstError [] s h = absurd (cc h)
some→FirstError ((t, []) ∷ attrs) s h =
    FirstError-cons t [] attrs s (λ s v _ e. cc e) (some→FirstError attrs s (ground arith))
some→FirstError ((t, x ∷ w) ∷ attrs) s h = elim (Bool-cases (t == tag_status)) [
  | inr other ↦
      FirstError-cons t (x ∷ w) attrs s (λ s v p e. ground arith)
        (some→FirstError attrs s (ground arith))
  | inl status_tag ↦ elim (Bool-cases (x == 0)) [
    | inl zero_byte ↦
        FirstError-cons t (x ∷ w) attrs s (λ s v p e. ground arith)
          (some→FirstError attrs s (ground arith))
    | inr error_byte ↦ record {
      before = [];
      after = attrs;
      rest = w;
      attrs_eq = ground arith;
      not_zero = ground arith;
      zeros = AllZero-nil;
    }
  ]
]

-- A status that `first_error_status` returns is not zero, is the first byte of a status attribute
-- of the frame, and every status attribute before that one is empty or begins with zero.
pub first_error_status-some :
    (f : ParsedFrame) (s : ℕ) → first_error_status f ≡ some s → FirstError f.attributes s
unfolding first_error_status
first_error_status-some f = some→FirstError f.attributes
