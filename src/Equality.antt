-- ===== src/Equality.antt =====
-- `==` of Python on None, lists and pairs, from the equality of what they hold.
use ms605_ble.Prelude.{
  List, [], ◌∷◌, Option, none, some, Bool, true, false, ◌&&◌, ◌≡◌, refl, ap, ap₂, arith, ℤ, int_eq,
  int_eq→eq, int_eq_refl,
}

-- A test for equality, with its law.
pub record Eq (A : Type 0) : Type 0 where
  pub test : A → A → Bool
  pub sound : (a b : A) → test a b ≡ true → a ≡ b
  pub same : (a : A) → test a a ≡ true

abbrev pub opt_eq : {A : Type 0} → (A → A → Bool) → Option A → Option A → Bool
opt_eq eq none none = true
opt_eq eq none (some b) = false
opt_eq eq (some a) none = false
opt_eq eq (some a) (some b) = eq a b

abbrev pub list_eq : {A : Type 0} → (A → A → Bool) → List A → List A → Bool
list_eq eq [] [] = true
list_eq eq [] (y ∷ ys) = false
list_eq eq (x ∷ xs) [] = false
list_eq eq (x ∷ xs) (y ∷ ys) = eq x y && list_eq eq xs ys

abbrev pub pair_eq : {A B : Type 0} → (A → A → Bool) → (B → B → Bool) → A × B → A × B → Bool
pair_eq eq eq' (a, b) (c, d) = eq a c && eq' b d

abbrev pub bool_eq : Bool → Bool → Bool
bool_eq true b = b
bool_eq false true = false
bool_eq false false = true

and_left : (a b : Bool) → (a && b) ≡ true → a ≡ true
and_left a b h = ground (arith, h)

and_right : (a b : Bool) → (a && b) ≡ true → b ≡ true
and_right a b h = ground (arith, h)

both : (a b : Bool) → a ≡ true → b ≡ true → (a && b) ≡ true
both a b p q = ground (arith, p, q)

pub bool_sound : (a b : Bool) → bool_eq a b ≡ true → a ≡ b
bool_sound true true h = refl
bool_sound true false h = cc
bool_sound false true h = cc
bool_sound false false h = refl

pub bool_same : (a : Bool) → bool_eq a a ≡ true
bool_same true = refl
bool_same false = refl

abbrev pub bool_Eq : Eq Bool
bool_Eq = record { test = bool_eq; sound = bool_sound; same = bool_same }

abbrev pub int_Eq : Eq ℤ
int_Eq = record { test = int_eq; sound = int_eq→eq; same = int_eq_refl }

module _ {A : Type 0} (e : Eq A) where
  pub opt_sound : (a b : Option A) → opt_eq e.test a b ≡ true → a ≡ b
  opt_sound none none h = refl
  opt_sound none (some b) h = cc
  opt_sound (some a) none h = cc
  opt_sound (some a) (some b) h = ap (λ x. some x) (e.sound a b h)

  pub opt_same : (a : Option A) → opt_eq e.test a a ≡ true
  opt_same none = refl
  opt_same (some a) = e.same a

  abbrev pub opt_Eq : Eq (Option A)
  opt_Eq = record { test = opt_eq e.test; sound = opt_sound; same = opt_same }

  pub list_sound : (xs ys : List A) → list_eq e.test xs ys ≡ true → xs ≡ ys
  list_sound [] [] h = refl
  list_sound [] (y ∷ ys) h = cc
  list_sound (x ∷ xs) [] h = cc
  list_sound (x ∷ xs) (y ∷ ys) h =
      ap₂ (λ a b. a ∷ b) (e.sound x y (and_left (e.test x y) (list_eq e.test xs ys) h))
        (list_sound xs ys (and_right (e.test x y) (list_eq e.test xs ys) h))

  pub list_same : (xs : List A) → list_eq e.test xs xs ≡ true
  list_same [] = refl
  list_same (x ∷ xs) = both (e.test x x) (list_eq e.test xs xs) (e.same x) (list_same xs)

  abbrev pub list_Eq : Eq (List A)
  list_Eq = record { test = list_eq e.test; sound = list_sound; same = list_same }

module _ {A B : Type 0} (e : Eq A) (e' : Eq B) where
  pub pair_sound : (p q : A × B) → pair_eq e.test e'.test p q ≡ true → p ≡ q
  pair_sound (a, b) (c, d) h =
      ap₂ (λ x y. (x, y)) (e.sound a c (and_left (e.test a c) (e'.test b d) h))
        (e'.sound b d (and_right (e.test a c) (e'.test b d) h))

  pub pair_same : (p : A × B) → pair_eq e.test e'.test p p ≡ true
  pair_same (a, b) = both (e.test a a) (e'.test b b) (e.same a) (e'.same b)

  abbrev pub pair_Eq : Eq (A × B)
  pair_Eq = record { test = pair_eq e.test e'.test; sound = pair_sound; same = pair_same }
