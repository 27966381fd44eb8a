-- ===== src/Examples/Codecs.antt =====
-- Codecs that meet the laws of Pod: little-endian numbers, structs in field order, and options
-- behind a tag byte. With them a concrete platform is built, on which the program runs.
use alpenglow_vote.Base.{
  ℕ, zero, suc, ◌+◌, ◌*◌, ◌/◌, ◌%◌, ◌^◌, ◌≤◌, ◌<◌, ◌≡◌, refl, sym, ap, ◌∙◌, ◌++◌, arith, [], ◌∷◌,
  Option, none, some, length, take, drop, length-append, take-append_of_eq, drop-append_of_eq, ◌==◌,
  if◌then◌else◌, List, inl, inr, Bool-cases,
}
use native.Mathlib.Nat.{pow-suc}
use alpenglow_vote.Pod.{Bytes, AreBytes, Pod}
use alpenglow_vote.Spec.Ranges.{AreBytes-take, AreBytes-drop}

unfoldable pub to_le : ℕ → ℕ → Bytes
to_le zero v = []
to_le (suc w) v = v % 256 ∷ to_le w (v / 256)

unfoldable pub from_le : Bytes → ℕ
from_le [] = 0
from_le (b ∷ bs) = b + 256 * from_le bs

pub length-to_le : (w v : ℕ) → length (to_le w v) ≡ w
unfolding to_le
length-to_le zero v = refl
length-to_le (suc w) v = ap suc (length-to_le w (v / 256))

pub to_le-AreBytes : (w v : ℕ) → AreBytes (to_le w v)
unfolding to_le
to_le-AreBytes zero v = tt
to_le-AreBytes (suc w) v = (omega arith, to_le-AreBytes w (v / 256))

pub from_le-to_le : (w v : ℕ) → v < 256 ^ w → from_le (to_le w v) ≡ v
unfolding to_le from_le
from_le-to_le zero v h = omega arith
from_le-to_le (suc w) v h =
    let e : 256 ^ suc w ≡ 256 ^ w * 256 = pow-suc 256 w in
    omega (arith, from_le-to_le w (v / 256) (omega (arith, e)))

pub from_le-lt : (w : ℕ) (b : Bytes) → AreBytes b → length b ≡ w → from_le b < 256 ^ w
unfolding from_le
from_le-lt zero [] h e = omega arith
from_le-lt zero (x ∷ b) h e = absurd (omega arith)
from_le-lt (suc w) [] h e = absurd (omega arith)
from_le-lt (suc w) (x ∷ b) (hx, h) e = omega (arith, pow-suc 256 w, from_le-lt w b h (omega arith))

-- A number of `w` bytes.
unfoldable pub pod_le : (w : ℕ) → Pod ℕ (λ v. v < 256 ^ w)
pod_le w = record {
  size = w;
  bytes_of = to_le w;
  from_bytes = from_le;
  length_law = length-to_le w;
  bytes_law = to_le-AreBytes w;
  cast_law = from_le-to_le w;
  range_law = from_le-lt w;
}

length-take_le {ℓ} : {A : Type ℓ} (n : ℕ) (xs : List A) → n ≤ length xs → length (take n xs) ≡ n
length-take_le zero xs h = refl
length-take_le (suc n) [] h = absurd (omega arith)
length-take_le (suc n) (x ∷ xs) h = ap suc (length-take_le n xs (omega arith))

length-drop_of_eq {ℓ} :
    {A : Type ℓ} (n m : ℕ) (xs : List A) → length xs ≡ n + m → length (drop n xs) ≡ m
length-drop_of_eq zero m xs h = omega arith
length-drop_of_eq (suc n) m [] h = absurd (omega arith)
length-drop_of_eq (suc n) m (x ∷ xs) h = length-drop_of_eq n m xs (omega arith)

pub AreBytes-append : (xs ys : Bytes) → AreBytes xs → AreBytes ys → AreBytes (xs ++ ys)
AreBytes-append [] ys hx hy = hy
AreBytes-append (x ∷ xs) ys (h, hx) hy = (h, AreBytes-append xs ys hx hy)

module _ {A B : Type 0} {V : A → Type 0} {W : B → Type 0} (p : Pod A V) (q : Pod B W) where
  abbrev pair_bytes : A × B → Bytes
  pair_bytes (a, b) = p.bytes_of a ++ q.bytes_of b

  abbrev pair_value : Bytes → A × B
  pair_value bs = (p.from_bytes (take p.size bs), q.from_bytes (drop p.size bs))

  abbrev AreValues : A × B → Type 0
  AreValues (a, b) = V a × W b

  pub pair-length : (x : A × B) → length (pair_bytes x) ≡ p.size + q.size
  pair-length (a, b) =
      omega (arith, length-append (p.bytes_of a) (q.bytes_of b), p.length_law a, q.length_law b)

  pub pair-cast : (x : A × B) → AreValues x → pair_value (pair_bytes x) ≡ x
  pair-cast (a, b) (ha, hb) = rw (
    take-append_of_eq p.size (p.bytes_of a) (q.bytes_of b) (sym (p.length_law a)),
    drop-append_of_eq p.size (p.bytes_of a) (q.bytes_of b) (sym (p.length_law a)),
    p.cast_law a ha,
    q.cast_law b hb,
  )

  pub pair-range :
      (bs : Bytes) → AreBytes bs → length bs ≡ p.size + q.size → AreValues (pair_value bs)
  pair-range bs h e = (
    p.range_law (take p.size bs) (AreBytes-take p.size bs h)
        (length-take_le p.size bs (omega arith)),
    q.range_law (drop p.size bs) (AreBytes-drop p.size bs h) (length-drop_of_eq p.size q.size bs e),
  )

  -- Two fields, one after the other.
  unfoldable pub pod_pair : Pod (A × B) AreValues
  pod_pair = record {
    size = p.size + q.size;
    bytes_of = pair_bytes;
    from_bytes = pair_value;
    length_law = pair-length;
    bytes_law =
        λ (a, b). AreBytes-append (p.bytes_of a) (q.bytes_of b) (p.bytes_law a) (q.bytes_law b);
    cast_law = pair-cast;
    range_law = pair-range;
  }

-- A type whose values are written as those of another.
module _ {A B : Type 0} {V : A → Type 0} (W : B → Type 0) (p : Pod A V) (to : B → A) (from : A → B)
    (back : (b : B) → from (to b) ≡ b) (down : (b : B) → W b → V (to b))
    (up : (a : A) → V a → W (from a)) where
  pub as-cast : (b : B) → W b → from (p.from_bytes (p.bytes_of (to b))) ≡ b
  as-cast b h = ap from (p.cast_law (to b) (down b h)) ∙ back b

  unfoldable pub pod_as : Pod B W
  pod_as = record {
    size = p.size;
    bytes_of = λ b. p.bytes_of (to b);
    from_bytes = λ bs. from (p.from_bytes bs);
    length_law = λ b. p.length_law (to b);
    bytes_law = λ b. p.bytes_law (to b);
    cast_law = as-cast;
    range_law = λ bs h e. up (p.from_bytes bs) (p.range_law bs h e);
  }

-- An option behind a tag byte; `none` is padded with the bytes of some value.
module _ {A : Type 0} {V : A → Type 0} (p : Pod A V) (filler : A) where
  abbrev pub AreOption : Option A → Type 0
  AreOption none = Unit {0}
  AreOption (some a) = V a

  abbrev option_bytes : Option A → Bytes
  option_bytes none = 0 ∷ p.bytes_of filler
  option_bytes (some a) = 1 ∷ p.bytes_of a

  abbrev option_value : Bytes → Option A
  option_value [] = none
  option_value (tag ∷ bs) = if tag == 0 then none else some (p.from_bytes bs)

  pub option-length : (o : Option A) → length (option_bytes o) ≡ suc p.size
  option-length none = ap suc (p.length_law filler)
  option-length (some a) = ap suc (p.length_law a)

  pub option-AreBytes : (o : Option A) → AreBytes (option_bytes o)
  option-AreBytes none = (omega arith, p.bytes_law filler)
  option-AreBytes (some a) = (omega arith, p.bytes_law a)

  pub option-cast : (o : Option A) → AreOption o → option_value (option_bytes o) ≡ o
  option-cast none h = refl
  option-cast (some a) h = ap some (p.cast_law a h)

  pub option-range :
      (bs : Bytes) → AreBytes bs → length bs ≡ suc p.size → AreOption (option_value bs)
  option-range [] h e = tt
  option-range (tag ∷ bs) (_, h) e = elim (Bool-cases (tag == 0)) [
    | inl zero_tag ↦ rw zero_tag tt
    | inr other ↦ rw other (p.range_law bs h (omega arith))
  ]

  unfoldable pub pod_option : Pod (Option A) AreOption
  pod_option = record {
    size = suc p.size;
    bytes_of = option_bytes;
    from_bytes = option_value;
    length_law = option-length;
    bytes_law = option-AreBytes;
    cast_law = option-cast;
    range_law = option-range;
  }
