-- ===== src/Pod.antt =====
-- `bytemuck::Pod`: values that are read from and written to fixed-size byte strings. The layout is
-- the compiler's and the trait is bytemuck's, so a codec is a parameter with these laws; `V` is
-- the range of the values of the type (a u64 is a number below 2 ^ 64).
use alpenglow_vote.Base.{ℕ, ◌≡◌, List, length, All}
use alpenglow_vote.Word.{IsU8}

abbrev pub Bytes : Type 0
Bytes = List ℕ

abbrev pub AreBytes : Bytes → Type 0
AreBytes b = All IsU8 b

pub record Pod (A : Type 0) (V : A → Type 0) : Type 0 where
  pub size : ℕ
  pub bytes_of : A → Bytes
  -- read only where the length is `size`
  pub from_bytes : Bytes → A
  pub length_law : (a : A) → length (bytes_of a) ≡ size
  pub bytes_law : (a : A) → AreBytes (bytes_of a)
  pub cast_law : (a : A) → V a → from_bytes (bytes_of a) ≡ a
  pub range_law : (b : Bytes) → AreBytes b → length b ≡ size → V (from_bytes b)
