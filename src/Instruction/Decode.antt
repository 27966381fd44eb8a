-- ===== src/Instruction/Decode.antt =====
-- The decoders of program/src/instruction.rs: ranges of what they return, and panics.
use alpenglow_vote.Base.{ℕ, ◌+◌, ◌-◌, ◌≡◌, arith, length, take, drop, ◌≢◌, [], ◌∷◌}
use mathlib.Core.Path.{subst}
use alpenglow_vote.Exec.{ok, panic}
use alpenglow_vote.Pod.{Bytes, AreBytes, Pod}
use alpenglow_vote.Platform.{Platform}
use alpenglow_vote.Instruction.{
  decode_instruction_type, decode_instruction_data, decode_instruction_data_with_seed,
}
use alpenglow_vote.Spec.Ranges.{AreBytes-take, AreBytes-drop}

cut-AreBytes : (n m : ℕ) (b : Bytes) → AreBytes b → AreBytes (take n (drop m b))
cut-AreBytes n m b h = AreBytes-take n (drop m b) (AreBytes-drop m b h)

pub decode_instruction_type-ne-panic : (b : Bytes) → decode_instruction_type b ≢ panic
unfolding decode_instruction_type
decode_instruction_type-ne-panic [] = ground arith
decode_instruction_type-ne-panic (b ∷ rest) = ground arith

module _ (P : Platform) {T : Type 0} {V : T → Type 0} (pod : Pod T V) where
  -- `t` was read from bytes of its size.
  abbrev IsRead : T → Type 0
  IsRead t = (c : Bytes) × AreBytes c × (length c ≡ pod.size) × (pod.from_bytes c ≡ t)

  IsRead-range : {t : T} → IsRead t → V t
  IsRead-range (c, h, e, read) = subst V read (pod.range_law c h e)

  decode_instruction_data-IsRead :
      (b : Bytes) (t : T) → AreBytes b → decode_instruction_data P pod b ≡ ok t → IsRead t
  unfolding decode_instruction_data
  decode_instruction_data-IsRead b t h e = (
    take (length b - 1) (drop 1 b),
    cut-AreBytes (length b - 1) 1 b h,
    ground arith,
    ground arith,
  )

  decode_instruction_data_with_seed-IsRead :
      (b seed : Bytes) (t : T)
      → AreBytes b
      → decode_instruction_data_with_seed P pod b ≡ ok (t, seed)
      → IsRead t
  unfolding decode_instruction_data_with_seed
  decode_instruction_data_with_seed-IsRead b seed t h e =
      let size = pod.size + 1 - 1 in
      (take size (drop 1 b), cut-AreBytes size 1 b h, ground arith, ground arith)

  pub decode_instruction_data-range :
      (b : Bytes) (t : T) → AreBytes b → decode_instruction_data P pod b ≡ ok t → V t
  decode_instruction_data-range b t h e = IsRead-range (decode_instruction_data-IsRead b t h e)

  pub decode_instruction_data_with_seed-range :
      (b seed : Bytes) (t : T)
      → AreBytes b
      → decode_instruction_data_with_seed P pod b ≡ ok (t, seed)
      → V t
  decode_instruction_data_with_seed-range b seed t h e =
      IsRead-range (decode_instruction_data_with_seed-IsRead b seed t h e)

  -- The length test keeps the slicing in range.
  pub decode_instruction_data-ne-panic : (b : Bytes) → decode_instruction_data P pod b ≢ panic
  unfolding decode_instruction_data
  decode_instruction_data-ne-panic b = ground arith

  pub decode_instruction_data_with_seed-ne-panic :
      ((c : Bytes) → P.unpack_seed c ≢ panic)
      → (b : Bytes) → decode_instruction_data_with_seed P pod b ≢ panic
  unfolding decode_instruction_data_with_seed
  decode_instruction_data_with_seed-ne-panic calm b = ground (
    arith,
    calm (drop (pod.size + 1) b),
    calm (take (length b - (pod.size + 1)) (drop (pod.size + 1) b)),
  )
