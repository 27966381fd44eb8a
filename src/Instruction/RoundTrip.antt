-- ===== src/Instruction/RoundTrip.antt =====
-- Decoding what the encoders of program/src/instruction.rs write.
use alpenglow_vote.Base.{
  ℕ, suc, ◌+◌, ◌-◌, ◌<◌, ◌^◌, ◌≡◌, refl, sym, ap, ◌∙◌, ◌++◌, arith, List, ◌∷◌, some, length, drop,
  length-append, take-length, take-append_of_eq, drop-append_of_eq,
}
use mathlib.Core.List.{append-nil}
use native.Mathlib.Nat.{mod-eq_of_lt}
use native.Mathlib.Numerals.{add-one}
use alpenglow_vote.Word.{u64_max}
use alpenglow_vote.Exec.{ok}
use alpenglow_vote.Pod.{Bytes, Pod}
use alpenglow_vote.Platform.{Platform}
use alpenglow_vote.Instruction.{
  VoteInstruction, AccountMeta, to_u8, encode_instruction, encode_instruction_with_seed,
  decode_instruction_type, decode_instruction_data, decode_instruction_data_with_seed,
}
use alpenglow_vote.Instruction.Numbers.{decode_instruction_type_iff}

module _ (P : Platform) {T : Type 0} {V : T → Type 0} (pod : Pod T V) (accounts : List AccountMeta)
    (i : VoteInstruction) (d : T) where
  -- Data of at least its size is cut into the value and what follows.
  decode_instruction_data_of_bytes :
      (b : ℕ) (bytes : Bytes)
      → pod.size < u64_max
      → length bytes ≡ pod.size
      → decode_instruction_data P pod (b ∷ bytes) ≡ ok (pod.from_bytes bytes)
  unfolding decode_instruction_data
  decode_instruction_data_of_bytes b bytes hs hl = ground (
    arith,
    take-length (length bytes + 1 - 1) bytes (omega arith),
    take-length (suc (length bytes) - 1) bytes (omega arith),
  )

  -- If the value is in its range and shorter than the largest u64, an instruction's data decodes to its number and to the value it was encoded from.
  pub decode-encode :
      V d
      → pod.size < u64_max
      → let payload = (encode_instruction P pod accounts i d).payload in
        (decode_instruction_type payload ≡ ok i) × (decode_instruction_data P pod payload ≡ ok d)
  unfolding encode_instruction
  decode-encode hv hs = (
    (decode_instruction_type_iff (to_u8 i) _ i).1 refl,
    rw append-nil (
        decode_instruction_data_of_bytes (to_u8 i) (pod.bytes_of d) hs (pod.length_law d)
        ∙ ap ok (pod.cast_law d hv)),
  )

  decode_with_seed_of_bytes :
      (b : ℕ) (bytes tail seed : Bytes)
      → pod.size < u64_max
      → length bytes ≡ pod.size
      → P.unpack_seed tail ≡ ok seed
      → decode_instruction_data_with_seed P pod (b ∷ (bytes ++ tail))
        ≡ ok (pod.from_bytes bytes, seed)
  unfolding decode_instruction_data_with_seed
  decode_with_seed_of_bytes b bytes tail seed hs hl hu =
      let input : Bytes = b ∷ (bytes ++ tail) in
      let whole : length (bytes ++ tail) ≡ length bytes + length tail = length-append bytes tail in
      let behind : drop (pod.size + 1) input ≡ tail =
        rw add-one (drop-append_of_eq pod.size bytes tail (sym hl)) in
      ground (
        arith,
        whole,
        behind,
        take-append_of_eq (pod.size + 1 - 1) bytes tail (omega arith),
        take-length (length input - (pod.size + 1)) tail (omega arith),
      )

  -- With a value in its range, shorter than the largest u64, and a seed of fewer than 2 ^ 32 bytes, the data decodes to the value and the seed.
  pub decode_with_seed-encode :
      (seed : Bytes)
      → V d
      → pod.size < u64_max
      → length seed < 2 ^ 32
      → let payload = (encode_instruction_with_seed P pod accounts i d (some seed)).payload in
        (decode_instruction_type payload ≡ ok i)
        × (decode_instruction_data_with_seed P pod payload ≡ ok (d, seed))
  unfolding encode_instruction_with_seed
  decode_with_seed-encode seed hv hs hl = (
    (decode_instruction_type_iff (to_u8 i) _ i).1 refl,
    rw (mod-eq_of_lt hl) (
        decode_with_seed_of_bytes (to_u8 i) (pod.bytes_of d) _ seed hs (pod.length_law d)
          (P.unpack_law seed hl)
        ∙ ap (λ (t : T). ok (t, seed)) (pod.cast_law d hv)),
  )
