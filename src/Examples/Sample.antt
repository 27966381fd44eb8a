-- ===== src/Examples/Sample.antt =====
-- A concrete platform: every parameter of the model instantiated by a function that runs.
use alpenglow_vote.Base.{
  ◌+◌, ◌^◌, ◌<◌, ◌≡◌, refl, ◌++◌, ◌∷◌, [], arith, true, false, Option, some, none, List, length,
  drop, if◌then◌else◌, drop-append_of_eq, sym, ap, ◌%◌,
}
use alpenglow_vote.Error.{invalid_argument, other}
use alpenglow_vote.Exec.{Outcome, ok, err}
use alpenglow_vote.Pod.{Bytes}
use alpenglow_vote.Records.{Pubkey}
use alpenglow_vote.Platform.{Platform, AccountInfo}
use alpenglow_vote.Examples.Codecs.{pod_le, to_le, length-to_le}
use alpenglow_vote.Examples.Layouts.{
  bls_bound, pod_initialize, pod_authorize, pod_with_seed, pod_checked_with_seed, pod_notarization,
  pod_vote_state,
}

abbrev pub first : List AccountInfo → Outcome (AccountInfo × List AccountInfo)
first [] = err (other 0)
first (a ∷ rest) = ok (a, rest)

abbrev pub key_of : AccountInfo → Option Pubkey
key_of a = if a.is_signer then some a.key else none

pub key_of-signer : (a : AccountInfo) → a.is_signer ≡ true → key_of a ≡ some a.key
key_of-signer a h = ground arith

pub key_of-other : (a : AccountInfo) → a.is_signer ≡ false → key_of a ≡ none
key_of-other a h = ground arith

-- what follows four bytes of length
abbrev pub unpack : Bytes → Outcome Bytes
unpack b = ok (drop 4 b)

pub unpack_lem :
    (seed : Bytes) → length seed < 2 ^ 32 → unpack (to_le 4 (length seed) ++ seed) ≡ ok seed
unpack_lem seed h =
    ap ok (drop-append_of_eq 4 (to_le 4 (length seed)) seed (sym (length-to_le 4 (length seed))))

unfoldable pub sample : Platform
unfolding pod_le pod_vote_state pod_initialize pod_authorize pod_with_seed pod_checked_with_seed
    pod_notarization to_le
sample = record {
  bls_pubkey_bound = bls_bound;
  pod_u8 = pod_le 1;
  pod_u64 = pod_le 8;
  pod_vote_state = pod_vote_state;
  pod_initialize = pod_initialize;
  pod_authorize = pod_authorize;
  pod_with_seed = pod_with_seed;
  pod_checked_with_seed = pod_checked_with_seed;
  pod_notarization = pod_notarization;
  pod_cast_error = invalid_argument;
  seed_length_bytes = to_le 4;
  unpack_seed = unpack;
  unpack_law = unpack_lem;
  is_utf8 = λ b. true;
  create_with_seed = λ base seed owner. ok (2 ^ 255 + (base + owner + length seed) % 2 ^ 255);
  next_account_info = first;
  next_law = λ a rest. refl;
  no_account = other 0;
  no_account_law = refl;
  signer_key = key_of;
  signer_law = key_of-signer;
  not_signer_law = key_of-other;
  id = 77;
}

pub u64_size : sample.pod_u64.size < 18446744073709551615
unfolding sample pod_le
u64_size = omega arith
