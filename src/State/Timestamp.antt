-- ===== src/State/Timestamp.antt =====
-- `BlockTimestamp` of program/src/state.rs, and the legacy timestamp of a vote account.
use alpenglow_vote.Base.{ℕ}
use alpenglow_vote.Records.{Slot}
use alpenglow_vote.State.{VoteState}

-- an i64; `negsuc n` is -(n + 1)
pub data ℤ : Type 0 where
  pos : ℕ → ℤ
  negsuc : ℕ → ℤ

pub record BlockTimestamp : Type 0 where
  pub slot : Slot
  pub timestamp : ℤ

abbrev pub default : BlockTimestamp
default = record { slot = 0; timestamp = pos 0 }

-- the getters of `BlockTimestamp`
abbrev block_timestamp_slot : BlockTimestamp → Slot
block_timestamp_slot ts = ts.slot

abbrev block_timestamp_timestamp : BlockTimestamp → ℤ
block_timestamp_timestamp ts = ts.timestamp

-- `solana_vote_interface`'s type of the same name
pub record LegacyBlockTimestamp : Type 0 where
  pub slot : Slot
  pub timestamp : ℤ

unfoldable pub from_block_timestamp : BlockTimestamp → LegacyBlockTimestamp
from_block_timestamp ts = record {
  slot = block_timestamp_slot ts;
  timestamp = block_timestamp_timestamp ts;
}

-- The vote account holds no timestamp.
unfoldable pub latest_timestamp_legacy_format : VoteState → LegacyBlockTimestamp
unfolding from_block_timestamp
latest_timestamp_legacy_format s = from_block_timestamp default
