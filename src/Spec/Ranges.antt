-- ===== src/Spec/Ranges.antt =====
-- The ranges of what an instruction brings along, and of what the handlers of
-- program/src/accounting.rs and vote_processor.rs make of it.
use alpenglow_vote.Base.{ℕ, zero, suc, ◌≡◌, List, [], ◌∷◌, arith, take, drop, All}
use alpenglow_vote.Word.{IsU64}
use alpenglow_vote.Exec.{ok}
use alpenglow_vote.Pod.{Bytes, AreBytes}
use alpenglow_vote.Records.{Epoch, IsBytes32}
use alpenglow_vote.InstructionData.{InitializeAccountInstructionData, IsInitializeData}
use alpenglow_vote.State.{VoteState, new}
use alpenglow_vote.State.Ranges.{IsVoteState}
use alpenglow_vote.Platform.{AccountInfo, Sysvars, Clock}
use alpenglow_vote.VoteProcessor.{earn}
use alpenglow_vote.VoteProcessor.Credits.{earn-IsInRange}

-- The runtime passes bytes, 32-byte keys and a clock of u64s.
pub record IsInput (sysvars : Sysvars) (accounts : List AccountInfo) (input : Bytes) : Type 0 where
  pub bytes : AreBytes input
  pub keys : All (λ a. IsBytes32 a.key) accounts
  pub clock_u64 : (clock : Clock) → sysvars.clock ≡ ok clock → IsU64 clock.epoch

pub AreBytes-take : (n : ℕ) (b : Bytes) → AreBytes b → AreBytes (take n b)
AreBytes-take zero b h = tt
AreBytes-take (suc n) [] h = tt
AreBytes-take (suc n) (x ∷ b) (hx, h) = (hx, AreBytes-take n b h)

pub AreBytes-drop : (n : ℕ) (b : Bytes) → AreBytes b → AreBytes (drop n b)
AreBytes-drop zero b h = h
AreBytes-drop (suc n) [] h = tt
AreBytes-drop (suc n) (x ∷ b) (hx, h) = AreBytes-drop n b h

module _ (n : ℕ) where
  pub new-IsVoteState :
      (d : InitializeAccountInstructionData) (epoch : Epoch)
      → IsInitializeData n d
      → IsU64 epoch
      → IsVoteState n (new d epoch)
  unfolding new
  new-IsVoteState d epoch h he = ground arith

  pub earn-IsVoteState :
      (epoch m : ℕ) (s : VoteState)
      → IsU64 epoch
      → IsVoteState n s
      → IsVoteState n (record s { epoch_credits = earn epoch m s.epoch_credits })
  earn-IsVoteState epoch m s he h =
      ground (arith, earn-IsInRange epoch m s.epoch_credits he h.credits_range)
