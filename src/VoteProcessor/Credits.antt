-- ===== src/VoteProcessor/Credits.antt =====
-- The credit arithmetic of program/src/vote_processor.rs: `latency_to_credits` and `set_credits`.
use alpenglow_vote.Base.{
  List, [], ◌∷◌, ◌==◌, ◌^◌, ℕ, zero, suc, ◌+◌, ◌-◌, ◌*◌, ◌≤◌, ◌≡◌, refl, arith, if◌then◌else◌,
}
use alpenglow_vote.Word.{IsU64, u64_max, saturating_add}
use alpenglow_vote.Records.{Epoch}
use alpenglow_vote.Records.EpochCredit
use alpenglow_vote.Records.EpochCredit.{EpochCredit}
use alpenglow_vote.VoteProcessor.{latency_to_credits, earn}
use Prim.Native.Nat.{min, max}
use native.Mathlib.Nat.{pow-suc}

-- The credits of a vote are 18 less its latency, held between 1 and 16.
pub latency_to_credits_closed :
    (latency : ℕ) → latency_to_credits latency ≡ max 1 (min 16 (18 - latency))
unfolding latency_to_credits
latency_to_credits_closed latency = ground arith

pub latency_to_credits_bounds :
    (latency : ℕ) → (1 ≤ latency_to_credits latency) × (latency_to_credits latency ≤ 16)
unfolding latency_to_credits
latency_to_credits_bounds latency = ground arith

-- A later vote never earns more.
pub latency_to_credits_antitone : (a b : ℕ) → a ≤ b → latency_to_credits b ≤ latency_to_credits a
unfolding latency_to_credits
latency_to_credits_antitone a b h = ground arith

-- What the recorded credits mean, as long as nothing saturates: the difference of the two counters
-- is what was earned in the recorded epoch.
pub record IsTally (earned : ℕ) (c : EpochCredit) : Type 0 where
  pub difference : c.credits ≡ c.prev_credits + earned

-- If the clock's epoch and the three counters are u64s, so are the counters after `earn`, however
-- much is earned.
pub earn-IsInRange :
    (epoch n : ℕ) (c : EpochCredit)
    → IsU64 epoch
    → EpochCredit.IsInRange c
    → EpochCredit.IsInRange (earn epoch n c)
unfolding earn saturating_add
earn-IsInRange epoch n c he h = ground arith

-- A run of votes, each with the epoch of its clock and what it earns.
abbrev pub earn_all : List (Epoch × ℕ) → EpochCredit → EpochCredit
earn_all [] c = c
earn_all ((epoch, n) ∷ votes) c = earn_all votes (earn epoch n c)

-- What a vote adds up: to the credits, at a change of the epoch with the previous ones.
abbrev pub sum_of : Epoch → ℕ → EpochCredit → ℕ
sum_of epoch n c = if epoch == c.epoch then c.credits + n else c.prev_credits + c.credits + n

-- Nothing saturates on the way.
abbrev pub Fits : List (Epoch × ℕ) → EpochCredit → Type 0
Fits [] c = Unit {0}
Fits ((epoch, n) ∷ votes) c = (sum_of epoch n c ≤ u64_max) × Fits votes (earn epoch n c)

-- What was earned since the epoch last changed: `earned` in the epoch `current`, then `votes`.
abbrev pub tally : Epoch → ℕ → List (Epoch × ℕ) → ℕ
tally current earned [] = earned
tally current earned ((epoch, n) ∷ votes) =
    tally epoch (if epoch == current then earned + n else n) votes

earn-epoch : (epoch n : ℕ) (c : EpochCredit) → (earn epoch n c).epoch ≡ epoch
unfolding earn
earn-epoch epoch n c = ground arith

earn-IsTally :
    (epoch n earned : ℕ) (c : EpochCredit)
    → sum_of epoch n c ≤ u64_max
    → IsTally earned c
    → IsTally (if epoch == c.epoch then earned + n else n) (earn epoch n c)
unfolding earn saturating_add
earn-IsTally epoch n earned c fits t = ground arith

earn_all-IsTally_from :
    (votes : List (Epoch × ℕ)) (current earned : ℕ) (c : EpochCredit)
    → c.epoch ≡ current
    → Fits votes c
    → IsTally earned c
    → IsTally (tally current earned votes) (earn_all votes c)
earn_all-IsTally_from [] current earned c e fits t = t
earn_all-IsTally_from ((epoch, n) ∷ votes) current earned c e (fits, rest) t =
    earn_all-IsTally_from votes epoch _ (earn epoch n c) (earn-epoch epoch n c) rest
      (rw (← e) (earn-IsTally epoch n earned c fits t))

-- After any run of votes in which no sum saturates, `credits` exceeds `prev_credits` by exactly what
-- was earned since the recorded epoch began, if it did so before the run.
pub earn_all-IsTally :
    (votes : List (Epoch × ℕ)) (earned : ℕ) (c : EpochCredit)
    → Fits votes c
    → IsTally earned c
    → IsTally (tally c.epoch earned votes) (earn_all votes c)
earn_all-IsTally votes earned c = earn_all-IsTally_from votes c.epoch earned c refl

-- The credits of a validator that earns `n` in each of the epochs 1 to `k`, and nothing before.
unfoldable pub one_vote_an_epoch : ℕ → ℕ → EpochCredit
one_vote_an_epoch n zero = EpochCredit.default
one_vote_an_epoch n (suc k) = earn (suc k) n (one_vote_an_epoch n k)

earn_after :
    (epoch n m : ℕ) (c : EpochCredit)
    → c.epoch ≡ epoch
    → c.credits ≡ m
    → c.prev_credits + n ≡ m
    → m * 2 ≤ u64_max
    → let c' = earn (suc epoch) n c in
      (c'.epoch ≡ suc epoch) × (c'.credits ≡ m * 2) × (c'.prev_credits + n ≡ m * 2)
unfolding earn saturating_add
earn_after epoch n m c he hc hp fits = ground arith

-- At each change of the epoch both counters are added up, though `credits` already contains
-- `prev_credits`: a validator that earns `n` in each of k + 1 epochs has n * 2 ^ k credits, as
-- long as that fits a u64.
pub credits_double :
    (n k : ℕ)
    → n * 2 ^ k ≤ u64_max
    → let c = one_vote_an_epoch n (suc k) in
      (c.epoch ≡ suc k) × (c.credits ≡ n * 2 ^ k) × (c.prev_credits + n ≡ n * 2 ^ k)
unfolding one_vote_an_epoch
credits_double n zero h = unfold earn saturating_add in ground arith
credits_double n (suc k) h =
    let twice : n * 2 ^ suc k ≡ n * 2 ^ k * 2 = rw pow-suc (omega arith) in
    let (he, hc, hp) = credits_double n k (omega (arith, twice)) in
    rw twice (
      earn_after (suc k) n (n * 2 ^ k) (one_vote_an_epoch n (suc k)) he hc hp
        (omega (arith, twice)))
