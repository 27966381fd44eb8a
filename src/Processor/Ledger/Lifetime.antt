-- ===== src/Processor/Ledger/Lifetime.antt =====
-- The authorized voter and the credits of a vote account over any events: calls of
-- program/src/processor.rs and program/src/vote_processor.rs, and what other programs do in between.
use alpenglow_vote.Base.{ℕ, ◌<◌, ◌≤◌, ◌≡◌, ◌∷◌, refl, arith, ◌∙◌, List, All}
use alpenglow_vote.Records.{Pubkey}
use alpenglow_vote.State.{VoteState}
use alpenglow_vote.Word.{u64_max}
use alpenglow_vote.Platform.{Platform}
use alpenglow_vote.Account.{Store}
use alpenglow_vote.Account.Laws.{Holds}
use alpenglow_vote.Spec.Growth.{IsGrown, History-IsGrown}
use alpenglow_vote.Spec.History.{History, SameFixed, IsLater, History-SameFixed, History-IsLater}
use alpenglow_vote.Spec.Ownership.{Permitted-credits}
use alpenglow_vote.Processor.Chain.{Event, elapse}
use alpenglow_vote.Processor.Custody.{IsUnauthorized, AnyChange}
use alpenglow_vote.Processor.Ledger.{IsLedger, IsFair}
use alpenglow_vote.Processor.Ledger.Events.{OnEvent}
use alpenglow_vote.Processor.Ledger.Guarantees.{elapse-History, elapse_keeps}
use alpenglow_vote.Processor.Trace.{HoldsSome, HoldsSome-map, IsClosed}

-- The authorized voter, the version and the BLS key as in `s`, and its credits.
record IsUnpaid (P : Platform) (s t : VoteState) : Type 0 where
  pub history : History P s t
  pub same_credits : t.epoch_credits ≡ s.epoch_credits

IsUnpaid-IsClosed :
    (P : Platform) (i : ℕ) (s : VoteState)
    → 0 < s.version
    → IsClosed P i (IsUnauthorized P i s.authorized_voter.voter) (IsUnpaid P s)
IsUnpaid-IsClosed P i s live sysvars account iter a t own unsigned before permitted =
    let fixed = History-SameFixed P live before.history in
    record {
      history = History.next sysvars (account ∷ iter) before.history permitted;
      same_credits =
          Permitted-credits P (omega (arith, fixed.version))
            (rw fixed.authorized_voter (unsigned own)) permitted
          ∙ before.same_credits;
    }

module _ (P : Platform) (program_id : Pubkey) (C : ℕ → Type 0) (es : List Event) (st : Store)
    (l : IsLedger P program_id C st) (fair : All (IsFair P program_id C) es) (i : ℕ) (s : VoteState)
    (ours : C i) (h : Holds P i s st) where
  -- What holds after any history of permitted steps holds after any events.
  after-History :
      (R : VoteState → Type 0)
      → ((t : VoteState) → History P s t → R t)
      → HoldsSome P i R (elapse P program_id es st)
  after-History R f =
      HoldsSome-map P i (History P s) R (elapse P program_id es st) f
        (elapse-History P program_id C es st l fair i s ours h)

  -- Let nothing be borrowed and every account that the program owns hold a vote state. However many
  -- calls follow, with any accounts and any input in range, each rolled back where it fails, and
  -- whatever the runtime lets other programs do in between: an account that was initialized has the
  -- authorized voter, the version and the BLS key that it had, also when the epoch of the next
  -- authorized voter has come.
  pub authorized_voter_fixed :
      0 < s.version → HoldsSome P i (SameFixed P s) (elapse P program_id es st)
  authorized_voter_fixed live =
      after-History (SameFixed P s) (λ t past. History-SameFixed P live past)

  -- Let nothing be borrowed and every account that the program owns hold a vote state. However many
  -- calls follow, with any accounts and any input in range, each rolled back where it fails, and
  -- whatever the runtime lets other programs do in between: an account that started with no next
  -- authorized voter, or one with an epoch above 0, has none or one with an epoch above 0.
  pub next_voter-IsLater :
      IsLater P s.next_authorized_voter
      → HoldsSome P i (λ t. IsLater P t.next_authorized_voter) (elapse P program_id es st)
  next_voter-IsLater later =
      after-History (λ t. IsLater P t.next_authorized_voter)
        (λ t past. History-IsLater P later past)

  -- Let nothing be borrowed and every account that the program owns hold a vote state. However many
  -- calls follow, with any accounts and any input in range, each rolled back where it fails, and
  -- whatever the runtime lets other programs do in between: if an account was initialized, with its
  -- previous credits at most its credits, and these a u64, then neither counter has fallen, the
  -- previous credits are at most the credits, and these a u64.
  pub credits_grow :
      0 < s.version
      → s.epoch_credits.prev_credits ≤ s.epoch_credits.credits
      → s.epoch_credits.credits ≤ u64_max
      → HoldsSome P i (λ t. IsGrown s.epoch_credits t.epoch_credits) (elapse P program_id es st)
  credits_grow live ordered fits =
      after-History (λ t. IsGrown s.epoch_credits t.epoch_credits)
        (λ t past. History-IsGrown P live ordered fits past)

  -- Let nothing be borrowed and every account that the program owns hold a vote state. However many
  -- calls follow, with any accounts and any input in range, each rolled back where it fails, and
  -- whatever the runtime lets other programs do in between: if an account was initialized, and its
  -- authorized voter signs no call on it, also not through a seed, then its credits are as before.
  pub voter_only :
      0 < s.version
      → All (OnEvent (IsUnauthorized P i s.authorized_voter.voter) AnyChange) es
      → HoldsSome P i (λ t. t.epoch_credits ≡ s.epoch_credits) (elapse P program_id es st)
  voter_only live absent =
      HoldsSome-map P i (IsUnpaid P s) (λ t. t.epoch_credits ≡ s.epoch_credits)
        (elapse P program_id es st) (λ t unpaid. unpaid.same_credits)
        (elapse_keeps P program_id C es st l fair (IsUnauthorized P i s.authorized_voter.voter) i s
          (IsUnpaid P s) ours h (record { history = History.here; same_credits = refl })
          (IsUnpaid-IsClosed P i s live) absent)
