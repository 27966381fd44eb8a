-- ===== src/Processor/Chain.antt =====
-- What happens on the chain over time: calls of program/src/processor.rs, and other programs.
use alpenglow_vote.Base.{List, [], ◌∷◌}
use alpenglow_vote.Exec.{Outcome}
use alpenglow_vote.Records.{Pubkey}
use alpenglow_vote.Platform.{Platform}
use alpenglow_vote.Account.{Store}
use alpenglow_vote.Processor.{process_instruction}
use alpenglow_vote.Processor.Schedule.{Call, attempt}

pub data Event : Type 0 where
  call : Call → Event
  others : (Store → Store) → Event

module _ (P : Platform) (program_id : Pubkey) where
  -- What events leave; a call that fails is rolled back.
  unfoldable pub elapse : List Event → Store → Store
  elapse [] st = st
  elapse (call c ∷ es) st = elapse es (attempt P program_id c st).1
  elapse (others f ∷ es) st = elapse es (f st)

  -- the result of each call among the events
  unfoldable pub results : List Event → Store → List (Outcome (Unit {0}))
  results [] st = []
  results (call c ∷ es) st =
      (process_instruction P c.sysvars program_id c.accounts c.input st).0
      ∷ results es (attempt P program_id c st).1
  results (others f ∷ es) st = results es (f st)
