-- ===== src/Account.antt =====
-- The accounts' shared state: the `RefCell`s with lamports and data that `AccountInfo` holds, and
-- access to a vote account's data as a `VoteState` (`VoteState::set_vote_account_state` and the
-- casts at the head of each handler, program/src/state.rs, accounting.rs, vote_processor.rs).
-- A guard is a scope: it is released when the rest of its block has run, however that ended.
pub mod Laws
pub mod Local
use alpenglow_vote.Base.{ℕ, zero, suc, Bool, true, false, length, ◌==◌, if◌then◌else◌}
use alpenglow_vote.Error.{ProgramError, account_borrow_failed}
use alpenglow_vote.Exec.{Outcome, ok, err, panic, Exec}
use alpenglow_vote.Pod.{Bytes, Pod}
use alpenglow_vote.State.{VoteState}
use alpenglow_vote.State.Ranges.{IsVoteState}
use alpenglow_vote.Platform.{Platform}

-- The flag of a `RefCell`: `shared n` stands for n + 1 readers.
pub data Borrow : Type 0 where
  free : Borrow
  shared : ℕ → Borrow
  exclusive : Borrow

pub record Cells : Type 0 where
  pub lamports : ℕ
  pub lamports_borrow : Borrow
  pub contents : Bytes
  pub contents_borrow : Borrow

abbrev pub Store : Type 0
Store = ℕ → Cells

abbrev pub put : ℕ → Cells → Store → Store
put i c st j = if i == j then c else st j

abbrev pub set_contents : ℕ → Bytes → Store → Store
set_contents i b st = put i (record (st i) { contents = b }) st

abbrev pub set_contents_borrow : ℕ → Borrow → Store → Store
set_contents_borrow i f st = put i (record (st i) { contents_borrow = f }) st

abbrev pub set_lamports : ℕ → ℕ → Store → Store
set_lamports i n st = put i (record (st i) { lamports = n }) st

abbrev pub set_lamports_borrow : ℕ → Borrow → Store → Store
set_lamports_borrow i f st = put i (record (st i) { lamports_borrow = f }) st

module _ {A : Type 0} where
  abbrev run_shared : ℕ → Borrow → (Bytes → Exec Store A) → Exec Store A
  run_shared i flag body st =
      let (r, st') = body (st i).contents (set_contents_borrow i flag st) in
      (r, set_contents_borrow i (st i).contents_borrow st')

  abbrev borrow_by : Borrow → ℕ → (Bytes → Exec Store A) → Exec Store A
  borrow_by free i body st = run_shared i (shared zero) body st
  borrow_by (shared n) i body st = run_shared i (shared (suc n)) body st
  borrow_by exclusive i body st = (panic, st)

  -- `let data = account.data.borrow(); ...`
  unfoldable pub borrow_data : ℕ → (Bytes → Exec Store A) → Exec Store A
  borrow_data i body st = borrow_by (st i).contents_borrow i body st

  abbrev update_by : Borrow → Outcome A → ℕ → (Bytes → Outcome A × Bytes) → Exec Store A
  update_by free blocked i update st =
      let (r, b) = update (st i).contents in (r, set_contents i b st)
  update_by (shared n) blocked i update st = (blocked, st)
  update_by exclusive blocked i update st = (blocked, st)

  -- A mutable borrow of the data whose block touches nothing else of the store. `blocked` is the
  -- result where the data is borrowed: `panic` of `borrow_mut`, an error of `try_borrow_mut_data`.
  unfoldable pub borrow_mut_data : Outcome A → ℕ → (Bytes → Outcome A × Bytes) → Exec Store A
  borrow_mut_data blocked i update st = update_by (st i).contents_borrow blocked i update st

  abbrev lamports_by : Borrow → ℕ → Exec Store A → Exec Store A
  lamports_by free i body st =
      let (r, st') = body (set_lamports_borrow i exclusive st) in
      (r, set_lamports_borrow i free st')
  lamports_by (shared n) i body st = (err account_borrow_failed, st)
  lamports_by exclusive i body st = (err account_borrow_failed, st)

  -- `let mut lamports = account.try_borrow_mut_lamports()?; ...`
  unfoldable pub borrow_mut_lamports : ℕ → Exec Store A → Exec Store A
  borrow_mut_lamports i body st = lamports_by (st i).lamports_borrow i body st

abbrev lamports_of : Borrow → ℕ → Outcome ℕ
lamports_of free n = ok n
lamports_of (shared _) n = ok n
lamports_of exclusive n = err account_borrow_failed

-- `account.try_lamports()`
unfoldable pub try_lamports : ℕ → Exec Store ℕ
try_lamports i st = (lamports_of (st i).lamports_borrow (st i).lamports, st)

abbrev read_by : Borrow → ℕ → Outcome ℕ
read_by free n = ok n
read_by (shared _) n = ok n
read_by exclusive n = panic

-- `account.lamports()`, which panics where the lamports are mutably borrowed
abbrev pub account_lamports : ℕ → Exec Store ℕ
account_lamports i st = (read_by (st i).lamports_borrow (st i).lamports, st)

-- `account.data_len()`, which panics where the data is mutably borrowed
abbrev pub account_data_len : ℕ → Exec Store ℕ
account_data_len i st = (read_by (st i).contents_borrow (length (st i).contents), st)

module _ (P : Platform) where
  open P use {pod_vote_state}

  -- `bytemuck::from_bytes_mut::<VoteState>` (which panics) or `pod_from_bytes_mut::<VoteState>`
  -- (which fails) and a block over the `&mut VoteState`.
  unfoldable pub cast_mut : {A : Type 0} → Outcome A → Exec VoteState A → Bytes → Outcome A × Bytes
  cast_mut mismatch body b =
      let (r, s) = body (pod_vote_state.from_bytes b) in
      if length b == pod_vote_state.size then (r, pod_vote_state.bytes_of s) else (mismatch, b)

  -- `bytemuck::from_bytes::<VoteState>`
  unfoldable pub cast : Bytes → Outcome VoteState
  cast b = if length b == pod_vote_state.size then ok (pod_vote_state.from_bytes b) else panic

  -- `copy_from_slice` panics where the lengths differ.
  unfoldable pub set_vote_account_state : ℕ → VoteState → Exec Store (Unit {0})
  unfolding borrow_mut_data
  set_vote_account_state i s = borrow_mut_data (err account_borrow_failed) i λ b.
      if length b == pod_vote_state.size then (ok tt, pod_vote_state.bytes_of s) else (panic, b)
