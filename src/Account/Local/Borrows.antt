-- ===== src/Account/Local/Borrows.antt =====
-- Borrows of an account's data and lamports, as code that reads and writes only that account.
use alpenglow_vote.Base.{ℕ, zero, suc, refl, length}
use alpenglow_vote.Error.{account_borrow_failed}
use alpenglow_vote.Exec.{Outcome, err, panic, Exec, lift}
use alpenglow_vote.Pod.{Bytes}
use alpenglow_vote.Account.{
  set_contents_borrow, Store, run_shared, borrow_by, update_by, lamports_by, lamports_of, Borrow,
  free, shared, exclusive, put, borrow_data, borrow_mut_data, borrow_mut_lamports, try_lamports,
  read_by, account_lamports, account_data_len,
}
use alpenglow_vote.Account.Local.{
  IsLocal, lift-IsLocal, read-IsLocal, around-IsLocal, modify-IsLocal,
}

module _ (C : ℕ → Type 0) (i : ℕ) (own : C i) where
  pub try_lamports-IsLocal : IsLocal C (try_lamports i)
  unfolding try_lamports
  try_lamports-IsLocal =
      read-IsLocal C i own (λ c. lift (lamports_of c.lamports_borrow c.lamports))
        (λ c. lift-IsLocal C (lamports_of c.lamports_borrow c.lamports))

  pub account_lamports-IsLocal : IsLocal C (account_lamports i)
  account_lamports-IsLocal =
      read-IsLocal C i own (λ c. lift (read_by c.lamports_borrow c.lamports))
        (λ c. lift-IsLocal C (read_by c.lamports_borrow c.lamports))

  pub account_data_len-IsLocal : IsLocal C (account_data_len i)
  account_data_len-IsLocal =
      read-IsLocal C i own (λ c. lift (read_by c.contents_borrow (length c.contents)))
        (λ c. lift-IsLocal C (read_by c.contents_borrow (length c.contents)))

  module _ {A : Type 0} where
    update_by-IsLocal :
        (flag : Borrow) (blocked : Outcome A) (update : Bytes → Outcome A × Bytes)
        → IsLocal C (update_by flag blocked i update)
    update_by-IsLocal free blocked update =
        read-IsLocal C i own
          (λ c st.
            ((update c.contents).0, put i (record (st i) { contents = (update c.contents).1 }) st))
          (λ c. record {
            same_result = λ st st' h. refl;
            same_cells =
                (modify-IsLocal C i own
                  (λ d. record d { contents = (update c.contents).1 })).same_cells;
            rest =
                (modify-IsLocal C i own (λ d. record d { contents = (update c.contents).1 })).rest;
          })
    update_by-IsLocal (shared n) blocked update = lift-IsLocal C blocked
    update_by-IsLocal exclusive blocked update = lift-IsLocal C blocked

    pub borrow_mut_data-IsLocal :
        (blocked : Outcome A) (update : Bytes → Outcome A × Bytes)
        → IsLocal C (borrow_mut_data blocked i update)
    unfolding borrow_mut_data
    borrow_mut_data-IsLocal blocked update =
        read-IsLocal C i own (λ c. update_by c.contents_borrow blocked i update)
          (λ c. update_by-IsLocal c.contents_borrow blocked update)

    run_shared-IsLocal :
        (flag : Borrow) (body : Bytes → Exec Store A)
        → ((b : Bytes) → IsLocal C (body b))
        → IsLocal C (run_shared i flag body)
    run_shared-IsLocal flag body hb =
        read-IsLocal C i own
          (λ c st.
            let (r, u) = body c.contents (set_contents_borrow i flag st) in
            (r, set_contents_borrow i c.contents_borrow u))
          (λ c.
            around-IsLocal C i own (λ d. record d { contents_borrow = flag })
              (λ d. record d { contents_borrow = c.contents_borrow }) (body c.contents)
              (hb c.contents))

    borrow_by-IsLocal :
        (flag : Borrow) (body : Bytes → Exec Store A)
        → ((b : Bytes) → IsLocal C (body b))
        → IsLocal C (borrow_by flag i body)
    borrow_by-IsLocal free body hb = run_shared-IsLocal (shared zero) body hb
    borrow_by-IsLocal (shared n) body hb = run_shared-IsLocal (shared (suc n)) body hb
    borrow_by-IsLocal exclusive body hb = lift-IsLocal C panic

    pub borrow_data-IsLocal :
        (body : Bytes → Exec Store A)
        → ((b : Bytes) → IsLocal C (body b))
        → IsLocal C (borrow_data i body)
    unfolding borrow_data
    borrow_data-IsLocal body hb =
        read-IsLocal C i own (λ c. borrow_by c.contents_borrow i body)
          (λ c. borrow_by-IsLocal c.contents_borrow body hb)

    lamports_by-IsLocal :
        (flag : Borrow) (body : Exec Store A) → IsLocal C body → IsLocal C (lamports_by flag i body)
    lamports_by-IsLocal free body hb =
        around-IsLocal C i own (λ c. record c { lamports_borrow = exclusive })
          (λ c. record c { lamports_borrow = free }) body hb
    lamports_by-IsLocal (shared n) body hb = lift-IsLocal C (err account_borrow_failed)
    lamports_by-IsLocal exclusive body hb = lift-IsLocal C (err account_borrow_failed)

    pub borrow_mut_lamports-IsLocal :
        (body : Exec Store A) → IsLocal C body → IsLocal C (borrow_mut_lamports i body)
    unfolding borrow_mut_lamports
    borrow_mut_lamports-IsLocal body hb =
        read-IsLocal C i own (λ c. lamports_by c.lamports_borrow i body)
          (λ c. lamports_by-IsLocal c.lamports_borrow body hb)
