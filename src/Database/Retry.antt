-- ===== src/Database/Retry.antt =====
-- What `execute` of src/db.cpp tries, and what it then gives.
use simurga.Base.{
  ℕ, zero, suc, ◌+◌, ◌<◌, ◌≡◌, refl, List, [], ◌∷◌, ◌++◌, Bytes, arith, Exception, Result, ok,
  raise, std_exception, false, Bool-cases, inl, inr, ◌==◌, ==_iff,
}
use simurga.Database.{
  Attempt, gives, sql_error, throws, Tried, execute, DbEvent, statement, reconnect, Run, first,
  round, after_reconnect,
}

module _ {R : Type 0} (attempt : ℕ → Tried R) (reconnecting : ℕ → Result (Unit {0})) where
  -- The statement of round `i` fails with an SQL error, and the reconnection behind it works.
  abbrev pub FailsAt : ℕ → Type 0
  FailsAt i = ((msg : Bytes) × ((attempt i).outcome ≡ sql_error msg)) × (reconnecting i ≡ ok tt)

  -- So do all rounds before round `n`.
  abbrev pub FailsBefore : ℕ → Type 0
  FailsBefore n = (i : ℕ) → i < n → FailsAt i

  -- The events of `n` failed rounds from round `i` on.
  abbrev pub failed_rounds : ℕ → ℕ → List DbEvent
  failed_rounds zero i = []
  failed_rounds (suc n) i = statement i ∷ reconnect i ∷ failed_rounds n (i + 1)

  -- What the container holds after the tries before round `n`.
  abbrev pub held : List R → ℕ → List R
  held results zero = results
  held results (suc n) = held results n ++ (attempt n).added

  -- The first statement that works decides, if it is one of the first three and each statement before
  -- it fails with an SQL error and is followed by a reconnection that works; these are all that
  -- happens. The container then holds what it held before, and behind that the rows of all these tries,
  -- also those that a failed try has added.
  pub execute-first :
      (results : List R) (n : ℕ)
      → n < 3
      → FailsBefore n
      → (attempt n).outcome ≡ gives tt
      → execute attempt reconnecting results
        ≡ (ok (held results (suc n)), failed_rounds n 0 ++ statement n ∷ [])
  unfolding execute
  execute-first results zero h f e = rw e
  execute-first results (suc zero) h f e =
      let ((msg, e₀), r₀) = f 0 (omega arith) in rw (e₀, r₀) (rw e)
  execute-first results (suc (suc zero)) h f e =
      let ((msg, e₀), r₀) = f 0 (omega arith) in
      let ((msg', e₁), r₁) = f 1 (omega arith) in rw (e₀, r₀) (rw (e₁, r₁) (rw e))
  execute-first results (suc (suc (suc n))) h f e = absurd (omega arith)

  -- The ends of `execute`, each with the round `n` that it happens in.
  pub data Ran (results : List R) : Run (List R) → Type 0 where
    worked :
        (n : ℕ)
        → n < 3
        → FailsBefore n
        → (attempt n).outcome ≡ gives tt
        → Ran results (ok (held results (suc n)), failed_rounds n 0 ++ statement n ∷ [])
    given_up :
        (msg : Bytes)
        → FailsBefore 2
        → (attempt 2).outcome ≡ sql_error msg
        → Ran results (raise (std_exception msg), failed_rounds 2 0 ++ statement 2 ∷ [])
    not_reconnected :
        (n : ℕ) (msg : Bytes) (e : Exception)
        → n < 2
        → FailsBefore n
        → (attempt n).outcome ≡ sql_error msg
        → reconnecting n ≡ raise e
        → Ran results (raise e, failed_rounds n 0 ++ statement n ∷ reconnect n ∷ [])
    left :
        (n : ℕ) (e : Exception)
        → n < 3
        → FailsBefore n
        → (attempt n).outcome ≡ throws e
        → Ran results (raise e, failed_rounds n 0 ++ statement n ∷ [])

  FailsBefore-suc : (n : ℕ) → FailsBefore n → FailsAt n → FailsBefore (suc n)
  FailsBefore-suc n f g i h = elim (Bool-cases (i == n)) [
    | inl e ↦ rw ((==_iff i n).0 e) g
    | inr e ↦ f i (ground (arith, e, h))
  ]

  -- A run behind `n` failed rounds.
  abbrev behind : ℕ → Run (List R) → Run (List R)
  behind n (r, es) = (r, failed_rounds n 0 ++ es)

  module _ (results : List R) where
    -- A round that is not the last, with the rounds after it.
    round-Ran :
        (n : ℕ) (next : Run (List R))
        → n < 2
        → (n == 2) ≡ false
        → FailsBefore n
        → (FailsBefore (suc n)
            → Ran results (behind n (first (statement n) (first (reconnect n) next))))
        → (a : Attempt (Unit {0})) → (attempt n).outcome ≡ a
        → Ran results (
            behind n
              (first (statement n) (round attempt reconnecting n (held results (suc n)) a next)))
    round-Ran n next h ne f k (gives u) e = worked n (omega arith) f e
    round-Ran n next h ne f k (throws x) e = left n x (omega arith) f e
    round-Ran n next h ne f k (sql_error msg) e = rw ne (by_reconnect (reconnecting n) refl)
      where
        by_reconnect :
            (c : Result (Unit {0}))
            → reconnecting n ≡ c
            → Ran results (
                behind n (
                  first
                    (statement n)
                    (first (reconnect n) (after_reconnect attempt reconnecting c next))))
        by_reconnect (ok u) r = k (FailsBefore-suc n f ((msg, e), r))
        by_reconnect (raise x) r = not_reconnected n msg x h f e r

    last-Ran :
        (next : Run (List R))
        → FailsBefore 2
        → (a : Attempt (Unit {0})) → (attempt 2).outcome ≡ a
        → Ran results
            (behind 2 (first (statement 2) (round attempt reconnecting 2 (held results 3) a next)))
    last-Ran next f (gives u) e = worked 2 (omega arith) f e
    last-Ran next f (throws x) e = left 2 x (omega arith) f e
    last-Ran next f (sql_error msg) e = given_up msg f e

    -- These are all ends of execute: a try works, the first, the second or the third, and the container
    -- then holds what it held before and the rows of all tries; the third try fails with an SQL error,
    -- which is thrown with no reconnection behind it; a reconnection behind the first or the second try
    -- throws; or a try throws another exception, which is not tried again. All tries before have failed
    -- with SQL errors and were followed by reconnections that work, and nothing else happens.
    pub execute-Ran : Ran results (execute attempt reconnecting results)
    unfolding execute
    execute-Ran =
        round-Ran 0 _ (omega arith) refl (λ i h. absurd (omega arith))
          (λ f. round-Ran 1 _ (omega arith) refl f (λ g. last-Ran _ g _ refl) _ refl) _ refl
