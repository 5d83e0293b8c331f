-- ===== src/Sqlite/Atomic.antt =====
-- Transactions of src/keziah/queue/sqlite.py: all of a body, or nothing.
use keziah.Base.{
  ℕ, zero, suc, ◌≡◌, ◌≢◌, ◌⊎◌, refl, sym, ap, subst, ◌∙◌, inl, inr, Bool, true, false, split_if,
}
use mathlib.Core.Bool.{true≢false}
use keziah.Memory.{Result, ok, err, Error}
use keziah.Sqlite.Rows.{Codec}
use keziah.Sqlite.{
  Db, Body, Connection, Commit, commits, locks, fails, end_tx, tx_once, tx_from, tx_on, tx,
}

module _ (C : Codec) where
  -- Each transaction on a connection raises and leaves the connection as it is.
  abbrev pub Refuses : Connection C → Type 1
  Refuses c =
      (B : Type 0) (later : Body C B) (busy : ℕ → Bool) (commit : ℕ → Commit)
      → (e : Error) × (tx_on C busy commit later c ≡ (err e, c))

  from-Refused :
      {B : Type 0} (later : Body C B) (busy : ℕ → Bool) (commit : ℕ → Commit) (left attempt : ℕ)
      (c : Connection C)
      → c.in_transaction ≡ true
      → (e : Error) × (tx_from C busy commit left attempt later c ≡ (err e, c))
  unfolding tx_from tx_once
  from-Refused later busy commit zero attempt c stuck = (Error.database_locked, refl)
  from-Refused {B} later busy commit (suc left) attempt c stuck =
      split_if P c.db.closed (λ _. (Error.queue_closed, refl))
        λ _.
          split_if P c.in_transaction (λ _. (Error.operational_error, refl))
            λ free. absurd (true≢false (sym stuck ∙ free))
    where
      P : Result B × Connection C → Type 0
      P r = (e : Error) × (r ≡ (err e, c))

module _ (C : Codec) {A : Type 0} (body : Body C A) (c : Connection C) (commit : ℕ → Commit) where
  -- The body ran to its end, but a commit failed, and the transaction stays open.
  abbrev pub Held : Connection C → Type 0
  Held t =
      (t.in_transaction ≡ true)
      × ((a : A) × (body c.db ≡ (ok a, t.db)))
      × ((n : ℕ) × (commit n ≢ commits))

  -- What a transaction may come to: refused, with the connection as it was, or held, or run.
  abbrev Came : Result A × Connection C → Type 0
  Came (err e, t) = (t ≡ c) ⊎ Held t
  Came (ok a, t) = (body c.db ≡ (ok a, t.db)) × (c.db.closed ≡ false)

  abbrev held : Db C → Connection C
  held t = record { db = t; in_transaction = true }

  end_tx-Came :
      (again : Connection C → Result A × Connection C) (n : ℕ) (k : Commit)
      → ((t : Connection C) → t.in_transaction ≡ true → (e : Error) × (again t ≡ (err e, t)))
      → commit n ≡ k
      → c.db.closed ≡ false
      → (r : Result A × Db C) → body c.db ≡ r
      → Came (elim r.0 [ err e ↦ (err e, c) | ok a ↦ end_tx C k again a (held r.1) ])
  unfolding end_tx
  end_tx-Came again n k stuck e running (err f, t) h = inl refl
  end_tx-Came again n commits stuck e running (ok a, t) h = (h, running)
  end_tx-Came again n locks stuck e running (ok a, t) h =
      let (f, same) = stuck (held t) refl in
      subst Came (sym same) (inr (refl, (a, h), (n, λ k. cc)))
  end_tx-Came again n fails stuck e running (ok a, t) h = inr (refl, (a, h), (n, λ k. cc))

  from-Came :
      (busy : ℕ → Bool) (left attempt : ℕ) → Came (tx_from C busy commit left attempt body c)
  unfolding tx_from tx_once
  from-Came busy zero attempt = inl refl
  from-Came busy (suc left) attempt =
      split_if Came c.db.closed (λ _. inl refl)
        λ running.
          split_if Came c.in_transaction (λ _. inl refl)
            λ _.
              split_if Came (busy attempt) (λ _. from-Came busy left (suc attempt))
                λ _.
                  end_tx-Came (tx_from C busy commit left (suc attempt) body) attempt
                    (commit attempt) (from-Refused C body busy commit left (suc attempt)) refl
                    running (body c.db) refl

  tx_on-Came : (busy : ℕ → Bool) → Came (tx_on C busy commit body c)
  unfolding tx_on
  tx_on-Came busy = from-Came busy 6 0

module _ (C : Codec) {A : Type 0} (body : Body C A) (db : Db C) (busy : ℕ → Bool) where
  -- A transaction on the tables alone, where commits succeed: refused, with the tables as they were,
  -- or run.
  abbrev pub Ran : Result A × Db C → Type 0
  Ran (err e, t) = t ≡ db
  Ran (ok a, t) = (body db ≡ (ok a, t)) × (db.closed ≡ false)

  pub tx-Ran : Ran (tx C busy body db)
  unfolding tx
  tx-Ran = go (tx_on C busy (λ n. commits) body start) (tx_on-Came C body start (λ n. commits) busy)
    where
      start : Connection C
      start = record { db = db; in_transaction = false }

      go : (r : Result A × Connection C) → Came C body start (λ n. commits) r → Ran (r.0, r.1.db)
      go (err e, t) (inl same) = ap (λ (x : Connection C). x.db) same
      go (err e, t) (inr (_, _, (n, failed))) = absurd (failed refl)
      go (ok a, t) came = came

-- On an open queue that is not locked, a transaction is its body, and the rollback if it raises.
pub tx-tx_once :
    (C : Codec) {A : Type 0} (body : Body C A) (db : Db C) (busy : ℕ → Bool)
    → db.closed ≡ false
    → busy 0 ≡ false
    → tx C busy body db ≡ (elim (body db).0 [ err e ↦ (err e, db) | ok a ↦ (ok a, (body db).1) ])
unfolding tx tx_on tx_from tx_once end_tx
tx-tx_once C {A} body db busy running free =
    split_if P db.closed (λ shut. absurd (true≢false (sym shut ∙ running)))
      λ _. split_if P (busy 0) (λ met. absurd (true≢false (sym met ∙ free))) (λ _. both (body db).0)
  where
    tables_of : Result A × Connection C → Result A × Db C
    tables_of r = (r.0, r.1.db)

    P : Result A × Connection C → Type 0
    P r = tables_of r ≡ (elim (body db).0 [ err e ↦ (err e, db) | ok a ↦ (ok a, (body db).1) ])

    both :
        (x : Result A)
        → let r : Result A × Connection C = elim x [
          | err e ↦ (err e, record { db = db; in_transaction = false })
          | ok a ↦ (ok a, record { db = (body db).1; in_transaction = false })
        ] in
          tables_of r ≡ (elim x [ err e ↦ (err e, db) | ok a ↦ (ok a, (body db).1) ])
    both (err e) = refl
    both (ok a) = refl

module _ (C : Codec) {A : Type 0} (body : Body C A) (db : Db C) (busy : ℕ → Bool) where
  -- A body that returns is what the transaction does.
  pub tx-runs :
      (a : A)
      → db.closed ≡ false
      → busy 0 ≡ false
      → (body db).0 ≡ ok a
      → tx C busy body db ≡ (ok a, (body db).1)
  tx-runs a running free h =
      tx-tx_once C body db busy running free
      ∙ ap (λ (r : Result A). elim r [ err e ↦ (err e, db) | ok x ↦ (ok x, (body db).1) ]) h

  -- A body that raises leaves nothing.
  pub tx-raises :
      (e : Error)
      → db.closed ≡ false
      → busy 0 ≡ false
      → (body db).0 ≡ err e
      → tx C busy body db ≡ (err e, db)
  tx-raises e running free h =
      tx-tx_once C body db busy running free
      ∙ ap (λ (r : Result A). elim r [ err e ↦ (err e, db) | ok x ↦ (ok x, (body db).1) ]) h
