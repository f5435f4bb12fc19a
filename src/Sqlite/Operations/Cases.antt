-- ===== src/Sqlite/Operations/Cases.antt =====
-- sqlite_store.go: each operation is refused, or comes to its statement on the row.
use agent_harness_runtime.Base.{
  ℕ, ◌+◌, ◌-◌, ◌≡◌, ◌≢◌, ltb, leb, ◌==◌, ◌||◌, ◌⊎◌, refl, inl, inr, String, Bool, true, false,
  Option, none, some, str_eq, Option-cases, Bool-cases,
}
use agent_harness_runtime.Errors.{Error, Reply, ok, err, Reply-cases}
use agent_harness_runtime.Checkpoint.{Checkpoint, validate_checkpoint}
use agent_harness_runtime.MemoryLeaseStore.{Ctx, check_memory_lease_context}
use agent_harness_runtime.Sqlite.{
  Row, SqliteCheckpointStore, Fault, leased_row, renewed_row, written_row, put, exec,
  check_sqlite_store_context, sqlite_int64, sqlite_lease_expiry, max_int64,
}
use agent_harness_runtime.Sqlite.Operations.{
  acquire_execution_lease, acquired, renew_execution_lease, renewed, write_fenced, wrote,
}

module _ {B : Type 0} where
  -- The statement of a successful or a faulty acquisition: the token may only be the new row's.
  acquired-cases :
      (s : SqliteCheckpointStore B) (id : String) (o : Option (Row B)) (fault : Fault)
      (seen : Reply (Option (Row B))) (now : ℕ)
      → let r = acquired seen now (exec s id o fault) in
        ((r.1 ≡ s) × ((token : ℕ) → r.0 ≢ ok token))
        ⊎ ((row : Row B) × (o ≡ some row)
            × (r.1 ≡ put s id (some row))
            × ((r.0 ≡ ok row.fencing_token) ⊎ ((e : Error) × (r.0 ≡ err e))))
  unfolding acquired
  acquired-cases s id none none seen now = inl (refl, λ token q. (cc))
  acquired-cases s id (some row) none seen now = inr (row, refl, refl, inl refl)
  acquired-cases s id none (some (e, true)) seen now = inl (refl, λ token q. (cc))
  acquired-cases s id (some row) (some (e, true)) seen now = inr (row, refl, refl, inr (e, refl))
  acquired-cases s id o (some (e, false)) seen now = inl (refl, λ token q. (cc))

  renewed-cases :
      (s : SqliteCheckpointStore B) (id : String) (o : Option (Row B)) (fault : Fault)
      → let r = renewed (exec s id o fault) in
        ((r.1 ≡ s) × (r.0 ≢ none)) ⊎ ((row : Row B) × (o ≡ some row) × (r.1 ≡ put s id (some row)))
  unfolding renewed
  renewed-cases s id none none = inl (refl, λ q. (cc))
  renewed-cases s id (some row) none = inr (row, refl, refl)
  renewed-cases s id none (some (e, true)) = inl (refl, λ q. (cc))
  renewed-cases s id (some row) (some (e, true)) = inr (row, refl, refl)
  renewed-cases s id o (some (e, false)) = inl (refl, λ q. (cc))

  wrote-cases :
      (s : SqliteCheckpointStore B) (id : String) (o : Option (Row B)) (fault : Fault)
      (seen : Reply (Option (Row B))) (token now : ℕ) (create : Bool)
      → let r = wrote seen token now create (exec s id o fault) in
        ((r.1 ≡ s) × (r.0 ≢ none)) ⊎ ((row : Row B) × (o ≡ some row) × (r.1 ≡ put s id (some row)))
  unfolding wrote
  wrote-cases s id none none seen token now create = inl (refl, λ q. (cc))
  wrote-cases s id (some row) none seen token now create = inr (row, refl, refl)
  wrote-cases s id none (some (e, true)) seen token now create = inl (refl, λ q. (cc))
  wrote-cases s id (some row) (some (e, true)) seen token now create = inr (row, refl, refl)
  wrote-cases s id o (some (e, false)) seen token now create = inl (refl, λ q. (cc))

  acquire-cases :
      (s : SqliteCheckpointStore B) (ctx : Ctx) (id : String) (now : ℕ) (fault : Fault)
      (seen : Reply (Option (Row B)))
      → let r = acquire_execution_lease s ctx id now fault seen in
        ((r.1 ≡ s) × ((token : ℕ) → r.0 ≢ ok token))
        ⊎ ((check_memory_lease_context ctx ≡ none)
            × (str_eq id "" ≡ false)
            × (r
                ≡ acquired seen now
                    (exec s id (leased_row (s.table id) (now + s.lease_duration) now) fault)))
  unfolding acquire_execution_lease check_memory_lease_context check_sqlite_store_context
      sqlite_lease_expiry
  acquire-cases s none id now fault seen = inl (refl, λ token x. (cc))
  acquire-cases s (some (some e)) id now fault seen = inl (refl, λ token x. (cc))
  acquire-cases s (some none) id now fault seen = elim (Bool-cases (str_eq id "")) [
    | inl q ↦ inl (rw q (refl, λ token x. (cc)))
    | inr q ↦ elim (Bool-cases (leb s.lease_duration 0 || ltb (max_int64 - s.lease_duration) now)) [
      | inl b ↦ inl (rw (q, b) (refl, λ token x. (cc)))
      | inr b ↦ inr (refl, q, rw (q, b) refl)
    ]
  ]

  renew-cases :
      (s : SqliteCheckpointStore B) (ctx : Ctx) (id : String) (token now : ℕ) (fault : Fault)
      → let r = renew_execution_lease s ctx id token now fault in
        ((r.1 ≡ s) × (r.0 ≢ none))
        ⊎ ((check_memory_lease_context ctx ≡ none)
            × ((str_eq id "" || token == 0) ≡ false)
            × (r
                ≡ renewed (
                    exec s id (renewed_row (s.table id) token (now + s.lease_duration) now) fault)))
  unfolding renew_execution_lease check_memory_lease_context check_sqlite_store_context
      sqlite_lease_expiry sqlite_int64
  renew-cases s none id token now fault = inl (refl, λ x. (cc))
  renew-cases s (some (some e)) id token now fault = inl (refl, λ x. (cc))
  renew-cases s (some none) id token now fault = elim (Bool-cases (str_eq id "" || token == 0)) [
    | inl q ↦ inl (rw q (refl, λ x. (cc)))
    | inr q ↦ elim (Bool-cases (ltb max_int64 token)) [
      | inl l ↦ inl (rw (q, l) (refl, λ x. (cc)))
      | inr l ↦
          elim (Bool-cases (leb s.lease_duration 0 || ltb (max_int64 - s.lease_duration) now)) [
            | inl b ↦ inl (rw (q, l, b) (refl, λ x. (cc)))
            | inr b ↦ inr (refl, q, rw (q, l, b) refl)
          ]
    ]
  ]

  write-cases :
      (utf8_valid : String → Bool) (marshal : Checkpoint → Reply B)
      (unmarshal : B → Reply Checkpoint) (s : SqliteCheckpointStore B) (ctx : Ctx) (cp : Checkpoint)
      (token : ℕ) (create : Bool) (now : ℕ) (fault : Fault) (seen : Reply (Option (Row B)))
      → let r = write_fenced utf8_valid marshal unmarshal s ctx cp token create now fault seen in
        ((r.1 ≡ s) × (r.0 ≢ none))
        ⊎ ((blob : B) × (marshal cp ≡ ok blob)
            × (check_memory_lease_context ctx ≡ none)
            × (validate_checkpoint utf8_valid cp ≡ none)
            × ((token == 0) ≡ false)
            × (r
                ≡ wrote seen token now create (
                    exec s cp.execution_id
                      (written_row create (s.table cp.execution_id) blob cp.revision token now)
                      fault)))
  unfolding write_fenced check_memory_lease_context check_sqlite_store_context sqlite_int64
  write-cases utf8_valid marshal unmarshal s none cp token create now fault seen =
      inl (refl, λ x. (cc))
  write-cases utf8_valid marshal unmarshal s (some (some e)) cp token create now fault seen =
      inl (refl, λ x. (cc))
  write-cases utf8_valid marshal unmarshal s (some none) cp token create now fault seen =
      elim (Option-cases (validate_checkpoint utf8_valid cp)) [
        | inr (e, v) ↦ inl (rw (v, write_fenced) (refl, λ x. (cc)))
        | inl v ↦ elim (Bool-cases (token == 0)) [
          | inl z ↦ inl (rw (v, z, write_fenced) (refl, λ x. (cc)))
          | inr z ↦ elim (Bool-cases (ltb max_int64 token)) [
            | inl l ↦ inl (rw (v, z, l, write_fenced) (refl, λ x. (cc)))
            | inr l ↦ elim (Bool-cases (ltb max_int64 cp.revision)) [
              | inl k ↦ inl (rw (v, z, l, k, write_fenced) (refl, λ x. (cc)))
              | inr k ↦ elim (Reply-cases (marshal cp)) [
                | inr (e, j) ↦ inl (rw (v, z, l, k, j, write_fenced) (refl, λ x. (cc)))
                | inl (blob, j) ↦ inr (blob, j, refl, v, z, rw (v, z, l, k, j, write_fenced) refl)
              ]
            ]
          ]
        ]
      ]

  -- An acquisition changes nothing and gives no token, or leases the row; then it returns the new
  -- row's token or an error.
  pub acquire-Leased :
      (s : SqliteCheckpointStore B) (ctx : Ctx) (id : String) (now : ℕ) (fault : Fault)
      (seen : Reply (Option (Row B)))
      → let r = acquire_execution_lease s ctx id now fault seen in
        ((r.1 ≡ s) × ((token : ℕ) → r.0 ≢ ok token))
        ⊎ ((row : Row B) × (check_memory_lease_context ctx ≡ none)
            × (str_eq id "" ≡ false)
            × (leased_row (s.table id) (now + s.lease_duration) now ≡ some row)
            × (r.1 ≡ put s id (some row))
            × ((r.0 ≡ ok row.fencing_token) ⊎ ((e : Error) × (r.0 ≡ err e))))
  acquire-Leased s ctx id now fault seen = elim (acquire-cases s ctx id now fault seen) [
    | inl kept ↦ inl kept
    | inr (c, i, q) ↦
        elim (acquired-cases s id (leased_row (s.table id) (now + s.lease_duration) now) fault seen
          now) [ inl kept ↦ rw q (inl kept) | inr (row, o, a, b) ↦ rw q (inr (row, c, i, o, a, b)) ]
  ]

  -- A renewal fails and changes nothing, or renews the row.
  pub renew-Renewed :
      (s : SqliteCheckpointStore B) (ctx : Ctx) (id : String) (token now : ℕ) (fault : Fault)
      → let r = renew_execution_lease s ctx id token now fault in
        ((r.1 ≡ s) × (r.0 ≢ none))
        ⊎ ((row : Row B) × (check_memory_lease_context ctx ≡ none)
            × ((str_eq id "" || token == 0) ≡ false)
            × (renewed_row (s.table id) token (now + s.lease_duration) now ≡ some row)
            × (r.1 ≡ put s id (some row)))
  renew-Renewed s ctx id token now fault = elim (renew-cases s ctx id token now fault) [
    | inl kept ↦ inl kept
    | inr (c, i, q) ↦
        elim (renewed-cases s id (renewed_row (s.table id) token (now + s.lease_duration) now)
          fault) [ inl kept ↦ rw q (inl kept) | inr (row, o, a) ↦ rw q (inr (row, c, i, o, a)) ]
  ]

  -- A write fails and changes nothing, or writes the row of a valid checkpoint.
  pub write-Wrote :
      (utf8_valid : String → Bool) (marshal : Checkpoint → Reply B)
      (unmarshal : B → Reply Checkpoint) (s : SqliteCheckpointStore B) (ctx : Ctx) (cp : Checkpoint)
      (token : ℕ) (create : Bool) (now : ℕ) (fault : Fault) (seen : Reply (Option (Row B)))
      → let r = write_fenced utf8_valid marshal unmarshal s ctx cp token create now fault seen in
        ((r.1 ≡ s) × (r.0 ≢ none))
        ⊎ ((blob : B) × (row : Row B) × (marshal cp ≡ ok blob)
            × (check_memory_lease_context ctx ≡ none)
            × (validate_checkpoint utf8_valid cp ≡ none)
            × ((token == 0) ≡ false)
            × (written_row create (s.table cp.execution_id) blob cp.revision token now ≡ some row)
            × (r.1 ≡ put s cp.execution_id (some row)))
  write-Wrote utf8_valid marshal unmarshal s ctx cp token create now fault seen =
      elim (write-cases utf8_valid marshal unmarshal s ctx cp token create now fault seen) [
        | inl kept ↦ inl kept
        | inr (blob, j, c, v, z, q) ↦
            elim (wrote-cases s cp.execution_id
              (written_row create (s.table cp.execution_id) blob cp.revision token now) fault seen
              token now create) [
                | inl kept ↦ rw q (inl kept)
                | inr (row, o, a) ↦ rw q (inr (blob, row, j, c, v, z, o, a))
              ]
      ]
