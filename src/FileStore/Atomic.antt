-- ===== src/FileStore/Atomic.antt =====
-- file_store.go: `write` as a whole, and what `Load` then returns.
use agent_harness_runtime.Base.{
  String, Bool, true, false, Option, none, some, ◌≡◌, ◌≢◌, ◌⊎◌, inl, inr, refl, sym, ◌∙◌, ap,
  Bool-cases, str_eq,
}
use agent_harness_runtime.Errors.{Error, Reply, ok, err}
use agent_harness_runtime.Checkpoint.{Checkpoint, validate_checkpoint}
use agent_harness_runtime.Ports.{Context}
use agent_harness_runtime.FileStore.{
  FileSystem, FileStore, check_store_context, context_err, file_path, load, after_read,
  current_error, check_current, clean_up, write_body, in_temp, encoded, validated, write,
}
use agent_harness_runtime.FileStore.Disk.{Lawful}
use agent_harness_runtime.FileStore.Writes.{
  and_then-elim, and_reply-elim, Published, write_body-Published, check-same,
}

module _ {W : Type 0} {B : Type 0} (fs : FileSystem W B) (file : W → String → Option B)
    (laws : Lawful fs file) (utf8_valid : String → Bool) (marshal : Checkpoint → Reply B)
    (unmarshal : B → Reply Checkpoint) (file_name : String → String) (s : FileStore)
    (apart : (w : W) (temp id : String)
      → (fs.create_temp s.directory w).0 ≡ ok temp
      → temp ≢ file_path fs file_name s id)
    (ctx : Option (Context W))
    (quiet : (w : W) (n : String) → file (context_err ctx w).1 n ≡ file w n) where
  abbrev path_of : String → String
  path_of id = file_path fs file_name s id

  -- The files of all executions but those that share the path of `id` are as they were, and that
  -- one is as it was and there is an error, or it holds the encoded checkpoint, which a creation
  -- puts only where there was no file.
  abbrev pub Atomic : Checkpoint → Bool → W → Option Error × W → Type 0
  Atomic cp create w r =
      let target = path_of cp.execution_id in
      ((id : String) → path_of id ≢ target → file r.1 (path_of id) ≡ file w (path_of id))
      × (((file r.1 target ≡ file w target) × (r.0 ≢ none))
          ⊎ ((blob : B) × (marshal cp ≡ ok blob)
              × (validate_checkpoint utf8_valid cp ≡ none)
              × (file r.1 target ≡ some blob)
              × (create ≡ true → file w target ≡ none)))

  unwritten :
      (cp : Checkpoint) (create : Bool) (w : W) (e : Error) (w' : W)
      → ((n : String) → file w' n ≡ file w n)
      → Atomic cp create w (some e, w')
  unwritten cp create w e w' same =
      (λ id d. same (path_of id), inl (same (path_of cp.execution_id), λ x. (cc)))

  -- The same from a state with the same files.
  from_same :
      (cp : Checkpoint) (create : Bool) (w w' : W) (r : Option Error × W)
      → ((n : String) → file w' n ≡ file w n)
      → Atomic cp create w' r
      → Atomic cp create w r
  from_same cp create w w' r same (others, inl (kept, fails)) =
      (λ id d. others id d ∙ same (path_of id), inl (kept ∙ same (path_of cp.execution_id), fails))
  from_same cp create w w' r same (others, inr (blob, j, v, new, free)) = (
    λ id d. others id d ∙ same (path_of id),
    inr (blob, j, v, new, λ x. sym (same (path_of cp.execution_id)) ∙ free x),
  )

  -- The deferred calls only touch the temporary file.
  cleaned :
      (cp : Checkpoint) (create : Bool) (blob : B) (temp : String) (w w1 : W) (p : Option Error × W)
      → ((id : String) → temp ≢ path_of id)
      → ((id : String) → file w1 (path_of id) ≡ file w (path_of id))
      → marshal cp ≡ ok blob
      → validate_checkpoint utf8_valid cp ≡ none
      → Published fs file laws ctx quiet temp (path_of cp.execution_id) create blob w1 p
      → Atomic cp create w (clean_up fs temp p)
  cleaned cp create blob temp w w1 p away same j v published =
      let after = λ (id : String).
        laws.remove_same temp (fs.close temp p.1).1 (path_of id) (λ x. away id (sym x))
        ∙ laws.close_same temp p.1 (path_of id) in
      (
        λ id d. after id ∙ published.0 (path_of id) (λ x. away id (sym x)) d ∙ same id,
        elim (published.1) [
          | inl (kept, fails) ↦ inl (after cp.execution_id ∙ kept ∙ same cp.execution_id, fails)
          | inr (new, free) ↦
              inr
                (blob, j, v, after cp.execution_id ∙ new, λ x. sym (same cp.execution_id) ∙ free x)
        ],
      )

  in_temp-Atomic :
      (cp : Checkpoint) (create : Bool) (blob : B) (w : W) (t : Reply String)
      → (fs.create_temp s.directory w).0 ≡ t
      → marshal cp ≡ ok blob
      → validate_checkpoint utf8_valid cp ≡ none
      → Atomic cp create w (
          in_temp fs s ctx
            (path_of cp.execution_id)
            create
            blob
            (t, (fs.create_temp s.directory w).1))
  unfolding in_temp
  in_temp-Atomic cp create blob w (err e) q j v =
      unwritten cp create w e _ (λ n. laws.temp_err s.directory w n e q)
  in_temp-Atomic cp create blob w (ok temp) q j v =
      let w1 = (fs.create_temp s.directory w).1 in
      let away = λ (id : String). apart w temp id q in
      cleaned cp create blob temp w w1
        (write_body fs s ctx (path_of cp.execution_id) create blob temp w1) away
        (λ id. laws.temp_same s.directory w (path_of id) temp q (λ x. away id (sym x))) j v
        (write_body-Published fs file laws ctx quiet s temp (path_of cp.execution_id) create blob w1
          (away cp.execution_id))

  encoded-Atomic :
      (cp : Checkpoint) (create : Bool) (w : W) (reply : Reply B)
      → marshal cp ≡ reply
      → validate_checkpoint utf8_valid cp ≡ none
      → Atomic cp create w (encoded fs s ctx (path_of cp.execution_id) create reply w)
  unfolding encoded
  encoded-Atomic cp create w (err e) j v = unwritten cp create w e w (λ n. refl)
  encoded-Atomic cp create w (ok blob) j v =
      in_temp-Atomic cp create blob w (fs.create_temp s.directory w).0 refl j v

  after_read-same :
      (id : String) (w : W) (n : String) (reply : Reply B)
      → file (after_read fs utf8_valid marshal unmarshal file_name ctx id (reply, w)).1 n ≡ file w n
  unfolding after_read
  after_read-same id w n (err e) = refl
  after_read-same id w n (ok blob) =
      and_reply-elim (λ r. file r.1 n ≡ file w n) (context_err ctx w) _ (λ e q. quiet w n)
        (λ q. quiet w n)

  load-same :
      (id : String) (w : W) (n : String)
      → file (load fs utf8_valid marshal unmarshal file_name s ctx id w).1 n ≡ file w n
  unfolding load file_path
  load-same id w n =
      let w1 = (check_store_context ctx w).1 in
      let read = fs.read_file (path_of id) w1 in
      and_reply-elim (λ r. file r.1 n ≡ file w n) (check_store_context ctx w) _
        (λ e q. check-same fs file laws ctx quiet w n)
        (λ q. elim (Bool-cases (str_eq id "")) [
          | inl b ↦ rw b (check-same fs file laws ctx quiet w n)
          | inr b ↦ rw b (
              after_read-same id read.1 n read.0
              ∙ laws.read_same (path_of id) w1 n
              ∙ check-same fs file laws ctx quiet w n)
        ])

  current_error-world :
      (cp : Checkpoint) (r : Reply Checkpoint × W)
      → (current_error fs utf8_valid marshal unmarshal file_name cp r).1 ≡ r.1
  unfolding current_error
  current_error-world cp (err e, w) = refl
  current_error-world cp (ok current, w) = refl

  check_current-same :
      (cp : Checkpoint) (create : Bool) (w : W) (n : String)
      → file (check_current fs utf8_valid marshal unmarshal file_name s ctx cp create w).1 n
        ≡ file w n
  unfolding check_current
  check_current-same cp true w n = refl
  check_current-same cp false w n =
      ap (λ (x : W). file x n)
        (current_error-world cp
          (load fs utf8_valid marshal unmarshal file_name s ctx cp.execution_id w))
      ∙ load-same cp.execution_id w n

  validated-Atomic :
      (cp : Checkpoint) (create : Bool) (w : W) (o : Option Error)
      → validate_checkpoint utf8_valid cp ≡ o
      → Atomic cp create w (validated fs utf8_valid marshal unmarshal file_name s ctx cp create o w)
  unfolding validated
  validated-Atomic cp create w (some e) v = unwritten cp create w e w (λ n. refl)
  validated-Atomic cp create w none v =
      let current = check_current fs utf8_valid marshal unmarshal file_name s ctx cp create w in
      let same = check_current-same cp create w in
      and_then-elim (Atomic cp create w) current _ (λ e r. unwritten cp create w e current.1 same)
        (λ r.
          from_same cp create w current.1
            (encoded fs s ctx (path_of cp.execution_id) create (marshal cp) current.1) same
            (encoded-Atomic cp create current.1 (marshal cp) refl v))

  -- On a lawful file system, whatever call of it fails: if a temporary file never has the path of an
  -- execution and a context leaves the files alone, then `write` leaves the files of all executions with
  -- other paths as they were; the file of its own execution is as it was and there is an error, or
  -- the checkpoint is valid and the file is the whole encoded checkpoint, which a creation puts only
  -- where there was no file.
  pub write-Atomic :
      (cp : Checkpoint) (create : Bool) (w : W)
      → Atomic cp create w (write fs utf8_valid marshal unmarshal file_name s ctx cp create w)
  unfolding write
  write-Atomic cp create w =
      let w1 = (check_store_context ctx w).1 in
      and_then-elim (Atomic cp create w) (check_store_context ctx w) _
        (λ e q. unwritten cp create w e w1 (check-same fs file laws ctx quiet w))
        (λ q.
          from_same cp create w w1
            (validated fs utf8_valid marshal unmarshal file_name s ctx cp create
              (validate_checkpoint utf8_valid cp) w1)
            (check-same fs file laws ctx quiet w)
            (validated-Atomic cp create w1 (validate_checkpoint utf8_valid cp) refl))
