-- ===== src/FileStore/Reads.antt =====
-- file_store.go: what `Load` returns, and what a save has found.
use agent_harness_runtime.Base.{
  String, Bool, false, Option, none, some, ◌≡◌, ◌≢◌, ◌⊎◌, ◌<◌, inl, inr, refl, sym, ◌∙◌, ap,
  Bool-cases, arith, str_eq, eq_iff,
}
use agent_harness_runtime.Errors.{Error, Reply, ok, err}
use agent_harness_runtime.Checkpoint.{Checkpoint, validate_checkpoint}
use agent_harness_runtime.MemoryLeaseStore.Writes.{nonempty}
use agent_harness_runtime.Ports.{Context}
use agent_harness_runtime.FileStore.{
  FileSystem, FileStore, and_then, and_reply, check_store_context, context_err, file_path, load,
  decode_file, after_read, current_error, check_current, validated, write,
}
use agent_harness_runtime.FileStore.Disk.{Lawful}
use agent_harness_runtime.FileStore.Writes.{check-same}
use agent_harness_runtime.FileStore.Atomic.{write-Atomic}

and_then-none :
    {W : Type 0} (p : Option Error × W) (next : W → Option Error × W)
    → (and_then p next).0 ≡ none
    → (p.0 ≡ none) × ((next p.1).0 ≡ none)
and_then-none (some e, w) next q = cc
and_then-none (none, w) next q = (refl, q)

and_reply-ok :
    {W A : Type 0} (p : Option Error × W) (next : W → Reply A × W) (a : A)
    → (and_reply p next).0 ≡ ok a
    → (p.0 ≡ none) × ((next p.1).0 ≡ ok a)
and_reply-ok (some e, w) next a q = cc
and_reply-ok (none, w) next a q = (refl, q)

and_reply-next :
    {W A : Type 0} (p : Option Error × W) (next : W → Reply A × W)
    → p.0 ≡ none
    → (and_reply p next).0 ≡ (next p.1).0
and_reply-next (some e, w) next q = cc
and_reply-next (none, w) next q = refl

module _ {W : Type 0} {B : Type 0} (fs : FileSystem W B) (file : W → String → Option B)
    (laws : Lawful fs file) (utf8_valid : String → Bool) (marshal : Checkpoint → Reply B)
    (unmarshal : B → Reply Checkpoint) (file_name : String → String) (s : FileStore)
    (ctx : Option (Context W)) where
  -- A load that succeeds has decoded the file of the execution.
  after_read-ok :
      (id : String) (cp : Checkpoint) (read : Reply B × W)
      → (after_read fs utf8_valid marshal unmarshal file_name ctx id read).0 ≡ ok cp
      → (blob : B) × (read.0 ≡ ok blob)
        × (decode_file fs utf8_valid marshal unmarshal file_name id blob ≡ ok cp)
  unfolding after_read
  after_read-ok id cp (err e, w) q = cc
  after_read-ok id cp (ok blob, w) q = (blob, refl, (and_reply-ok (context_err ctx w) _ cp q).1)

  load-ok :
      (id : String) (cp : Checkpoint) (w : W)
      → (load fs utf8_valid marshal unmarshal file_name s ctx id w).0 ≡ ok cp
      → (blob : B) × (file (check_store_context ctx w).1 (file_path fs file_name s id) ≡ some blob)
        × (decode_file fs utf8_valid marshal unmarshal file_name id blob ≡ ok cp)
  unfolding load
  load-ok id cp w q =
      let w1 = (check_store_context ctx w).1 in
      let path = file_path fs file_name s id in
      let found = (and_reply-ok (check_store_context ctx w) _ cp q).1 in
      elim (Bool-cases (str_eq id "")) [
        | inl b ↦ absurd (refused (rw b at found))
        | inr b ↦
            let (blob, r, d) = after_read-ok id cp (fs.read_file path w1) (rw b at found) in
            (blob, laws.read_ok path w1 blob r, d)
      ]
    where
      refused : {e : Error} → ◌≡◌ {A = Reply Checkpoint} (err e) (ok cp) → ⊥
      refused h = cc

  decode_file-written :
      (cp : Checkpoint) (blob : B)
      → unmarshal blob ≡ ok cp
      → validate_checkpoint utf8_valid cp ≡ none
      → decode_file fs utf8_valid marshal unmarshal file_name cp.execution_id blob ≡ ok cp
  unfolding decode_file
  decode_file-written cp blob d v = ground (arith, eq_iff cp.execution_id cp.execution_id)

  current_error-none :
      (cp : Checkpoint) (r : Reply Checkpoint × W)
      → (current_error fs utf8_valid marshal unmarshal file_name cp r).0 ≡ none
      → (current : Checkpoint) × (r.0 ≡ ok current)
        × ((current.revision ≡ 0) ⊎ (current.revision < cp.revision))
  unfolding current_error
  current_error-none cp (err e, w) q = cc
  current_error-none cp (ok current, w) q = (current, refl, ground (arith, q))

  module _ (quiet : (w : W) (n : String) → file (context_err ctx w).1 n ≡ file w n) where
    -- On a lawful file system, a save that is accepted has found the file of its execution, which
    -- decodes to a checkpoint without a revision or with a smaller one, if a context leaves the
    -- files alone.
    pub write-found :
        (cp : Checkpoint) (w : W)
        → (write fs utf8_valid marshal unmarshal file_name s ctx cp false w).0 ≡ none
        → (blob : B) × (current : Checkpoint) × (file w (file_path fs file_name s cp.execution_id)
            ≡ some blob)
          × (decode_file fs utf8_valid marshal unmarshal file_name cp.execution_id blob
              ≡ ok current)
          × ((current.revision ≡ 0) ⊎ (current.revision < cp.revision))
    unfolding write validated check_current
    write-found cp w q =
        let w1 = (check_store_context ctx w).1 in
        let w2 = (check_store_context ctx w1).1 in
        let (current, l, rising) =
          found (validate_checkpoint utf8_valid cp) w1
            ((and_then-none (check_store_context ctx w) _ q).1) in
        let (blob, f, d) = load-ok cp.execution_id current w1 l in
        let path = file_path fs file_name s cp.execution_id in
        let same = λ (x : W). check-same fs file laws ctx quiet x path in
        (blob, current, sym (same w1 ∙ same w) ∙ f, d, rising)
      where
        found :
            (o : Option Error) (x : W)
            → (validated fs utf8_valid marshal unmarshal file_name s ctx cp false o x).0 ≡ none
            → (current : Checkpoint) × ((load fs utf8_valid marshal unmarshal file_name s ctx
                  cp.execution_id x).0
                ≡ ok current)
              × ((current.revision ≡ 0) ⊎ (current.revision < cp.revision))
        found (some e) x h = cc
        found none x h =
            current_error-none cp
              (load fs utf8_valid marshal unmarshal file_name s ctx cp.execution_id x)
              ((and_then-none
                (check_current fs utf8_valid marshal unmarshal file_name s ctx cp false x) _ h).0)

    after_read-gives :
        (id : String) (blob : B) (read : Reply B × W)
        → read.0 ≡ ok blob
        → (context_err ctx read.1).0 ≡ none
        → (after_read fs utf8_valid marshal unmarshal file_name ctx id read).0
          ≡ decode_file fs utf8_valid marshal unmarshal file_name id blob
    unfolding after_read
    after_read-gives id blob (err e, w) q alive = cc
    after_read-gives id blob (ok b, w) q alive =
        rw
          (and_reply-next (context_err ctx w)
            (λ x. (decode_file fs utf8_valid marshal unmarshal file_name id b, x)) alive)
          (ap (decode_file fs utf8_valid marshal unmarshal file_name id) (same q))
      where
        same : {b : B} → ◌≡◌ {A = Reply B} (ok b) (ok blob) → b ≡ blob
        same h = cc

    -- On a lawful file system, a checkpoint whose write is accepted is what the next load of its
    -- execution returns, if encoded checkpoints decode to themselves, a file that exists can be
    -- read, the context stays good and leaves the files alone, and a temporary file never has the
    -- path of an execution.
    pub file_write-load :
        ((cp : Checkpoint) (blob : B) → marshal cp ≡ ok blob → unmarshal blob ≡ ok cp)
        → ((w : W) (name : String) (blob : B)
            → file w name ≡ some blob
            → (fs.read_file name w).0 ≡ ok blob)
        → ((w : W) → ((check_store_context ctx w).0 ≡ none) × ((context_err ctx w).0 ≡ none))
        → ((w : W) (temp id : String)
            → (fs.create_temp s.directory w).0 ≡ ok temp
            → temp ≢ file_path fs file_name s id)
        → (cp : Checkpoint) (create : Bool) (w : W)
        → let r = write fs utf8_valid marshal unmarshal file_name s ctx cp create w in
          r.0 ≡ none
          → (load fs utf8_valid marshal unmarshal file_name s ctx cp.execution_id r.1).0 ≡ ok cp
    unfolding load
    file_write-load decodes reads alive apart cp create w accepted =
        let r = write fs utf8_valid marshal unmarshal file_name s ctx cp create w in
        let path = file_path fs file_name s cp.execution_id in
        let w1 = (check_store_context ctx r.1).1 in
        elim ((write-Atomic fs file laws utf8_valid marshal unmarshal file_name s apart ctx quiet cp
          create w).1) [
            | inl (kept, fails) ↦ absurd (fails accepted)
            | inr (blob, j, v, new, free) ↦
                let there = check-same fs file laws ctx quiet r.1 path ∙ new in
                let read = fs.read_file path w1 in
                let given =
                  after_read-gives cp.execution_id blob read (reads w1 path blob there)
                    ((alive read.1).1) in
                and_reply-next (check_store_context ctx r.1) _ ((alive r.1).0)
                ∙ rw (nonempty utf8_valid cp v)
                    (given ∙ decode_file-written cp blob (decodes cp blob j) v)
          ]
