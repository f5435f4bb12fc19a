-- ===== src/FileStore.antt =====
-- file_store.go and file_store_lock_linux.go: a checkpoint per file of a directory. The file system
-- and its locks are outside the repository: their calls are fields of a record, over an arbitrary
-- state W of everything outside. JSON, the hash in a file's name and the joining of paths are
-- parameters; decoding fails on a negative number, which validateCheckpoint rejects after it. `none`
-- stands for a nil context.
pub mod Lock
pub mod Disk
pub mod Writes
pub mod Atomic
pub mod Reads
use agent_harness_runtime.Base.{
  String, Bool, true, false, not, ◌&&◌, ◌||◌, Option, none, some, str_eq, ltb, leb, ◌==◌,
  if◌then◌else◌,
}
use agent_harness_runtime.Errors.{
  Error, sentinel, detail, both, is, opaque, Reply, ok, err, invalid_request, invalid_checkpoint,
  execution_busy, execution_exists, execution_not_found, checkpoint_conflict, os_exist,
  os_not_exist, would_block,
}
use agent_harness_runtime.Checkpoint.{Checkpoint, validate_checkpoint}
use agent_harness_runtime.Ports.{Context}

-- What the store calls of `os`, `syscall` and `filepath`. An open file goes by its name.
pub record FileSystem (W : Type 0) (B : Type 0) : Type 0 where
  pub abs : String → W → Reply String × W
  pub dir : String → String
  pub join : String → String → String
  pub mkdir : String → W → Option Error × W
  pub is_dir : String → W → Reply Bool × W
  pub read_file : String → W → Reply B × W
  pub create_temp : String → W → Reply String × W
  pub open_file : String → W → Option Error × W
  pub write : String → B → W → Option Error × W
  pub sync : String → W → Option Error × W
  pub close : String → W → Option Error × W
  pub link : String → String → W → Option Error × W
  pub rename : String → String → W → Option Error × W
  pub remove : String → W → W
  pub flock : String → W → Option Error × W
  pub unlock : String → W → W

pub record FileStore : Type 0 where
  pub directory : String

module _ {W : Type 0} where
  -- `if err := …; err != nil { return err }`, and what follows.
  abbrev pub and_then : Option Error × W → (W → Option Error × W) → Option Error × W
  and_then (some e, w) next = (some e, w)
  and_then (none, w) next = next w

  abbrev pub and_reply {ℓ} : {A : Type ℓ} → Option Error × W → (W → Reply A × W) → Reply A × W
  and_reply (some e, w) next = (err e, w)
  and_reply (none, w) next = next w

  -- `checkStoreContext`.
  unfoldable pub check_store_context : Option (Context W) → W → Option Error × W
  check_store_context none w = (some (detail (sentinel invalid_request) "context is required"), w)
  check_store_context (some ctx) w = ctx.err w

  -- `ctx.Err()` where the context has been checked.
  abbrev pub context_err : Option (Context W) → W → Option Error × W
  context_err none w = (none, w)
  context_err (some ctx) w = ctx.err w

module _ {W : Type 0} {B : Type 0} (fs : FileSystem W B) where
  -- `syncDirectory`.
  unfoldable pub sync_directory : String → W → Option Error × W
  sync_directory path w =
      and_then (fs.open_file path w)
        (λ w1. let synced = fs.sync path w1 in (synced.0, (fs.close path synced.1).1))

  -- The error of `os.Mkdir` if it is not that the directory exists.
  abbrev unless_exists : Option Error × W → Option Error × W
  unless_exists (none, w) = (none, w)
  unless_exists (some e, w) = (if is e os_exist then none else some e, w)

  abbrev checked_dir : String → Reply Bool × W → Reply FileStore × W
  checked_dir path (err e, w) = (err e, w)
  checked_dir path (ok false, w) = (err (opaque "checkpoint store path is not a directory"), w)
  checked_dir path (ok true, w) =
      and_reply (sync_directory (fs.dir path) w) (λ w1. (ok (record { directory = path }), w1))

  abbrev at_path : Reply String × W → Reply FileStore × W
  at_path (err e, w) = (err e, w)
  at_path (ok path, w) =
      and_reply (unless_exists (fs.mkdir path w)) (λ w1. checked_dir path (fs.is_dir path w1))

  -- `NewFileStore`.
  unfoldable pub new_file_store : String → W → Reply FileStore × W
  new_file_store directory w =
      if str_eq directory ""
      then (err (detail (sentinel invalid_request) "store directory is required"), w)
      else at_path (fs.abs directory w)

  -- The complete file under its temporary name.
  unfoldable pub write_temp : String → B → W → Option Error × W
  write_temp temp blob w =
      and_then (fs.write temp blob w) (λ w1. and_then (fs.sync temp w1) (λ w2. fs.close temp w2))

  abbrev linked : Option Error × W → Option Error × W
  linked (none, w) = (none, w)
  linked (some e, w) =
      (some (if is e os_exist then detail (sentinel execution_exists) "execution ID" else e), w)

  -- The file under its own name: a link for a creation, else a renaming.
  unfoldable pub publish : Bool → String → String → W → Option Error × W
  publish true temp target w = linked (fs.link temp target w)
  publish false temp target w = fs.rename temp target w

  -- The deferred calls.
  abbrev pub clean_up : String → Option Error × W → Option Error × W
  clean_up temp (e, w) = (e, fs.remove temp (fs.close temp w).1)

  pub write_body :
      FileStore → Option (Context W) → String → Bool → B → String → W → Option Error × W
  unfolding write_temp publish sync_directory
  write_body s ctx target create blob temp w = and_then (write_temp temp blob w) (λ w1.
      and_then (context_err ctx w1)
        (λ w2. and_then (publish create temp target w2) (λ w3. sync_directory s.directory w3)))

  in_temp : FileStore → Option (Context W) → String → Bool → B → Reply String × W → Option Error × W
  unfolding write_body
  in_temp s ctx target create blob (err e, w) = (some e, w)
  in_temp s ctx target create blob (ok temp, w) =
      clean_up temp (write_body s ctx target create blob temp w)

  encoded : FileStore → Option (Context W) → String → Bool → Reply B → W → Option Error × W
  unfolding in_temp
  encoded s ctx target create (err e) w = (some e, w)
  encoded s ctx target create (ok blob) w =
      in_temp s ctx target create blob (fs.create_temp s.directory w)

  -- `path`; `file_name` is the hexadecimal SHA-256 of an ID with ".json".
  unfoldable pub file_path : (String → String) → FileStore → String → String
  file_path file_name s id = fs.join s.directory (file_name id)

  module _ (utf8_valid : String → Bool) (marshal : Checkpoint → Reply B)
      (unmarshal : B → Reply Checkpoint) (file_name : String → String) where
    -- What `Load` makes of the bytes of a file.
    unfoldable pub decode_file : String → B → Reply Checkpoint
    decode_file id blob = elim (unmarshal blob) [
      | err e ↦ err (both (sentinel invalid_checkpoint) e)
      | ok cp ↦ elim (validate_checkpoint utf8_valid cp) [
        | some e ↦ err e
        | none ↦
            if not (str_eq cp.execution_id id)
            then err (detail (sentinel invalid_checkpoint) "execution ID mismatch")
            else ok cp
      ]
    ]

    after_read : Option (Context W) → String → Reply B × W → Reply Checkpoint × W
    unfolding decode_file
    after_read ctx id (err e, w) = (
      err (if is e os_not_exist then detail (sentinel execution_not_found) "execution ID" else e),
      w,
    )
    after_read ctx id (ok blob, w) = and_reply (context_err ctx w) (λ w1. (decode_file id blob, w1))

    -- `Load`.
    unfoldable pub load : FileStore → Option (Context W) → String → W → Reply Checkpoint × W
    unfolding after_read check_store_context file_path
    load s ctx id w = and_reply (check_store_context ctx w) (λ w1.
        if str_eq id ""
        then (err (detail (sentinel invalid_checkpoint) "execution ID is required"), w1)
        else after_read ctx id (fs.read_file (file_path file_name s id) w1))

    -- The revisions that a save refuses.
    abbrev pub conflicts : Checkpoint → Checkpoint → Bool
    conflicts current cp =
        ltb 0 current.revision && (cp.revision == 0 || leb cp.revision current.revision)

    current_error : Checkpoint → Reply Checkpoint × W → Option Error × W
    current_error cp (err e, w) = (some e, w)
    current_error cp (ok current, w) = (
      if conflicts current cp
          then some (detail (sentinel checkpoint_conflict) "revision")
          else none,
      w,
    )

    -- What a save must find in the store.
    unfoldable pub check_current :
        FileStore → Option (Context W) → Checkpoint → Bool → W → Option Error × W
    unfolding current_error load
    check_current s ctx cp true w = (none, w)
    check_current s ctx cp false w = current_error cp (load s ctx cp.execution_id w)

    validated :
        FileStore → Option (Context W) → Checkpoint → Bool → Option Error → W → Option Error × W
    unfolding encoded check_current file_path
    validated s ctx cp create (some e) w = (some e, w)
    validated s ctx cp create none w =
        and_then (check_current s ctx cp create w)
          (λ w1. encoded s ctx (file_path file_name s cp.execution_id) create (marshal cp) w1)

    -- `write`, and so `Create` and `Save`.
    unfoldable pub write : FileStore → Option (Context W) → Checkpoint → Bool → W → Option Error × W
    unfolding validated check_store_context
    write s ctx cp create w =
        and_then (check_store_context ctx w)
          (λ w1. validated s ctx cp create (validate_checkpoint utf8_valid cp) w1)
