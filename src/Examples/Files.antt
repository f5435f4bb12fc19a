-- ===== src/Examples/Files.antt =====
-- file_store.go: the theorems on a directory in memory, whose files hold checkpoints.
use agent_harness_runtime.Base.{
  String, ◌<◌, ◌≡◌, ◌≢◌, ◌⊎◌, refl, true, false, Option, none, some, str_eq, eq_iff, arith,
  Bool-cases, inl, inr, sym, ◌∙◌, false≢true, if◌then◌else◌,
}
use agent_harness_runtime.Errors.{Error, Reply, ok, err, sentinel, os_exist, os_not_exist}
use agent_harness_runtime.Checkpoint.{Checkpoint, validate_checkpoint, contains}
use agent_harness_runtime.Status.{valid_transition}
use agent_harness_runtime.Types.{validate_decision}
use agent_harness_runtime.MemoryLeaseStore.{Map, set, delete}
use agent_harness_runtime.Ports.{Context}
use agent_harness_runtime.FileStore.{
  FileSystem, FileStore, check_store_context, context_err, file_path, load, decode_file,
  check_current, publish, write, write_temp, sync_directory,
}
use agent_harness_runtime.FileStore.Disk.{Lawful}
use agent_harness_runtime.FileStore.Atomic.{Atomic, write-Atomic}
use agent_harness_runtime.FileStore.Reads.{write-found, file_write-load}
use agent_harness_runtime.Examples.{utf8_valid, pending, pending-valid}

abbrev Files : Type 0
Files = Map Checkpoint

abbrev contents : Option Checkpoint → Reply Checkpoint
contents none = err (sentinel os_not_exist)
contents (some cp) = ok cp

abbrev link_free : Option Checkpoint → Files → Option Checkpoint → String → Option Error × Files
link_free (some there) w cp b = (some (sentinel os_exist), w)
link_free none w cp b = (none, λ n. if str_eq n b then cp else w n)

abbrev disk : FileSystem Files Checkpoint
disk = record {
  abs = λ n w. (ok n, w);
  dir = λ n. n;
  join = λ d n. n;
  mkdir = λ n w. (none, w);
  is_dir = λ n w. (ok true, w);
  read_file = λ n w. (contents (w n), w);
  create_temp = λ d w. (ok "temp", w);
  open_file = λ n w. (none, w);
  write = λ n cp w. (none, set w n cp);
  sync = λ n w. (none, w);
  close = λ n w. (none, w);
  link = λ a b w. link_free (w b) w (w a) b;
  rename = λ a b w. (none, λ n. if str_eq n b then w a else if str_eq n a then none else w n);
  remove = λ n w. delete w n;
  flock = λ n w. (none, w);
  unlock = λ n w. w;
}

abbrev file : Files → String → Option Checkpoint
file w n = w n

disk-Lawful : Lawful disk file
disk-Lawful = record {
  read_same = λ name w n. refl;
  read_ok = λ name w b h. ground arith;
  temp_same = λ d w n t h x. refl;
  temp_err = λ d w n e h. refl;
  open_same = λ name w n. refl;
  sync_same = λ name w n. refl;
  close_same = λ name w n. refl;
  write_same = λ name b w n h. ground (arith, eq_iff n name);
  write_ok = λ name b w h. ground (arith, eq_iff name name);
  link_err = λ a b w e n h. ground arith;
  link_ok =
      λ a b w h. (ground arith, ground (arith, eq_iff b b), λ n d. ground (arith, eq_iff n b));
  rename_err = λ a b w e n h. ground arith;
  rename_ok =
      λ a b w h. (ground (arith, eq_iff b b), λ n c d. ground (arith, eq_iff n b, eq_iff n a));
  remove_same = λ name w n h. ground (arith, eq_iff n name);
}

-- No ID has the name of the temporary file.
abbrev file_name : String → String
file_name id = if str_eq id "temp" then "temp.json" else id

abbrev store : FileStore
store = record { directory = "checkpoints" }

abbrev marshal : Checkpoint → Reply Checkpoint
marshal cp = ok cp

decodes : (cp blob : Checkpoint) → marshal cp ≡ ok blob → marshal blob ≡ ok cp
decodes cp blob q = cc

abbrev background : Option (Context Files)
background = some (record { cause = λ w. (none, w); err = λ w. (none, w); fencing_token = 0 })

file_name-temp : (id : String) → "temp" ≢ file_name id
file_name-temp id = λ e. elim (Bool-cases (str_eq id "temp")) [
  | inl b ↦ false≢true ((eq_iff "temp" "temp.json").1 (rw b at e))
  | inr b ↦ false≢true (sym b ∙ (eq_iff id "temp").1 (sym (rw b at e)))
]

apart :
    (w : Files) (temp id : String)
    → (disk.create_temp store.directory w).0 ≡ ok temp
    → temp ≢ file_path disk file_name store id
unfolding file_path
apart w temp id q = λ e. file_name-temp id (named q ∙ e)
  where
    named : ◌≡◌ {A = Reply String} (ok "temp") (ok temp) → "temp" ≡ temp
    named h = cc

empty : Files
empty id = none

write-Atomic_example :
    Atomic disk file disk-Lawful utf8_valid marshal marshal file_name store apart background
      (λ w n. refl)
      pending
      true
      empty
      (write disk utf8_valid marshal marshal file_name store background pending true empty)
write-Atomic_example =
    write-Atomic disk file disk-Lawful utf8_valid marshal marshal file_name store apart background
      (λ w n. refl) pending true empty

created :
    (write disk utf8_valid marshal marshal file_name store background pending true empty).0 ≡ none
unfolding write check_store_context check_current publish write_temp sync_directory empty
created = rw (pending-valid, write) refl

alive :
    (w : Files)
    → ((check_store_context background w).0 ≡ none) × ((context_err background w).0 ≡ none)
unfolding check_store_context
alive w = (refl, refl)

file_write-load_example :
    (load disk utf8_valid marshal marshal file_name store background "run-1"
      (write disk utf8_valid marshal marshal file_name store background pending true empty).1).0
    ≡ ok pending
file_write-load_example =
    file_write-load disk file disk-Lawful utf8_valid marshal marshal file_name store background
      (λ w n. refl) decodes (λ w n b h. rw h refl) alive apart pending true empty created

-- The file of a checkpoint without a revision.
abbrev saved : Files
saved n = some pending

accepted :
    (write disk utf8_valid marshal marshal file_name store background pending false saved).0 ≡ none
unfolding write check_store_context check_current publish write_temp sync_directory load decode_file
    validate_checkpoint valid_transition validate_decision contains
accepted = refl

write-found_example :
    (blob : Checkpoint) × (current : Checkpoint) × (file saved
        (file_path disk file_name store "run-1")
      ≡ some blob)
    × (decode_file disk utf8_valid marshal marshal file_name "run-1" blob ≡ ok current)
    × ((current.revision ≡ 0) ⊎ (current.revision < pending.revision))
write-found_example =
    write-found disk file disk-Lawful utf8_valid marshal marshal file_name store background
      (λ w n. refl) pending saved accepted
