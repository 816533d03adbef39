-- ===== src/Plugin/Disk.antt =====
-- The files under stateDir, and the write by a temporary file and a rename that saveState and
-- saveNetworks of pkg/plugin/state.go share. The operating system is a record of the calls that
-- it refuses. Every state that the directory passes through is kept, since a crash may leave any, and
-- of a file whether its content is on the medium, since a crash may tear one that is not.
pub mod Atomic
use docker_network_dhcp.Base.{
  ℕ, ◌≡◌, Option, none, some, List, [], ◌∷◌, ◌++◌, GoString, go, Bool, take, if◌then◌else◌, true,
  false,
}
use docker_network_dhcp.Base.GoMap.{GoMap, lookup, insert, delete}
use docker_network_dhcp.Util.Errors.{GoError}
use docker_network_dhcp.Util.Outcome.{Outcome, ok, err, Act, ◌>>=◌, ◌>>◌, wrapping}

pub record File : Type 0 where
  pub mode : ℕ
  pub content : GoString
  -- has fsync put the content on the medium?
  pub synced : Bool

pub record Disk : Type 0 where
  -- whether stateDir exists
  pub dir : Bool
  pub files : GoMap File

-- The disk now, and the states that it has passed through, the latest first.
pub record Journal : Type 0 where
  pub disk : Disk
  pub past : List Disk

-- The answers of the operating system during one save: an error for each call that it refuses,
-- how much of a refused write reached the file, and the random part of the temporary name.
pub record Faults : Type 0 where
  pub mkdir : Option GoError
  pub create : Option GoError
  pub chmod : Option GoError
  pub write : Option GoError
  pub written : ℕ
  pub sync : Option GoError
  pub close : Option GoError
  pub rename : Option GoError
  pub random : GoString

-- What a crash leaves of a file: a content that is not on the medium may be anything.
abbrev pub IsLeftOf : Option File → Option File → Type 0
IsLeftOf none none = Unit
IsLeftOf none (some after) = ⊥
IsLeftOf (some file) none = ⊥
IsLeftOf (some file) (some after) = file.synced ≡ true → after ≡ file

-- What a crash leaves of the directory, as the names are at a moment. A crash that undoes a rename
-- leaves the names of an earlier moment.
abbrev pub Crash : Disk → Disk → Type 0
Crash d after = (name : GoString) → IsLeftOf (lookup name d.files) (lookup name after.files)

abbrev pub become : (Disk → Disk) → Journal → Journal
become f j = record { disk = f j.disk; past = j.disk ∷ j.past }

abbrev pub syscall : Option GoError → (Disk → Disk) → Act Journal (Unit {0})
syscall none f j = (ok tt, become f j)
syscall (some e) f j = (err e, j)

-- `os.MkdirAll(stateDir, 0o700)`
unfoldable pub make_dir : Disk → Disk
make_dir d = record d { dir = true }

abbrev pub private_mode : ℕ
private_mode = 0o600

-- `os.CreateTemp` makes an empty file.
unfoldable pub create_file : GoString → Disk → Disk
create_file name d = record d {
  files = insert name (record { mode = private_mode; content = []; synced = false }) d.files;
}

abbrev pub on_file : (File → File) → GoString → Option File → GoMap File → GoMap File
on_file f name none files = files
on_file f name (some file) files = insert name (f file) files

unfoldable pub chmod_file : GoString → ℕ → Disk → Disk
chmod_file name mode d = record d {
  files = on_file (λ file. record file { mode = mode }) name (lookup name d.files) d.files;
}

unfoldable pub write_to : GoString → GoString → Disk → Disk
write_to name text d = record d {
  files =
      on_file (λ file. record file { content = file.content ++ text; synced = false }) name
        (lookup name d.files) d.files;
}

-- `tmp.Sync()`
unfoldable pub sync_file : GoString → Disk → Disk
sync_file name d = record d {
  files = on_file (λ file. record file { synced = true }) name (lookup name d.files) d.files;
}

unfoldable pub remove_file : GoString → Disk → Disk
remove_file name d = record d { files = delete name d.files }

abbrev pub moved : GoString → GoString → Option File → GoMap File → GoMap File
moved old new none files = files
moved old new (some file) files = insert new file (delete old files)

-- `os.Rename` replaces the target at once.
unfoldable pub rename_file : GoString → GoString → Disk → Disk
rename_file old new d = record d { files = moved old new (lookup old d.files) d.files }

-- `tmp.Write(data)`; a refused write may leave a part of the data.
abbrev pub write_data : Faults → GoString → GoString → Act Journal (Unit {0})
write_data f name text j = elim f.write [
  | none ↦ (ok tt, become (write_to name text) j)
  | some e ↦ (err e, become (write_to name (take f.written text)) j)
]

-- `defer`: `last` runs however `m` ends.
abbrev pub finally : (Journal → Journal) → Act Journal (Unit {0}) → Act Journal (Unit {0})
finally last m j = let (r, j') = m j in (r, last j')

-- The texts that saveState and saveNetworks put before an error.
pub record Texts : Type 0 where
  pub create_text : GoString
  pub chmod_text : GoString
  pub write_text : GoString
  pub sync_text : GoString
  pub close_text : GoString
  pub rename_text : GoString

module _ (t : Texts) (f : Faults) where
  -- What happens while the temporary file exists.
  unfoldable pub fill_and_rename : GoString → GoString → GoString → Act Journal (Unit {0})
  unfolding chmod_file write_to sync_file rename_file
  fill_and_rename tmp target text = do
    wrapping t.chmod_text (syscall f.chmod (chmod_file tmp private_mode))
    wrapping t.write_text (write_data f tmp text)
    wrapping t.sync_text (syscall f.sync (sync_file tmp))
    wrapping t.close_text (syscall f.close (λ d. d))
    wrapping t.rename_text (syscall f.rename (rename_file tmp target))

  -- From `os.CreateTemp` on: the deferred removal follows whatever happens.
  unfoldable pub write_file : GoString → GoString → GoString → Act Journal (Unit {0})
  unfolding create_file remove_file fill_and_rename
  write_file tmp target text = do
    wrapping t.create_text (syscall f.create (create_file tmp))
    finally (become (remove_file tmp)) (fill_and_rename tmp target text)
