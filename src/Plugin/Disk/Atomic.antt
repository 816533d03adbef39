-- ===== src/Plugin/Disk/Atomic.antt =====
-- A save is atomic: at every moment, a crash included, the target holds its old content or the
-- whole new one.
use docker_network_dhcp.Base.{
  ℕ, ◌≡◌, refl, ◌≢◌, ◌⊎◌, inl, inr, Bool, true, false, Option, none, some, [], ◌∷◌, GoString, arith,
  All, take,
}
use docker_network_dhcp.Base.GoMap.{
  lookup, lookup-insert, lookup-delete, lookup-insert_self, lookup-delete_self,
}
use docker_network_dhcp.Util.Errors.{GoError}
use docker_network_dhcp.Util.Outcome.{Outcome, ok, err, Act, ◌>>◌, wrapping}
use docker_network_dhcp.Plugin.Disk.{
  File, Disk, Journal, Faults, Texts, write_file, fill_and_rename, private_mode, become, syscall,
  create_file, chmod_file, write_to, sync_file, remove_file, rename_file, write_data, finally,
}

abbrev pub new_file : GoString → File
new_file text = record { mode = private_mode; content = text; synced = true }

abbrev filled_file : GoString → Bool → File
filled_file text b = record { mode = private_mode; content = text; synced = b }

abbrev pub begin : Disk → Journal
begin d = record { disk = d; past = [] }

module _ (t : Texts) (f : Faults) (tmp target text : GoString) (was : Option File)
    (apart : tmp ≢ target) where
  abbrev pub OldOrNew : Disk → Type 0
  OldOrNew d' = (lookup target d'.files ≡ was) ⊎ (lookup target d'.files ≡ some (new_file text))

  -- The temporary file holds `content`, on the medium or not, and the target is as it was.
  record Working (content : GoString) (synced : Bool) (d' : Disk) : Type 0 where
    same : lookup target d'.files ≡ was
    filled : lookup tmp d'.files ≡ some (filled_file content synced)

  create-Working : (d : Disk) → lookup target d.files ≡ was → Working [] false (create_file tmp d)
  unfolding create_file
  create-Working d e = record {
    same = ground (arith, e, lookup-insert tmp target (filled_file [] false) d.files);
    filled = lookup-insert_self tmp (filled_file [] false) d.files;
  }

  chmod-Working :
      (c : GoString) (d' : Disk)
      → Working c false d'
      → Working c false (chmod_file tmp private_mode d')
  unfolding chmod_file
  chmod-Working c d' w = record {
    same =
        rw w.filled
          (ground (arith, w.same, lookup-insert tmp target (filled_file c false) d'.files));
    filled = rw w.filled (lookup-insert_self tmp (filled_file c false) d'.files);
  }

  write-Working :
      (x : GoString) (d' : Disk) → Working [] false d' → Working x false (write_to tmp x d')
  unfolding write_to
  write-Working x d' w = record {
    same =
        rw w.filled
          (ground (arith, w.same, lookup-insert tmp target (filled_file x false) d'.files));
    filled = rw w.filled (lookup-insert_self tmp (filled_file x false) d'.files);
  }

  sync-Working : (x : GoString) (d' : Disk) → Working x false d' → Working x true (sync_file tmp d')
  unfolding sync_file
  sync-Working x d' w = record {
    same =
        rw w.filled
          (ground (arith, w.same, lookup-insert tmp target (filled_file x true) d'.files));
    filled = rw w.filled (lookup-insert_self tmp (filled_file x true) d'.files);
  }

  rename-target :
      (d' : Disk)
      → Working text true d'
      → lookup target (rename_file tmp target d').files ≡ some (new_file text)
  unfolding rename_file
  rename-target d' w = rw w.filled (lookup-insert_self target (new_file text) _)

  remove-target : (d' : Disk) → lookup target (remove_file tmp d').files ≡ lookup target d'.files
  unfolding remove_file
  remove-target d' = ground (arith, lookup-delete tmp target d'.files)

  abbrev pub Seen : Journal → Type 0
  Seen j = All OldOrNew (j.disk ∷ j.past)

  -- A save that ends in an error has left the target alone; one that succeeds has replaced it.
  abbrev pub Ends : Outcome (Unit {0}) × Journal → Type 0
  Ends end =
      Seen end.1
      × (((end.0 ≡ ok tt) × (lookup target end.1.disk.files ≡ some (new_file text)))
          ⊎ (((e : GoError) × (end.0 ≡ err e)) × (lookup target end.1.disk.files ≡ was)))

  stage :
      (o : Option GoError) (op : Disk → Disk) (txt : GoString) (rest : Act Journal (Unit {0}))
      (j : Journal)
      → Seen j
      → (lookup target j.disk.files ≡ was)
      → Ends (rest (become op j))
      → Ends ((wrapping txt (syscall o op) >> rest) j)
  stage none op txt rest j seen old next = next
  stage (some e) op txt rest j seen old next = (seen, inr ((_, refl), old))

  last_stage :
      (o : Option GoError) (txt : GoString) (j : Journal)
      → Seen j
      → Working text true j.disk
      → Ends (wrapping txt (syscall o (rename_file tmp target)) j)
  last_stage none txt j seen w =
      ((inr (rename-target j.disk w), seen), inl (refl, rename-target j.disk w))
  last_stage (some e) txt j seen w = (seen, inr ((_, refl), w.same))

  abbrev write_with : Option GoError → ℕ → Act Journal (Unit {0})
  write_with o n = write_data (record f { write = o; written = n }) tmp text

  write_stage :
      (o : Option GoError) (n : ℕ) (txt : GoString) (rest : Act Journal (Unit {0})) (j : Journal)
      → Seen j
      → Working [] false j.disk
      → (Working text false (write_to tmp text j.disk) → Ends (rest (become (write_to tmp text) j)))
      → Ends ((wrapping txt (write_with o n) >> rest) j)
  write_stage none n txt rest j seen w next = next (write-Working text j.disk w)
  write_stage (some e) n txt rest j seen w next =
      let w' = write-Working (take n text) j.disk w in
      ((inl w'.same, seen), inr ((_, refl), w'.same))

  fill-Ends :
      (j : Journal)
      → Seen j
      → Working [] false j.disk
      → Ends (fill_and_rename t f tmp target text j)
  unfolding fill_and_rename
  fill-Ends j seen w =
      let w1 = chmod-Working [] j.disk w in
      let j1 : Journal = become (chmod_file tmp private_mode) j in
      let j2 : Journal = become (write_to tmp text) j1 in
      let j3 : Journal = become (sync_file tmp) j2 in
      stage f.chmod _ _ _ j seen w.same (
        write_stage f.write f.written _ _ j1 (inl w1.same, seen) w1
          (λ w2.
            let seen2 : Seen j2 = (inl w2.same, (inl w1.same, seen)) in
            let w3 = sync-Working text j2.disk w2 in
            let seen3 : Seen j3 = (inl w3.same, seen2) in
            stage f.sync _ _ _ j2 seen2 w2.same (
              stage f.close _ _ _ j3 seen3 w3.same
                (last_stage f.rename _ (become (λ x. x) j3) (inl w3.same, seen3) w3))))

  finally-Ends :
      (r : Outcome (Unit {0})) (j : Journal) → Ends (r, j) → Ends (r, become (remove_file tmp) j)
  finally-Ends r j (seen, how) = ground (arith, remove-target j.disk)

  create-stage :
      (o : Option GoError) (txt : GoString) (j : Journal)
      → Seen j
      → lookup target j.disk.files ≡ was
      → Ends (
          (wrapping txt (syscall o (create_file tmp))
              >> finally (become (remove_file tmp)) (fill_and_rename t f tmp target text))
            j)
  create-stage none txt j seen e =
      let w = create-Working j.disk e in
      finally-Ends _ _ (fill-Ends (become (create_file tmp) j) (inl w.same, seen) w)
  create-stage (some x) txt j seen e = (seen, inr ((_, refl), e))

  -- Whatever the operating system refuses, every state that the directory passes through holds
  -- the old target or the whole new one, a save that succeeds leaves the new one, and a save that
  -- fails leaves the old one.
  pub write_file-Ends :
      (j : Journal)
      → Seen j
      → lookup target j.disk.files ≡ was
      → Ends (write_file t f tmp target text j)
  unfolding write_file
  write_file-Ends j seen e = create-stage f.create t.create_text j seen e

module _ (t : Texts) (f : Faults) (tmp target text : GoString) where
  no_temp_after :
      (o : Option GoError) (txt : GoString) (j : Journal)
      → lookup tmp j.disk.files ≡ none
      → lookup tmp
          ((wrapping txt (syscall o (create_file tmp))
              >> finally (become (remove_file tmp)) (fill_and_rename t f tmp target text))
            j).1.disk.files
        ≡ none
  unfolding remove_file
  no_temp_after none txt j fresh = lookup-delete_self tmp _
  no_temp_after (some e) txt j fresh = fresh

  -- However a save ends, the temporary file is gone.
  write_file-no_temp :
      (j : Journal)
      → lookup tmp j.disk.files ≡ none
      → lookup tmp (write_file t f tmp target text j).1.disk.files ≡ none
  unfolding write_file
  write_file-no_temp j fresh = no_temp_after f.create t.create_text j fresh
