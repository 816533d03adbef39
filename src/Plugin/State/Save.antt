-- ===== src/Plugin/State/Save.antt =====
-- saveState of pkg/plugin/state.go is atomic.
use docker_network_dhcp.Base.{
  ◌≡◌, refl, ap, ◌≢◌, ◌⊎◌, inl, inr, Option, none, some, List, [], ◌∷◌, GoString, go, All, map,
  arith,
}
use docker_network_dhcp.Base.GoMap.{GoMap, lookup, values}
use docker_network_dhcp.Util.Errors.{GoError}
use docker_network_dhcp.Util.Outcome.{Outcome, ok, err, panic, ◌>>=◌, ◌>>◌, wrapping, wrap, lift}
use docker_network_dhcp.Plugin.Disk.{
  File, Disk, Journal, IsLeftOf, Crash, Faults, make_dir, become, syscall, write_file,
}
use docker_network_dhcp.Plugin.Disk.Atomic.{new_file, begin, write_file-Ends, Ends}
use docker_network_dhcp.Plugin.State.{
  EndpointState, Codec, stamp, state_file, state_temp, save_state, state_texts,
}

pub state_temp-ne-state_file : (random : GoString) → state_temp random ≢ state_file
unfolding state_temp state_file
state_temp-ne-state_file random e = ground arith

module _ (f : Faults) (c : Codec EndpointState) (order : List EndpointState → List EndpointState)
    (m : GoMap EndpointState) (d : Disk) where
  -- What one save may leave under the name of the state file: the whole encoding of the entries.
  abbrev pub IsNew : Disk → Type 0
  IsNew d' =
      (text : GoString) × (c.encode (map stamp (order (values m))) ≡ ok text)
      × (lookup state_file d'.files ≡ some (new_file text))

  abbrev pub IsOld : Disk → Type 0
  IsOld d' = lookup state_file d'.files ≡ lookup state_file d.files

  abbrev pub IsOldLeft : Disk → Type 0
  IsOldLeft d' = IsLeftOf (lookup state_file d.files) (lookup state_file d'.files)

  pub record IsAtomicSave (r : Outcome (Unit {0})) (j : Journal) : Type 0 where
    -- at every moment
    pub never_torn : All (λ d'. IsOld d' ⊎ IsNew d') (j.disk ∷ j.past)
    -- wherever a crash falls: what it leaves of the old file, or the whole new one
    pub crashes :
        All (λ d'. (d'' : Disk) → Crash d' d'' → IsOldLeft d'' ⊎ IsNew d'') (j.disk ∷ j.past)
    -- exactly a save that succeeds has replaced the file
    pub decided : ((r ≡ ok tt) × IsNew j.disk) ⊎ ((r ≢ ok tt) × IsOld j.disk)

  left_new :
      (text : GoString) (o : Option File)
      → IsLeftOf (some (new_file text)) o
      → o ≡ some (new_file text)
  left_new text none h = absurd h
  left_new text (some file) h = ap (λ (x : File). some x) (h refl)

  outlives : (d' d'' : Disk) → IsOld d' ⊎ IsNew d' → Crash d' d'' → IsOldLeft d'' ⊎ IsNew d''
  outlives d' d'' (inl old) c = inl (rw old at (c state_file))
  outlives d' d'' (inr (text, e, new)) c =
      inr (text, e, left_new text (lookup state_file d''.files) (rw new at (c state_file)))

  all_outlive :
      (ds : List Disk)
      → All (λ d'. IsOld d' ⊎ IsNew d') ds
      → All (λ d'. (d'' : Disk) → Crash d' d'' → IsOldLeft d'' ⊎ IsNew d'') ds
  all_outlive [] h = tt
  all_outlive (x ∷ ds) (h, hs) = (λ d''. outlives x d'' h, all_outlive ds hs)

  atomic :
      (r : Outcome (Unit {0})) (j : Journal)
      → All (λ d'. IsOld d' ⊎ IsNew d') (j.disk ∷ j.past)
      → ((r ≡ ok tt) × IsNew j.disk) ⊎ ((r ≢ ok tt) × IsOld j.disk)
      → IsAtomicSave r j
  atomic r j seen end = record {
    never_torn = seen;
    crashes = all_outlive (j.disk ∷ j.past) seen;
    decided = end;
  }

  dir_made : Journal
  dir_made = become make_dir (begin d)

  abbrev Atomic : Outcome (Unit {0}) × Journal → Type 0
  Atomic (r, j) = IsAtomicSave r j

  All-OldOrNew :
      (text : GoString)
      → c.encode (map stamp (order (values m))) ≡ ok text
      → (ds : List Disk)
      → All
          (λ d'.
            (lookup state_file d'.files ≡ lookup state_file d.files)
            ⊎ (lookup state_file d'.files ≡ some (new_file text)))
          ds
      → All (λ d'. IsOld d' ⊎ IsNew d') ds
  All-OldOrNew text e [] h = tt
  All-OldOrNew text e (x ∷ ds) (inl o, h) = (inl o, All-OldOrNew text e ds h)
  All-OldOrNew text e (x ∷ ds) (inr n, h) = (inr (text, e, n), All-OldOrNew text e ds h)

  of_Ends :
      (text : GoString)
      → c.encode (map stamp (order (values m))) ≡ ok text
      → (r : Outcome (Unit {0})) (j : Journal)
      → Ends state_texts f
          (state_temp f.random)
          state_file
          text
          (lookup state_file d.files)
          (state_temp-ne-state_file f.random)
          (r, j)
      → IsAtomicSave r j
  of_Ends text e r j (seen, inl (p, n)) =
      atomic _ _ (All-OldOrNew text e (j.disk ∷ j.past) seen) (inl (p, (text, e, n)))
  of_Ends text e r j (seen, inr ((x, p), o)) =
      atomic _ _ (All-OldOrNew text e (j.disk ∷ j.past) seen) (inr (λ q. cc (p, q), o))

  encode_stage :
      (o : Outcome GoString)
      → c.encode (map stamp (order (values m))) ≡ o
      → Atomic (
          (lift (wrap (go "encode state") o) >>= λ text.
          write_file state_texts f (state_temp f.random) state_file text)
            dir_made)
  unfolding make_dir dir_made
  encode_stage (ok text) e = of_Ends text e _ _ (
      write_file-Ends state_texts f (state_temp f.random) state_file text
        (lookup state_file d.files) (state_temp-ne-state_file f.random) dir_made
        (inl refl, (inl refl, tt)) refl)
  encode_stage (err x) e = atomic _ _ ((inl refl, (inl refl, tt))) (inr (λ q. cc, refl))
  encode_stage panic e = atomic _ _ ((inl refl, (inl refl, tt))) (inr (λ q. cc, refl))

  mkdir_stage :
      (o : Option GoError)
      → Atomic (
          (wrapping (go "create state dir") (syscall o make_dir)
              >> (lift (wrap (go "encode state") (c.encode (map stamp (order (values m)))))
                  >>= λ text. write_file state_texts f (state_temp f.random) state_file text))
            (begin d))
  unfolding dir_made
  mkdir_stage none = encode_stage _ refl
  mkdir_stage (some x) = atomic _ _ ((inl refl, tt)) (inr (λ q. cc, refl))

-- Whatever the operating system refuses and wherever a crash falls, the state file holds its old
-- content, as far as that was on the medium, or the whole encoding of the new entries, and the save succeeds exactly if the file has
-- been replaced.
pub save_state_atomic :
    (f : Faults) (c : Codec EndpointState) (order : List EndpointState → List EndpointState)
    (m : GoMap EndpointState) (d : Disk)
    → IsAtomicSave f c order m d
        (save_state f c order m (begin d)).0
        (save_state f c order m (begin d)).1
unfolding save_state
save_state_atomic f c order m d = mkdir_stage f c order m d f.mkdir
