-- ===== src/Plugin/State/RoundTrip.antt =====
-- What saveState and saveNetworks of pkg/plugin/state.go write, loadState and loadNetworks read.
use mathlib.Core.Option
use docker_network_dhcp.Base.{
  ◌≡◌, refl, ◌≢◌, inl, inr, Option, none, some, List, [], ◌∷◌, GoString, All, map, arith, ◌∙◌,
}
use docker_network_dhcp.Base.GoMap.{GoMap, lookup, values, insert}
use docker_network_dhcp.Base.Keyed.{SameElements, IsKeyed, fill, lookup-fill}
use docker_network_dhcp.Util.Outcome.{ok, wrap}
use docker_network_dhcp.Plugin.Disk.{
  Disk, File, Journal, Faults, make_dir, become, write_file, Texts,
}
use docker_network_dhcp.Plugin.Disk.Atomic.{new_file, begin, write_file-Ends}
use docker_network_dhcp.Plugin.State.{
  EndpointState, NetworkState, Codec, stamp, state_file, state_temp, save_state, state_texts,
  load_state, index_state, index_networks, save_networks, load_networks, networks_file,
  networks_temp, networks_texts, read_with, mapped,
}
use docker_network_dhcp.Plugin.State.Save.{save_state_atomic}

-- encoding/json on values that it can write: the text is not empty and reads back as the values.
-- Which values those are (strings of valid UTF-8) is a parameter.
pub record IsLossless {E : Type 0} (c : Codec E) (Writable : E → Type 0) : Type 0 where
  pub round :
      (xs : List E)
      → All Writable xs
      → (text : GoString) × (c.encode xs ≡ ok text) × (text ≢ []) × (c.decode text ≡ ok xs)

-- The operating system refuses nothing.
pub record IsQuiet (f : Faults) : Type 0 where
  pub mkdir : f.mkdir ≡ none
  pub create : f.create ≡ none
  pub chmod : f.chmod ≡ none
  pub write : f.write ≡ none
  pub sync : f.sync ≡ none
  pub close : f.close ≡ none
  pub rename : f.rename ≡ none

write_file-quiet :
    (t : Texts) (f : Faults) (tmp target text : GoString) (j : Journal)
    → IsQuiet f
    → (write_file t f tmp target text j).0 ≡ ok tt
unfolding write_file
write_file-quiet t f tmp target text j q =
    rw (q.create, q.chmod, q.write, q.sync, q.close, q.rename)

index_state-eq-fill :
    (out : GoMap EndpointState) (es : List EndpointState)
    → index_state out (map stamp es) ≡ fill (λ e. e.endpoint_id) stamp out es
unfolding index_state fill stamp
index_state-eq-fill out [] = refl
index_state-eq-fill out (e ∷ es) = index_state-eq-fill (insert e.endpoint_id (stamp e) out) es

index_networks-eq-fill :
    (out : GoMap NetworkState) (es : List NetworkState)
    → index_networks out es ≡ fill (λ e. e.network_id) (λ e. e) out es
unfolding index_networks fill
index_networks-eq-fill out [] = refl
index_networks-eq-fill out (e ∷ es) = index_networks-eq-fill (insert e.network_id e out) es

-- Reading a file that holds a text which decodes.
read_back :
    {E B : Type 0} (c : Codec E) (o : Option File) (text : GoString) (xs : List E) (g : List E → B)
    (txt txt' : GoString) (empty : B)
    → o ≡ some (new_file text)
    → text ≢ []
    → c.decode text ≡ ok xs
    → read_with none o txt empty (λ x. mapped g (wrap txt' (c.decode x))) ≡ ok (g xs)
read_back c o text xs g txt txt' empty p full back = rw p (rw back (ground arith))

saved_state :
    (f : Faults) (c : Codec EndpointState) (order : List EndpointState → List EndpointState)
    (m : GoMap EndpointState) (d : Disk) (text : GoString)
    → IsQuiet f
    → c.encode (map stamp (order (values m))) ≡ ok text
    → lookup state_file (save_state f c order m (begin d)).1.disk.files ≡ some (new_file text)
saved_state f c order m d text q e = elim (save_state_atomic f c order m d).decided [
  | inl (p, (text', e', n)) ↦ cc (e, e', n)
  | inr (no_ok, old) ↦ absurd (no_ok succeeds)
]
  where
    succeeds : (save_state f c order m (begin d)).0 ≡ ok tt
    succeeds =
        unfold save_state in
        rw (q.mkdir, e) (write_file-quiet state_texts f (state_temp f.random) state_file text _ q)

-- A save that the system does not refuse, read back: every entry is there under its key, with the
-- current version, and no other, whatever the order of iteration.
pub load_state-save_state :
    (f : Faults) (c : Codec EndpointState) (order : List EndpointState → List EndpointState)
    (m : GoMap EndpointState) (d : Disk) {Writable : EndpointState → Type 0}
    → IsQuiet f
    → IsLossless c Writable
    → SameElements (order (values m)) (values m)
    → IsKeyed (λ e. e.endpoint_id) m
    → All Writable (map stamp (order (values m)))
    → (loaded : GoMap EndpointState) × (load_state c none (save_state f c order m (begin d)).1.disk
        ≡ ok loaded)
      × ((k : GoString) → lookup k loaded ≡ Option.map stamp (lookup k m))
unfolding load_state
load_state-save_state f c order m d q law same keyed fits =
    let (text, e, full, back) = law.round (map stamp (order (values m))) fits in
    (
      index_state [] (map stamp (order (values m))),
      read_back c _ text (map stamp (order (values m))) (index_state []) _ _ []
          (saved_state f c order m d text q e) full back,
      λ k.
          rw index_state-eq-fill
            (lookup-fill (λ e. e.endpoint_id) stamp m (order (values m)) k keyed same),
    )

networks_temp-ne-networks_file : (random : GoString) → networks_temp random ≢ networks_file
unfolding networks_temp networks_file
networks_temp-ne-networks_file random e = ground arith

saved_networks :
    (f : Faults) (c : Codec NetworkState) (order : List NetworkState → List NetworkState)
    (m : GoMap NetworkState) (d : Disk) (text : GoString)
    → IsQuiet f
    → c.encode (order (values m)) ≡ ok text
    → lookup networks_file (save_networks f c order m (begin d)).1.disk.files ≡ some (new_file text)
unfolding save_networks
saved_networks f c order m d text q e =
    rw (q.mkdir, e)
      (elim (write_file-Ends networks_texts f (networks_temp f.random) networks_file text _
        (networks_temp-ne-networks_file f.random) (become make_dir (begin d))
        (inl refl, (inl refl, tt)) refl).1 [
          | inl (p, n) ↦ n
          | inr ((x, p), old) ↦ cc (
            p,
            write_file-quiet networks_texts f (networks_temp f.random) networks_file text
                (become make_dir (begin d)) q,
          )
        ])

map_id : {V : Type 0} (o : Option V) → Option.map (λ v. v) o ≡ o
map_id none = refl
map_id (some v) = refl

-- The table of networks, saved and read back, answers every lookup as before.
load_networks-save_networks :
    (f : Faults) (c : Codec NetworkState) (order : List NetworkState → List NetworkState)
    (m : GoMap NetworkState) (d : Disk) {Writable : NetworkState → Type 0}
    → IsQuiet f
    → IsLossless c Writable
    → SameElements (order (values m)) (values m)
    → IsKeyed (λ e. e.network_id) m
    → All Writable (order (values m))
    → (loaded : GoMap NetworkState) × (load_networks c none
          (save_networks f c order m (begin d)).1.disk
        ≡ ok loaded)
      × ((k : GoString) → lookup k loaded ≡ lookup k m)
unfolding load_networks
load_networks-save_networks f c order m d q law same keyed fits =
    let (text, e, full, back) = law.round (order (values m)) fits in
    (
      index_networks [] (order (values m)),
      read_back c _ text (order (values m)) (index_networks []) _ _ []
          (saved_networks f c order m d text q e) full back,
      λ k. rw index_networks-eq-fill (
          lookup-fill (λ e. e.network_id) (λ e. e) m (order (values m)) k keyed same
          ∙ map_id (lookup k m)),
    )
