-- ===== src/Tests/Codecs.antt =====
-- A codec in unary, and the answers of the operating system during a save.
use docker_network_dhcp.Base.{◌≡◌, refl, none, some, List, [], ◌∷◌, GoString, go, All, ap}
use docker_network_dhcp.Util.Errors.{other}
use docker_network_dhcp.Util.Outcome.{ok}
use docker_network_dhcp.Plugin.Disk.{Faults}
use docker_network_dhcp.Plugin.State.{Codec}
use docker_network_dhcp.Plugin.State.RoundTrip.{IsLossless, IsQuiet}

-- The disk is full after two bytes.
abbrev pub full_disk : Faults
full_disk = record {
  mkdir = none;
  create = none;
  chmod = none;
  write = some (other (go "no space left"));
  written = 2;
  sync = none;
  close = none;
  rename = none;
  random = 1 ∷ [];
}

abbrev pub quiet : Faults
quiet = record full_disk { write = none }

-- A codec for lists that hold nothing but copies of one value: their length in unary.
abbrev pub ones : {E : Type 0} → List E → GoString
ones [] = []
ones (x ∷ xs) = 1 ∷ ones xs

abbrev pub copies : {E : Type 0} → E → GoString → List E
copies e [] = []
copies e (n ∷ s) = e ∷ copies e s

abbrev pub behind_head : {E : Type 0} → E → GoString → List E
behind_head e [] = []
behind_head e (n ∷ s) = copies e s

abbrev pub unary : {E : Type 0} → E → Codec E
unary e = record { encode = λ xs. ok (0 ∷ ones xs); decode = λ s. ok (behind_head e s) }

copies-ones : {E : Type 0} (e : E) (xs : List E) → All (λ x. x ≡ e) xs → copies e (ones xs) ≡ xs
copies-ones e [] h = refl
copies-ones e (x ∷ xs) h = cc (h.0, copies-ones e xs h.1)

pub unary-IsLossless : {E : Type 0} (e : E) → IsLossless (unary e) (λ x. x ≡ e)
unary-IsLossless e = record {
  round = λ xs h. (0 ∷ ones xs, refl, λ p. cc, ap ok (copies-ones e xs h));
}

pub quiet-IsQuiet : IsQuiet quiet
quiet-IsQuiet = record {
  mkdir = refl;
  create = refl;
  chmod = refl;
  write = refl;
  sync = refl;
  close = refl;
  rename = refl;
}
