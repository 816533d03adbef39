-- ===== src/Util/Outcome.antt =====
-- How a Go call ends: with a value, with an error, or by a panic.
use docker_network_dhcp.Base.{◌≡◌, ◌≢◌, refl, GoString}
use docker_network_dhcp.Util.Errors.{GoError, wrapped}

pub data Outcome {ℓ} (A : Type ℓ) : Type ℓ where
  ok : A → Outcome A
  err : GoError → Outcome A
  panic : Outcome A

-- `if err != nil { return fmt.Errorf("prefix: %w", err) }`
abbrev pub wrap {ℓ} : {A : Type ℓ} → GoString → Outcome A → Outcome A
wrap prefix (ok a) = ok a
wrap prefix (err e) = err (wrapped prefix e)
wrap prefix panic = panic

-- A call that may change a state `S`. What was written before an error or a panic stays written.
abbrev pub Act {ℓ} : Type ℓ → Type ℓ → Type ℓ
Act S A = S → Outcome A × S

module _ {ℓ} {S A B : Type ℓ} where
  abbrev pub continue : Outcome A → (A → Act S B) → Act S B
  continue (ok a) f s = f a s
  continue (err e) f s = (err e, s)
  continue panic f s = (panic, s)

  infixl 10 ◌>>=◌ ◌>>◌
  abbrev pub ◌>>=◌ : Act S A → (A → Act S B) → Act S B
  ◌>>=◌ m f s = let (outcome, after) = m s in continue outcome f after

  abbrev pub ◌>>◌ : Act S A → Act S B → Act S B
  m >> n = m >>= λ _. n

module _ {ℓ} {S A : Type ℓ} where
  abbrev pub pure : A → Act S A
  pure a s = (ok a, s)

  abbrev pub fail : GoError → Act S A
  fail e s = (err e, s)

  abbrev pub lift : Outcome A → Act S A
  lift r s = (r, s)

  abbrev pub wrapping : GoString → Act S A → Act S A
  wrapping prefix m s = let (r, s') = m s in (wrap prefix r, s')

  abbrev pub gets : (S → A) → Act S A
  gets f s = (ok (f s), s)

abbrev pub modify {ℓ} : {S : Type ℓ} → (S → S) → Act S (Unit {ℓ})
modify f s = (ok tt, f s)

-- Inversion of a step that succeeds.
pub >>=-eq-ok {ℓ} :
    {S A B : Type ℓ} (m : Act S A) (f : A → Act S B) (s : S) {b : B}
    → ((m >>= f) s).0 ≡ ok b
    → (a : A) × ((m s).0 ≡ ok a) × ((f a (m s).1).0 ≡ ok b) × (((m >>= f) s).1 ≡ (f a (m s).1).1)
>>=-eq-ok {S} {A} {B} m f s {b} h = of_step (m s).0 (m s).1 refl h
  where
    of_step :
        (o : Outcome A) (t : S)
        → (m s).0 ≡ o
        → (continue o f t).0 ≡ ok b
        → (a : A) × ((m s).0 ≡ ok a) × ((f a t).0 ≡ ok b) × ((continue o f t).1 ≡ (f a t).1)
    of_step (ok a) t e k = (a, e, k, refl)
    of_step (err x) t e k = cc
    of_step panic t e k = cc

module _ {ℓ κ} {S A B : Type ℓ} (P : S → Type κ) where
  -- What holds wherever the second step succeeds holds where both do.
  pub after_ok :
      (o : Outcome A) (f : A → Act S B) (t : S) {b : B}
      → (continue o f t).0 ≡ ok b
      → ((a : A) → (f a t).0 ≡ ok b → P (f a t).1)
      → P (continue o f t).1
  after_ok (ok a) f t h later = later a h
  after_ok (err x) f t h later = cc
  after_ok panic f t h later = cc

  pub after_step :
      (m : Act S A) (f : A → Act S B) (s : S) {b : B}
      → ((m >>= f) s).0 ≡ ok b
      → ((a : A) (t : S) → (f a t).0 ≡ ok b → P (f a t).1)
      → P ((m >>= f) s).1
  after_step m f s h later = after_ok (m s).0 f (m s).1 h λ a. later a (m s).1

  -- Where two steps end in an error, it is that of the first or of the second.
  pub after_err :
      (o : Outcome A) (f : A → Act S B) (t : S) {e : GoError}
      → (continue o f t).0 ≡ err e
      → P t
      → ((a : A) → (f a t).0 ≡ err e → P (f a t).1)
      → P (continue o f t).1
  after_err (ok a) f t h first later = later a h
  after_err (err x) f t h first later = first
  after_err panic f t h first later = first

-- A step that does not panic, followed by steps that do not and keep `P`.
pub continue-ne-panic {ℓ κ} :
    {S A B : Type ℓ} (P : S → Type κ) (o : Outcome A) (f : A → Act S B) (t : S)
    → o ≢ panic
    → P t
    → ((a : A) (u : S) → P u → ((f a u).0 ≢ panic) × P (f a u).1)
    → ((continue o f t).0 ≢ panic) × P (continue o f t).1
continue-ne-panic P (ok a) f t safe keeps later = later a t keeps
continue-ne-panic P (err e) f t safe keeps later = (λ q. cc, keeps)
continue-ne-panic P panic f t safe keeps later = absurd (safe refl)

pub wrap-ne-panic {ℓ} :
    {A : Type ℓ} (prefix : GoString) (o : Outcome A) → o ≢ panic → wrap prefix o ≢ panic
wrap-ne-panic prefix (ok a) safe = λ q. cc
wrap-ne-panic prefix (err e) safe = λ q. cc
wrap-ne-panic prefix panic safe = safe

-- What follows wherever the second step gives a value follows where both do.
pub given_ok {ℓ κ} :
    {S A B : Type ℓ} {P : Type κ} (o : Outcome A) (f : A → Act S B) (t : S) {b : B}
    → (continue o f t).0 ≡ ok b
    → ((a : A) → o ≡ ok a → (f a t).0 ≡ ok b → P)
    → P
given_ok (ok a) f t h later = later a refl h
given_ok (err e) f t h later = cc
given_ok panic f t h later = cc

pub wrap-ok {ℓ} :
    {A : Type ℓ} (text : GoString) (o : Outcome A) {a : A} → wrap text o ≡ ok a → o ≡ ok a
wrap-ok text (ok x) e = e
wrap-ok text (err x) e = cc
wrap-ok text panic e = cc
