-- ===== src/Plugin/Restore/Addresses.antt =====
-- The addresses that restoreFromState of pkg/plugin/plugin.go takes from the namespace.
use docker_network_dhcp.Base.{
  ◌≡◌, refl, ap, ℕ, Bool, true, false, Option, none, some, List, [], ◌∷◌, ◌++◌, All, Bool-cases,
  inl, inr,
}
use docker_network_dhcp.Util.Errors.{GoError}
use docker_network_dhcp.Util.Outcome.{ok, given_ok, wrap, wrap-ok}
use docker_network_dhcp.Plugin.Types.{Addr, Link}
use docker_network_dhcp.Plugin.Manager.Start.{Sandbox}
use docker_network_dhcp.Plugin.Restore.{first_global, found_or, current_v4, current_v6}

module _ {W : Type 0} (box : Sandbox W) where
  abbrev pub Local : Addr → Type 0
  Local a = box.is_global_unicast a ≡ false

  -- The address is the first global one of the list, or there is none in it.
  abbrev pub IsFirst : List Addr → Option Addr → Type 0
  IsFirst addrs none = All Local addrs
  IsFirst addrs (some a) =
      (before : List Addr) × (after : List Addr) × (addrs ≡ before ++ (a ∷ after))
      × All Local before
      × (box.is_global_unicast a ≡ true)

  IsFirst-cons :
      (x : Addr) (addrs : List Addr) (o : Option Addr)
      → Local x
      → IsFirst addrs o
      → IsFirst (x ∷ addrs) o
  IsFirst-cons x addrs none l h = (l, h)
  IsFirst-cons x addrs (some a) l (before, after, e, all, g) =
      (x ∷ before, after, ap (λ t. x ∷ t) e, (l, all), g)

  first_global-IsFirst : (addrs : List Addr) → IsFirst addrs (first_global box addrs)
  unfolding first_global
  first_global-IsFirst [] = tt
  first_global-IsFirst (x ∷ addrs) =
      let later = first_global-IsFirst addrs in
      elim (Bool-cases (box.is_global_unicast x)) [
        | inl global ↦ rw global ([], addrs, refl, tt, global)
        | inr local ↦ rw local (IsFirst-cons x addrs (first_global box addrs) local later)
      ]

  -- The address is the first global one of a list that the namespace gave for the family.
  abbrev pub IsListed : ℕ → Option Addr → Type 0
  IsListed family o =
      (link : Link) × (w : W) × (addrs : List Addr) × ((box.addr_list link family w).0 ≡ ok addrs)
      × IsFirst addrs o

  pub current_v4-ok :
      (link : Link) (w : W) {a : Addr} → (current_v4 box link w).0 ≡ ok a → IsListed 2 (some a)
  unfolding current_v4
  current_v4-ok link w e = given_ok (wrap _ (box.addr_list link 2 w).0) _ _ e λ addrs he1 e1.
      (link, w, addrs, wrap-ok _ _ he1, as_first addrs (of_found _ (first_global box addrs) e1))
    where
      of_found : (x : GoError) (o : Option Addr) {a : Addr} → found_or box x o ≡ ok a → o ≡ some a
      of_found x none q = cc
      of_found x (some b) q = cc (q)

      as_first :
          (addrs : List Addr) {o : Option Addr} → first_global box addrs ≡ o → IsFirst addrs o
      as_first addrs q = rw (← q) (first_global-IsFirst addrs)

  pub current_v6-ok :
      (v6 : Bool) (link : Link) (w : W) {a : Option Addr}
      → (current_v6 box v6 link w).0 ≡ ok a
      → (v6 ≡ false → a ≡ none) × (v6 ≡ true → IsListed 10 a)
  unfolding current_v6
  current_v6-ok false link w e = (λ f. cc (e), λ f. cc)
  current_v6-ok true link w {a} e = (
    λ f. cc,
    λ f.
        given_ok (wrap _ (box.addr_list link 10 w).0) _ _ e
          λ addrs he1 e1. (link, w, addrs, wrap-ok _ _ he1, as_first addrs e1),
  )
    where
      as_first : (addrs : List Addr) → ok (first_global box addrs) ≡ ok a → IsFirst addrs a
      as_first addrs q =
          let same : first_global box addrs ≡ a = cc (q) in rw (← same) (first_global-IsFirst addrs)
