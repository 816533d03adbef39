-- ===== src/Base/Keyed.antt =====
-- Maps whose entries carry their own key, their listing in any order, and the loop that fills a
-- map from a list.
use mathlib.Core.Option
use docker_network_dhcp.Base.{
  ◌≡◌, refl, ◌≢◌, ◌⊎◌, inl, inr, ◌↔◌, none, some, List, [], ◌∷◌, arith, GoString, sym, ◌∙◌, ap,
  Option-cases,
}
use docker_network_dhcp.Base.GoMap.{
  GoMap, lookup, insert, delete, values, lookup-insert, lookup-delete,
}

-- A list has the element `x`.
abbrev pub In : {A : Type 0} → A → List A → Type 0
In x [] = ⊥
In x (y ∷ ys) = (x ≡ y) ⊎ In x ys

-- The same elements, in any order and as often as may be.
abbrev pub SameElements : {A : Type 0} → List A → List A → Type 0
SameElements xs ys = (a : _) → In a xs ↔ In a ys

module _ {E : Type 0} (id : E → GoString) where
  abbrev pub IsKeyed : GoMap E → Type 0
  IsKeyed [] = Unit
  IsKeyed ((k, e) ∷ m) = (id e ≡ k) × (lookup k m ≡ none) × IsKeyed m

  pub insert-IsKeyed :
      (k : GoString) (e : E) (m : GoMap E) → id e ≡ k → IsKeyed m → IsKeyed (insert k e m)
  unfolding insert lookup
  insert-IsKeyed k e [] p u = (p, refl, tt)
  insert-IsKeyed k e ((j, x) ∷ m) p (q, fresh, u) =
      ground (arith, insert-IsKeyed k e m p u, lookup-insert k j e m)

  pub delete-IsKeyed : (k : GoString) (m : GoMap E) → IsKeyed m → IsKeyed (delete k m)
  unfolding delete
  delete-IsKeyed k [] u = tt
  delete-IsKeyed k ((j, x) ∷ m) (q, fresh, u) =
      ground (arith, delete-IsKeyed k m u, lookup-delete k j m)

  -- The value under a key carries that key, and is listed.
  pub lookup-In :
      (k : GoString) (e : E) (m : GoMap E)
      → IsKeyed m
      → lookup k m ≡ some e
      → (id e ≡ k) × In e (values m)
  unfolding lookup values
  lookup-In k e [] u h = cc
  lookup-In k e ((j, x) ∷ m) (q, fresh, u) h = ground (arith, lookup-In k e m u)

  -- Every listed value stands under its own key.
  pub In-lookup : (e : E) (m : GoMap E) → IsKeyed m → In e (values m) → lookup (id e) m ≡ some e
  unfolding lookup values
  In-lookup e [] u h = elim h [ ]
  In-lookup e ((j, x) ∷ m) (q, fresh, u) (inl p) = ground arith
  In-lookup e ((j, x) ∷ m) (q, fresh, u) (inr h) = ground (arith, In-lookup e m u h)

  module _ (g : E → E) where
    -- `for _, e := range es { out[id(e)] = g(e) }`
    unfoldable pub fill : GoMap E → List E → GoMap E
    fill out [] = out
    fill out (e ∷ es) = fill (insert (id e) (g e) out) es

    fill_absent :
        (k : GoString) (es : List E) (out : GoMap E)
        → ((e : E) → In e es → id e ≢ k)
        → lookup k (fill out es) ≡ lookup k out
    unfolding fill
    fill_absent k [] out none_there = refl
    fill_absent k (e ∷ es) out none_there =
        fill_absent k es _ (λ x i. none_there x (inr i))
        ∙ ground (arith, lookup-insert (id e) k (g e) out, none_there e (inl refl))

    fill_present :
        (k : GoString) (v : E) (es : List E) (out : GoMap E)
        → ((e : E) → In e es → id e ≡ k → g e ≡ v)
        → (lookup k out ≡ some v) ⊎ ((e : E) × In e es × (id e ≡ k))
        → lookup k (fill out es) ≡ some v
    unfolding fill
    fill_present k v [] out only (inl h) = h
    fill_present k v [] out only (inr (e, i, p)) = elim i [ ]
    fill_present k v (x ∷ es) out only (inl h) =
        fill_present k v es _ (λ e i. only e (inr i))
          (inl (ground (arith, lookup-insert (id x) k (g x) out, only x (inl refl))))
    fill_present k v (x ∷ es) out only (inr (e, inl p, q)) =
        fill_present k v es _ (λ e i. only e (inr i))
          (inl (
            ground (
              arith,
              lookup-insert (id x) k (g x) out,
              only x (inl refl) (ap id (sym p) ∙ q),
              ap id p,
            )))
    fill_present k v (x ∷ es) out only (inr (e, inr i, q)) =
        fill_present k v es _ (λ e i. only e (inr i)) (inr (e, i, q))

    -- Filling from a listing of a keyed map, in any order, gives its entries under `g`.
    pub lookup-fill :
        (m : GoMap E) (es : List E) (k : GoString)
        → IsKeyed m
        → SameElements es (values m)
        → lookup k (fill [] es) ≡ Option.map g (lookup k m)
    unfolding lookup
    lookup-fill m es k u same = elim (Option-cases (lookup k m)) [
      | inl missing ↦
          rw missing (fill_absent k es [] (λ e i p. cc (In-lookup e m u ((same e).0 i))))
      | inr (v, there) ↦ rw there (
          fill_present k (g v) es [] (λ e i p. cc (In-lookup e m u ((same e).0 i)))
            (inr (v, (same v).1 (lookup-In k v m u there).1, (lookup-In k v m u there).0)))
    ]
