-- ===== src/Plugin/Driver/Laws.antt =====
-- The matcher accepts exactly the image names that the expression describes.
use docker_network_dhcp.Base.{
  ◌≡◌, refl, ◌≢◌, ◌↔◌, ◌⊎◌, inl, inr, Bool, true, false, not, ◌||◌, ◌&&◌, Option, none, some, [],
  ◌∷◌, ◌++◌, GoString, go, ◌==ℕ◌, all, arith, ap, sym, ◌∙◌, append_assoc, ℕ,
}
use docker_network_dhcp.Plugin.Driver.{
  strip_prefix, line_to_end, match_dhcp, match_work, match_name, match_behind_slash, is_dhcp_plugin,
  newline, slash, then_match,
}

-- A tag: not empty, and on one line.
abbrev pub IsTag : GoString → Type 0
IsTag t = (t ≢ []) × (all (λ b. not (b ==ℕ newline)) t ≡ true)

-- A repository path before the name: nothing, or a text that ends in a slash.
abbrev pub IsRegistry : GoString → Type 0
IsRegistry p = (p ≡ []) ⊎ ((q : GoString) × (p ≡ q ++ (slash ∷ [])))

pub data IsPluginName (s : GoString) : Type 0 where
  short_name : (t : GoString) → IsTag t → s ≡ go "docker-net" ++ (go "-dhcp:" ++ t) → IsPluginName s
  full_name :
      (t : GoString)
      → IsTag t
      → s ≡ go "docker-net" ++ (go "work" ++ (go "-dhcp:" ++ t))
      → IsPluginName s

pub record IsPluginImage (driver : GoString) : Type 0 where
  pub registry : GoString
  pub name : GoString
  pub split : driver ≡ registry ++ name
  pub is_registry : IsRegistry registry
  pub is_name : IsPluginName name

strip_prefix-append : (p s : GoString) → strip_prefix p (p ++ s) ≡ some s
unfolding strip_prefix
strip_prefix-append [] s = refl
strip_prefix-append (c ∷ p) s = ground (arith, strip_prefix-append p s)

strip_prefix-eq_some : (p s r : GoString) → strip_prefix p s ≡ some r → s ≡ p ++ r
unfolding strip_prefix
strip_prefix-eq_some [] s r h = cc
strip_prefix-eq_some (c ∷ p) [] r h = cc
strip_prefix-eq_some (c ∷ p) (d ∷ s) r h = ground (arith, strip_prefix-eq_some p s r)

line_to_end_iff : (s : GoString) → (line_to_end s ≡ true) ↔ IsTag s
unfolding line_to_end
line_to_end_iff [] = (λ h. cc, λ h. absurd (h.0 refl))
line_to_end_iff (c ∷ s) = (λ h. (λ e. cc, h), λ h. h.1)

-- Matching `f` behind the prefix `p`.
then_match_iff :
    (f : GoString → Bool) (p s : GoString)
    → (then_match f (strip_prefix p s) ≡ true) ↔ ((r : GoString) × (s ≡ p ++ r) × (f r ≡ true))
then_match_iff f p s =
    (forth (strip_prefix p s) refl, λ (r, e, m). rw (e, strip_prefix-append p r) m)
  where
    forth :
        (o : Option GoString)
        → strip_prefix p s ≡ o
        → then_match f o ≡ true
        → (r : GoString) × (s ≡ p ++ r) × (f r ≡ true)
    forth none e h = cc
    forth (some r) e h = (r, strip_prefix-eq_some p s r e, h)

match_dhcp_iff :
    (s : GoString) → (match_dhcp s ≡ true) ↔ ((t : GoString) × (s ≡ go "-dhcp:" ++ t) × IsTag t)
unfolding match_dhcp
match_dhcp_iff s =
    let both = then_match_iff line_to_end (go "-dhcp:") s in
    (
      λ h. let (t, e, m) = both.0 h in (t, e, (line_to_end_iff t).0 m),
      λ (t, e, m). both.1 (t, e, (line_to_end_iff t).1 m),
    )

or_cases : (a b : Bool) → (a || b) ≡ true → (a ≡ true) ⊎ (b ≡ true)
or_cases true b h = inl refl
or_cases false b h = inr h

or_true : (a b : Bool) → (a ≡ true) ⊎ (b ≡ true) → (a || b) ≡ true
or_true true b h = refl
or_true false b h = ground arith

match_work_iff :
    (s : GoString)
    → (match_work s ≡ true)
      ↔ (((r : GoString) × (s ≡ go "work" ++ r) × (match_dhcp r ≡ true)) ⊎ (match_dhcp s ≡ true))
unfolding match_work
match_work_iff s =
    let both = then_match_iff match_dhcp (go "work") s in
    (
      λ h. elim (or_cases _ (match_dhcp s) h) [ inl w ↦ inl (both.0 w) | inr d ↦ inr d ],
      λ h. or_true _ (match_dhcp s) (elim h [ inl w ↦ inl (both.1 w) | inr d ↦ inr d ]),
    )

match_name_sound : (s : GoString) → match_name s ≡ true → IsPluginName s
unfolding match_name
match_name_sound s h =
    let (r, e, m) = (then_match_iff match_work (go "docker-net") s).0 h in
    elim ((match_work_iff r).0 m) [
      | inl (q, e', d) ↦
          let (t, e'', tag) = (match_dhcp_iff q).0 d in
          full_name t tag (e ∙ ap (λ x. go "docker-net" ++ x) (e' ∙ ap (λ x. go "work" ++ x) e''))
      | inr d ↦
          let (t, e'', tag) = (match_dhcp_iff r).0 d in
          short_name t tag (e ∙ ap (λ x. go "docker-net" ++ x) e'')
    ]

match_name_complete : (s : GoString) → IsPluginName s → match_name s ≡ true
unfolding match_name
match_name_complete s (short_name t tag e) =
    (then_match_iff match_work (go "docker-net") s).1
      (go "-dhcp:" ++ t, e, (match_work_iff _).1 (inr ((match_dhcp_iff _).1 (t, refl, tag))))
match_name_complete s (full_name t tag e) = (then_match_iff match_work (go "docker-net") s).1 (
  go "work" ++ (go "-dhcp:" ++ t),
  e,
  (match_work_iff _).1 (inl (go "-dhcp:" ++ t, refl, (match_dhcp_iff _).1 (t, refl, tag))),
)

abbrev SlashSplit : GoString → Type 0
SlashSplit s = (q : GoString) × (name : GoString) × (s ≡ q ++ (slash ∷ name)) × IsPluginName name

behind_slash_sound : (s : GoString) → match_behind_slash s ≡ true → SlashSplit s
unfolding match_behind_slash
behind_slash_sound [] h = cc
behind_slash_sound (c ∷ s) h = elim (or_cases (c ==ℕ slash && match_name s) _ h) [
  | inl here ↦ ([], s, at_slash c s here, match_name_sound s (name_of c s here))
  | inr later ↦
      let (q, name, e, n) = behind_slash_sound s later in (c ∷ q, name, ap (λ x. c ∷ x) e, n)
]
  where
    at_slash : (c : ℕ) (s : GoString) → (c ==ℕ slash && match_name s) ≡ true → c ∷ s ≡ slash ∷ s
    at_slash c s h = ground arith

    name_of : (c : ℕ) (s : GoString) → (c ==ℕ slash && match_name s) ≡ true → match_name s ≡ true
    name_of c s h = ground arith

behind_slash_complete :
    (q name : GoString) → IsPluginName name → match_behind_slash (q ++ (slash ∷ name)) ≡ true
unfolding match_behind_slash
behind_slash_complete [] name n = rw (match_name_complete name n)
behind_slash_complete (c ∷ q) name n = or_true _ _ (inr (behind_slash_complete q name n))

sound : (driver : GoString) → is_dhcp_plugin driver ≡ true → IsPluginImage driver
unfolding is_dhcp_plugin
sound driver h = elim (or_cases (match_name driver) _ h) [
  | inl here ↦ record {
    registry = [];
    name = driver;
    split = refl;
    is_registry = inl refl;
    is_name = match_name_sound driver here;
  }
  | inr later ↦
      let (q, name, e, n) = behind_slash_sound driver later in
      record {
        registry = q ++ (slash ∷ []);
        name = name;
        split = e ∙ sym (append_assoc q (slash ∷ []) name);
        is_registry = inr (q, refl);
        is_name = n;
      }
]

complete_at :
    (driver registry name : GoString)
    → driver ≡ registry ++ name
    → IsRegistry registry
    → IsPluginName name
    → is_dhcp_plugin driver ≡ true
unfolding is_dhcp_plugin
complete_at driver registry name e (inl blank) n =
    or_true (match_name driver) (match_behind_slash driver)
      (inl (rw (e, blank) (match_name_complete name n)))
complete_at driver registry name e (inr (q, path)) n =
    or_true (match_name driver) (match_behind_slash driver)
      (inr (rw (e, path, append_assoc) (behind_slash_complete q name n)))

complete : (driver : GoString) → IsPluginImage driver → is_dhcp_plugin driver ≡ true
complete driver i = complete_at driver i.registry i.name i.split i.is_registry i.is_name

-- The matcher accepts a driver exactly when it is an optional repository path that ends in a
-- slash, then `docker-net-dhcp` or `docker-network-dhcp`, then a colon and a tag of one line.
is_dhcp_plugin_iff : (driver : GoString) → (is_dhcp_plugin driver ≡ true) ↔ IsPluginImage driver
is_dhcp_plugin_iff driver = (sound driver, complete driver)
