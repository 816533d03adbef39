-- ===== src/Daemon/Socket.antt =====
-- The socket path that resolveSocketPath of cmd/net-dhcp/main.go finds by itself.
use docker_network_dhcp.Base.{
  ◌≡◌, refl, ◌⊎◌, inl, inr, true, false, some, List, [], ◌∷◌, ◌++◌, GoString, All, Bool-cases,
  GoString-discrete,
}
use docker_network_dhcp.Daemon.{DirEntry, plugin_dirs, of_dirs, resolve_socket_path}

-- The directory `d` is the only one among the entries.
pub record IsOnlyDir (d : GoString) (es : List DirEntry) : Type 0 where
  pub before : List DirEntry
  pub entry : DirEntry
  pub after : List DirEntry
  pub whole : es ≡ before ++ (entry ∷ after)
  pub named : entry.name ≡ d
  pub dir : entry.is_dir ≡ true
  pub files_before : All (λ e. e.is_dir ≡ false) before
  pub files_after : All (λ e. e.is_dir ≡ false) after

plugin_dirs-files : (es : List DirEntry) → All (λ e. e.is_dir ≡ false) es → plugin_dirs es ≡ []
unfolding plugin_dirs
plugin_dirs-files [] h = refl
plugin_dirs-files (e ∷ es) (h, hs) = rw h (plugin_dirs-files es hs)

plugin_dirs-eq-nil : (es : List DirEntry) → plugin_dirs es ≡ [] → All (λ e. e.is_dir ≡ false) es
unfolding plugin_dirs
plugin_dirs-eq-nil [] h = tt
plugin_dirs-eq-nil (e ∷ es) h = elim (Bool-cases e.is_dir) [
  | inl c ↦ cc (rw c at h)
  | inr c ↦ (c, plugin_dirs-eq-nil es (rw c at h))
]

plugin_dirs-IsOnlyDir :
    (d : GoString) (es : List DirEntry) → plugin_dirs es ≡ d ∷ [] → IsOnlyDir d es
unfolding plugin_dirs
plugin_dirs-IsOnlyDir d [] h = cc
plugin_dirs-IsOnlyDir d (e ∷ es) h = elim (Bool-cases e.is_dir) [
  | inl c ↦ record {
    before = [];
    entry = e;
    after = es;
    whole = refl;
    named = cc (rw c at h);
    dir = c;
    files_before = tt;
    files_after = plugin_dirs-eq-nil es (cc (rw c at h));
  }
  | inr c ↦
      let o = plugin_dirs-IsOnlyDir d es (rw c at h) in
      record {
        before = e ∷ o.before;
        entry = o.entry;
        after = o.after;
        whole = cc (o.whole);
        named = o.named;
        dir = o.dir;
        files_before = (c, o.files_before);
        files_after = o.files_after;
      }
]

plugin_dirs_prefix :
    (before es : List DirEntry)
    → All (λ e. e.is_dir ≡ false) before
    → plugin_dirs (before ++ es) ≡ plugin_dirs es
unfolding plugin_dirs
plugin_dirs_prefix [] es h = refl
plugin_dirs_prefix (e ∷ before) es (h, hs) = rw h (plugin_dirs_prefix before es hs)

IsOnlyDir-plugin_dirs :
    (d : GoString) (es : List DirEntry) → IsOnlyDir d es → plugin_dirs es ≡ d ∷ []
unfolding plugin_dirs
IsOnlyDir-plugin_dirs d es o =
    rw (o.whole, plugin_dirs_prefix o.before (o.entry ∷ o.after) o.files_before)
      (rw (o.dir, plugin_dirs-files o.after o.files_after, o.named) refl)

module _ (join_path : List GoString → GoString) (plugins_dir socket_name : GoString) where
  of_dirs_cases :
      (es : List DirEntry) (ds : List GoString)
      → plugin_dirs es ≡ ds
      → ((d : GoString) × IsOnlyDir d es
          × (of_dirs join_path plugins_dir socket_name ds
              ≡ join_path (plugins_dir ∷ d ∷ socket_name ∷ [])))
        ⊎ (((d : GoString) → ¬ IsOnlyDir d es)
            × (of_dirs join_path plugins_dir socket_name ds
                ≡ join_path (plugins_dir ∷ socket_name ∷ [])))
  of_dirs_cases es [] h = inr (λ d o. cc (IsOnlyDir-plugin_dirs d es o, h), refl)
  of_dirs_cases es (d ∷ []) h = inl (d, plugin_dirs-IsOnlyDir d es h, refl)
  of_dirs_cases es (d ∷ d' ∷ ds) h = inr (λ x o. cc (IsOnlyDir-plugin_dirs x es o, h), refl)

  -- Without a flag and a variable, and with a directory that can be read, the path goes through
  -- the one directory among the entries, and is the one beside them if there is none or more.
  resolve_socket_path_cases :
      (es : List DirEntry)
      → ((d : GoString) × IsOnlyDir d es
          × (resolve_socket_path join_path [] [] plugins_dir socket_name (some es)
              ≡ join_path (plugins_dir ∷ d ∷ socket_name ∷ [])))
        ⊎ (((d : GoString) → ¬ IsOnlyDir d es)
            × (resolve_socket_path join_path [] [] plugins_dir socket_name (some es)
                ≡ join_path (plugins_dir ∷ socket_name ∷ [])))
  unfolding resolve_socket_path GoString-discrete
  resolve_socket_path_cases es = of_dirs_cases es (plugin_dirs es) refl
