-- ===== src/Udhcpc/Collecting/Invariant.antt =====
-- What holds of the goroutines of GetIP at every moment.
use docker_network_dhcp.Base.{
  ◌≡◌, refl, ap, ◌∙◌, ◌⊎◌, inl, inr, Option, none, some, List, [], ◌∷◌, ◌++◌, GoString, All,
  All-append, append-nil, append_assoc,
}
use docker_network_dhcp.Util.Errors.{GoError}
use docker_network_dhcp.Util.Outcome.{Outcome, ok, err}
use docker_network_dhcp.Plugin.Env.{Info}
use docker_network_dhcp.Plugin.Manager.{Event}
use docker_network_dhcp.Udhcpc.{collect, finished_with, get_ip}
use docker_network_dhcp.Udhcpc.Pipe.{scan}
use docker_network_dhcp.Udhcpc.Collecting.Taken.{Decodes, info-collects, info-leaves_out}
use docker_network_dhcp.Udhcpc.Collecting.{
  Getter, waits, finished, returned, Collecting, at_start, Step, writes, exits, reads, leaves_out,
  collects, runs_dry, stops_early, is_told, finishes, gives_up, returns, Reach, here, next,
}

abbrev pub held_lines : Option (GoString × Event) → List GoString
held_lines none = []
held_lines (some (l, e)) = l ∷ []

module _ (decode : GoString → Outcome Event) where
  -- The result of Finish is the exit of the process, or the error of the context.
  abbrev pub Cause : Outcome (Unit {0}) → Option (Outcome (Unit {0})) → Type 0
  Cause o exit = (exit ≡ some o) ⊎ ((e : GoError) × (o ≡ err e))

  -- The result is the one over a first part of what the process has written.
  abbrev pub IsResult : Outcome Info → List GoString → Option (Outcome (Unit {0})) → Type 0
  IsResult r written exit =
      (o : Outcome (Unit {0})) × (seen : List GoString) × (later : List GoString) × (written
        ≡ seen ++ later)
      × (r ≡ get_ip o (scan decode seen))
      × Cause o exit

  abbrev pub AtGetter : Getter → List GoString → Option (Outcome (Unit {0})) → Type 0
  AtGetter waits written exit = Unit
  AtGetter (finished o) written exit = Cause o exit
  AtGetter (returned r) written exit = IsResult r written exit

  pub record Sound (s : Collecting) : Type 0 where
    pub info : s.info ≡ collect none (scan decode s.taken)
    pub decodes : All (Decodes decode) s.taken
    pub held : (l : GoString) (e : Event) → s.holding ≡ some (l, e) → decode l ≡ ok e
    pub rest : List GoString
    pub whole : s.written ≡ s.taken ++ (held_lines s.holding ++ (s.unread ++ rest))
    pub none_lost : s.exit ≡ none → rest ≡ []
    pub getter : AtGetter s.getter s.written s.exit

  pub at_getter :
      (s : Collecting) (g : Getter) → s.getter ≡ g → Sound s → AtGetter g s.written s.exit
  at_getter s g e h = rw (← e) h.getter

  writes-AtGetter :
      (g : Getter) (written : List GoString) (l : GoString) (exit : Option (Outcome (Unit {0})))
      → AtGetter g written exit
      → AtGetter g (written ++ (l ∷ [])) exit
  writes-AtGetter waits written l exit h = tt
  writes-AtGetter (finished o) written l exit h = h
  writes-AtGetter (returned r) written l exit (o, seen, later, whole, same, c) =
      (o, seen, later ++ (l ∷ []), rw whole (append_assoc seen later (l ∷ [])), same, c)

  exits-Cause :
      (o o' : Outcome (Unit {0})) {exit : Option (Outcome (Unit {0}))}
      → exit ≡ none
      → Cause o exit
      → Cause o (some o')
  exits-Cause o o' e (inl c) = cc (e, c)
  exits-Cause o o' e (inr c) = inr c

  exits-AtGetter :
      (g : Getter) (written : List GoString) (o : Outcome (Unit {0}))
      (exit : Option (Outcome (Unit {0})))
      → exit ≡ none
      → AtGetter g written exit
      → AtGetter g written (some o)
  exits-AtGetter waits written o' exit e h = tt
  exits-AtGetter (finished o) written o' exit e h = exits-Cause o o' e h
  exits-AtGetter (returned r) written o' exit e (o, seen, later, whole, same, c) =
      (o, seen, later, whole, same, exits-Cause o o' e c)

  grow :
      (xs ys zs rest : List GoString) (l : GoString) {ws : List GoString}
      → ws ≡ xs ++ (ys ++ (zs ++ rest))
      → rest ≡ []
      → ws ++ (l ∷ []) ≡ xs ++ (ys ++ ((zs ++ (l ∷ [])) ++ []))
  grow xs ys zs rest l p q = rw (p, q) (simp (append_assoc, append-nil))

  Step-Sound : {s t : Collecting} → Step decode s t → Sound s → Sound t
  unfolding get_ip
  Step-Sound {s} (writes l e) h = record {
    info = h.info;
    decodes = h.decodes;
    held = h.held;
    rest = [];
    whole = grow s.taken (held_lines s.holding) s.unread h.rest l h.whole (h.none_lost e);
    none_lost = λ q. refl;
    getter = writes-AtGetter s.getter s.written l s.exit h.getter;
  }
  Step-Sound {s} (exits o e) h = record {
    info = h.info;
    decodes = h.decodes;
    held = h.held;
    rest = h.rest;
    whole = h.whole;
    none_lost = λ q. cc (q);
    getter = exits-AtGetter s.getter s.written o s.exit e h.getter;
  }
  Step-Sound {s} (reads l e u n d) h = record {
    info = h.info;
    decodes = h.decodes;
    held = λ l' e' q. cc (q, d);
    rest = h.rest;
    whole = rw (n, u) at h.whole;
    none_lost = h.none_lost;
    getter = h.getter;
  }
  Step-Sound {s} (leaves_out l x u n d) h = record {
    info = h.info ∙ info-leaves_out decode s.taken l x h.decodes d;
    decodes = All-append _ s.taken l h.decodes (λ q. cc (q, d));
    held = h.held;
    rest = h.rest;
    whole = rw (n, append_assoc s.taken (l ∷ []) _) (rw (n, u) at h.whole);
    none_lost = h.none_lost;
    getter = h.getter;
  }
  Step-Sound {s} (collects l e q c) h = record {
    info = info-collects decode s.taken l e s.info h.decodes (h.held l e q) h.info;
    decodes = All-append _ s.taken l h.decodes (λ p. cc (p, h.held l e q));
    held = λ l' e' p. cc (p);
    rest = h.rest;
    whole = rw (append_assoc s.taken (l ∷ []) _) (rw q at h.whole);
    none_lost = h.none_lost;
    getter = h.getter;
  }
  Step-Sound (runs_dry e u n) h = record {
    info = h.info;
    decodes = h.decodes;
    held = h.held;
    rest = h.rest;
    whole = h.whole;
    none_lost = h.none_lost;
    getter = h.getter;
  }
  Step-Sound (is_told e) h = record {
    info = h.info;
    decodes = h.decodes;
    held = h.held;
    rest = h.rest;
    whole = h.whole;
    none_lost = h.none_lost;
    getter = h.getter;
  }
  Step-Sound (stops_early e) h = record {
    info = h.info;
    decodes = h.decodes;
    held = h.held;
    rest = h.rest;
    whole = h.whole;
    none_lost = h.none_lost;
    getter = h.getter;
  }
  Step-Sound {s} (finishes kept lost g e u) h = record {
    info = h.info;
    decodes = h.decodes;
    held = h.held;
    rest = lost ++ h.rest;
    whole = rw (← append_assoc kept lost h.rest) (rw u at h.whole);
    none_lost = λ q. cc (q, e);
    getter = inl e;
  }
  Step-Sound {s} (gives_up e g) h = record {
    info = h.info;
    decodes = h.decodes;
    held = h.held;
    rest = h.rest;
    whole = h.whole;
    none_lost = h.none_lost;
    getter = inr (e, refl);
  }
  Step-Sound {s} (returns {o} g c) h = record {
    info = h.info;
    decodes = h.decodes;
    held = h.held;
    rest = h.rest;
    whole = h.whole;
    none_lost = h.none_lost;
    getter = (o, s.taken, _, h.whole, ap (finished_with o) h.info, at_getter s (finished o) g h);
  }

  pub Reach-Sound : {t : Collecting} → Reach decode at_start t → Sound t
  unfolding scan collect
  Reach-Sound here = record {
    info = refl;
    decodes = tt;
    held = λ l e q. cc (q);
    rest = [];
    whole = refl;
    none_lost = λ q. refl;
    getter = tt;
  }
  Reach-Sound (next r st) = Step-Sound st (Reach-Sound r)
