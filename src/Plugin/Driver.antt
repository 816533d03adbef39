-- ===== src/Plugin/Driver.antt =====
-- IsDHCPPlugin of pkg/plugin/plugin.go: the regular expression
-- (^|/)docker-net(work)?-dhcp:.+$ , matched at every position. `.` is any byte but a newline and
-- `$` is the end of the text.
pub mod Laws
use docker_network_dhcp.Base.{
  ℕ, Bool, true, false, not, ◌&&◌, ◌||◌, Option, none, some, [], ◌∷◌, GoString, go, ◌==ℕ◌, all,
}

-- What is left of `s` behind the prefix `p`.
unfoldable pub strip_prefix : GoString → GoString → Option GoString
strip_prefix [] s = some s
strip_prefix (c ∷ p) [] = none
strip_prefix (c ∷ p) (d ∷ s) =
    let rest = strip_prefix p s in elim (c ==ℕ d) [ true ↦ rest | false ↦ none ]

abbrev pub newline : ℕ
newline = 10

abbrev pub slash : ℕ
slash = 47

-- `.+$`
unfoldable pub line_to_end : GoString → Bool
line_to_end [] = false
line_to_end (c ∷ s) = all (λ b. not (b ==ℕ newline)) (c ∷ s)

abbrev pub then_match : (GoString → Bool) → Option GoString → Bool
then_match f none = false
then_match f (some s) = f s

-- `-dhcp:.+$`
unfoldable pub match_dhcp : GoString → Bool
unfolding strip_prefix line_to_end
match_dhcp s = then_match line_to_end (strip_prefix (go "-dhcp:") s)

-- `(work)?-dhcp:.+$`
unfoldable pub match_work : GoString → Bool
unfolding match_dhcp
match_work s = then_match match_dhcp (strip_prefix (go "work") s) || match_dhcp s

-- `docker-net(work)?-dhcp:.+$`
unfoldable pub match_name : GoString → Bool
unfolding match_work
match_name s = then_match match_work (strip_prefix (go "docker-net") s)

-- The positions behind a slash.
unfoldable pub match_behind_slash : GoString → Bool
unfolding match_name
match_behind_slash [] = false
match_behind_slash (c ∷ s) = (c ==ℕ slash && match_name s) || match_behind_slash s

unfoldable pub is_dhcp_plugin : GoString → Bool
unfolding match_behind_slash
is_dhcp_plugin driver = match_name driver || match_behind_slash driver
