-- ===== src/Plugin/Restore/Unaddressed.antt =====
-- A manager that is restored without an IPv6 address, and its first DHCPv6 lease.
use docker_network_dhcp.Base.{
  ◌≡◌, refl, ◌∙◌, ap, true, Option, none, some, List, [], ◌∷◌, ◌++◌, All,
}
use docker_network_dhcp.Util.Outcome.{ok, panic}
use docker_network_dhcp.Plugin.State.{EndpointState}
use docker_network_dhcp.Plugin.Types.{Addr, DhcpManager, Link}
use docker_network_dhcp.Plugin.Env.{Info}
use docker_network_dhcp.Plugin.Manager.{Netns, handle}
use docker_network_dhcp.Plugin.Manager.Lease.{handle_panic, bound}
use docker_network_dhcp.Plugin.Manager.Start.{Held, Sandbox}
use docker_network_dhcp.Plugin.Restore.{reattach}
use docker_network_dhcp.Plugin.Restore.Addresses.{Local, IsListed}
use docker_network_dhcp.Plugin.Restore.Rejoin.{reattach-ok}

module _ {W : Type 0} (box : Sandbox W) where
  -- The namespace never lists a global IPv6 address.
  abbrev pub IsUnaddressed : Type 0
  IsUnaddressed =
      (link : Link) (w : W) (addrs : List Addr)
      → (box.addr_list link 10 w).0 ≡ ok addrs
      → All (Local box) addrs

  of_member :
      (before after : List Addr) (a : Addr) → All (Local box) (before ++ (a ∷ after)) → Local box a
  of_member [] after a (l, ls) = l
  of_member (x ∷ before) after a (l, ls) = of_member before after a ls

  unlisted : IsUnaddressed → (o : Option Addr) → IsListed box 10 o → o ≡ none
  unlisted bare none h = refl
  unlisted bare (some a) (link, w, addrs, listed, (before, after, e, ls, global)) =
      let l = of_member before after a (rw e at (bare link w addrs listed)) in cc (l, global)

  -- A manager that Restore has started over a record with IPv6, in a namespace that lists no global
  -- IPv6 address, panics on its first DHCPv6 lease, whatever address that brings.
  pub reattach-panic :
      (n : Netns W) (e : EndpointState) (h : Held W) (w : W) (info : Info) {m : DhcpManager}
      {ip : Addr}
      → (reattach box e h).0 ≡ ok m
      → e.ipv6 ≡ true
      → IsUnaddressed
      → n.parse_addr info.ip ≡ ok ip
      → (handle n true (bound n info) (record { manager = m; world = w })).0 ≡ panic
  reattach-panic n e h w info q v6 bare parsed =
      let (a4, a6, index, same, found) = reattach-ok box e h q in
      handle_panic n true info _
        (ap (λ (x : DhcpManager). x.last_ipv6) same ∙ unlisted bare a6 (found.listed_v6 v6)) parsed
