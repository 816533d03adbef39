-- ===== src/Udhcpc/Fqdn.antt =====
-- The hostname that NewDHCPClient of pkg/udhcpc/client.go encodes for DHCPv6.
use docker_network_dhcp.Base.{
  ℕ, ◌+◌, ◌*◌, ◌-◌, ◌<◌, ◌/◌, ◌%◌, ltb, ◌≡◌, refl, length, take, take-all, Option, none, some, [],
  ◌∷◌, GoString, All, arith, ap, if◌then◌else◌,
}
use docker_network_dhcp.Udhcpc.{hex_digit, hex_encode, fqdn_data}

-- Reading hexadecimal digits in lower case.
abbrev pub hex_value : ℕ → ℕ
hex_value c = if ltb c 58 then c - 48 else c - 87

unfoldable pub hex_decode : GoString → GoString
hex_decode [] = []
hex_decode (c ∷ []) = []
hex_decode (c ∷ d ∷ cs) = (hex_value c * 16 + hex_value d) ∷ hex_decode cs

-- A reader of option 0x27 takes as many bytes as the length says.
unfoldable pub fqdn_name : GoString → Option GoString
fqdn_name (flags ∷ len ∷ rest) = some (take len rest)
fqdn_name _ = none

abbrev pub IsByte : ℕ → Type 0
IsByte b = b < 256

hex_value-hex_digit : (d : ℕ) → d < 16 → hex_value (hex_digit d) ≡ d
hex_value-hex_digit d h = ground arith

digits :
    (b : ℕ) → b < 256 → hex_value (hex_digit (b / 16)) * 16 + hex_value (hex_digit (b % 16)) ≡ b
digits b h =
    rw (hex_value-hex_digit (b / 16) (omega arith), hex_value-hex_digit (b % 16) (omega arith))
      (omega arith)

hex_decode-hex_encode : (s : GoString) → All IsByte s → hex_decode (hex_encode s) ≡ s
unfolding hex_decode hex_encode
hex_decode-hex_encode [] h = refl
hex_decode-hex_encode (b ∷ bs) (h, hs) = cc (digits b h, hex_decode-hex_encode bs hs)

-- A hostname of fewer than 256 bytes is read back from the option.
fqdn_name-fqdn_data :
    (hostname : GoString)
    → All IsByte hostname
    → length hostname < 256
    → fqdn_name (hex_decode (hex_encode (fqdn_data hostname))) ≡ some hostname
unfolding fqdn_name fqdn_data
fqdn_name-fqdn_data hostname bytes fits =
    let whole : length hostname % 256 ≡ length hostname = omega arith in
    rw
      (hex_decode-hex_encode (1 ∷ length hostname % 256 ∷ hostname)
        (omega arith, (omega arith, bytes)))
      (rw whole (ap some (take-all (length hostname) hostname (omega arith))))
