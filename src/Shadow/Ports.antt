-- ===== src/Shadow/Ports.antt =====
-- pkg/kt/util/network.go: port mappings.
use kt_connect.Common.{
  ℕ, Bool, Option, none, some, List, [], ◌∷◌, map, if◌then◌else◌, take, drop, ◌+◌, Text,
}
use kt_connect.Common.Int.{ℤ}
use kt_connect.Common.Exec.{Reply, ok, err, failed}
use kt_connect.Strings.{split, index_byte, format_nat, atoi}
use kt_connect.Collection.{contains}

-- strings.SplitN(s, ":", 2): the text before and behind the first colon, or the whole text twice.
unfoldable pub halves : Text → Text × Text
halves s = elim (index_byte s b':') [ none ↦ (s, s) | some i ↦ (take i s, drop (i + 1) s) ]

unfoldable pub both : Option ℤ → Option ℤ → Reply (ℤ × ℤ)
both (some lp) (some rp) = ok (lp, rp)
both _ _ = err failed

-- ParsePortMapping: the local and the remote port
unfoldable pub parse_port_mapping : Text → Reply (ℤ × ℤ)
unfolding halves both
parse_port_mapping expose_port =
    let (local_port, remote_port) = halves expose_port in both (atoi local_port) (atoi remote_port)

-- The remote port of one pair, in FindInvalidRemotePort.
unfoldable pub remote_port_of : List Text → Text
remote_port_of [] = []
remote_port_of (port ∷ []) = port
remote_port_of (_ ∷ port ∷ _) = port

-- The loop of FindInvalidRemotePort.
unfoldable pub first_invalid : List Text → List Text → Text
unfolding remote_port_of
first_invalid valid_ports [] = []
first_invalid valid_ports (pair ∷ pairs) =
    let rest = first_invalid valid_ports pairs in
    if contains valid_ports (remote_port_of (split pair b':'))
    then rest
    else remote_port_of (split pair b':')

-- FindInvalidRemotePort
unfoldable pub find_invalid_remote_port : Text → List (ℕ × Text) → Text
unfolding first_invalid
find_invalid_remote_port expose_ports svc_ports =
    first_invalid (map (λ p. format_nat p.0) svc_ports) (split expose_ports b',')

-- The local port of one pair, in FindBrokenLocalPort.
unfoldable pub local_port_of : List Text → Text
local_port_of [] = []
local_port_of (port ∷ _) = port

-- The loop of FindBrokenLocalPort; `is_listened` dials the port.
unfoldable pub first_broken : (Text → Bool) → List Text → Text
unfolding local_port_of
first_broken is_listened [] = []
first_broken is_listened (pair ∷ pairs) =
    let rest = first_broken is_listened pairs in
    if is_listened (local_port_of (split pair b':')) then rest else local_port_of (split pair b':')

-- FindBrokenLocalPort
unfoldable pub find_broken_local_port : (Text → Bool) → Text → Text
unfolding first_broken
find_broken_local_port is_listened expose_ports = first_broken is_listened (split expose_ports b',')
