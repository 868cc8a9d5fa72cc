-- ===== src/Endpoint.antt =====
-- The addresses of src/execution_state.cpp: `unreadable_address`, `render_unix_name` and
-- `socket_endpoint`. A structure read from the tracee is its bytes, in the layout of Linux x86_64.
pub mod Printable
use Prim.Native.Nat.{min}
use whyrun.Common.Number.{to_string, to_hex, hex_digit}
use whyrun.Common.{
  ℕ, ◌+◌, ◌-◌, ◌*◌, ◌/◌, ◌%◌, ◌||◌, ◌&&◌, not, Bool, [], ◌∷◌, ◌++◌, Option, none, some, ◌==◌,
  if◌then◌else◌, Bytes, codes, ltb, leb, take, drop, get_or,
}
use whyrun.Event.{EventType, network_connect, local_ipc_connect}
use whyrun.Host.{Host}

unfoldable pub unreadable_address : ℕ → Bytes
unfolding to_hex
unreadable_address address = codes "<unreadable@0x" ++ to_hex address ++ codes ">"

pub record SocketEndpoint : Type 0 where
  pub event_type : EventType
  pub resource : Bytes
  pub family_name : Bytes

-- `std::isprint` in the C locale
abbrev pub is_print : ℕ → Bool
is_print c = leb 0x20 c && leb c 0x7e

-- What the loop of `render_unix_name` writes for one byte.
unfoldable pub render_byte : ℕ → Bytes
unfolding hex_digit
render_byte c =
    if is_print c && not (c == b'\\')
    then c ∷ []
    else b'\\' ∷ b'x' ∷ hex_digit (c / 16) ∷ hex_digit (c % 16) ∷ []

unfoldable pub render_bytes : Bytes → Bytes
unfolding render_byte
render_bytes [] = []
render_bytes (c ∷ s) = render_byte c ++ render_bytes s

-- The bytes in front of the first 0, which `memchr` finds.
unfoldable pub until_zero : Bytes → Bytes
until_zero [] = []
until_zero (c ∷ s) = let rest = until_zero s in if c == 0 then [] else c ∷ rest

-- The list holds the `length` bytes at `path`.
unfoldable pub render_unix_name : Bytes → Bytes
unfolding render_bytes until_zero
render_unix_name [] = codes "unix:<unnamed>"
render_unix_name (c ∷ s) =
    if c == 0
    then codes "unix:" ++ codes "@" ++ render_bytes s
    else codes "unix:" ++ render_bytes (until_zero (c ∷ s))

abbrev af_unix : ℕ
af_unix = 1

abbrev af_inet : ℕ
af_inet = 2

abbrev af_inet6 : ℕ
af_inet6 = 10

abbrev byte_at : Bytes → ℕ → ℕ
byte_at s i = get_or s i 0

-- A 16-bit number as the machine stores it, and as the network does (`ntohs`).
abbrev little_endian : Bytes → ℕ
little_endian s = byte_at s 0 + 256 * byte_at s 1

abbrev big_endian : Bytes → ℕ
big_endian s = 256 * byte_at s 0 + byte_at s 1

abbrev at_network : Bytes → Bytes → Option SocketEndpoint
at_network resource family =
    some (record { event_type = network_connect; resource = resource; family_name = family })

abbrev at_local : Bytes → Option SocketEndpoint
at_local resource =
    some
      (record { event_type = local_ipc_connect; resource = resource; family_name = codes "unix" })

-- The branches of `socket_endpoint`, each on the bytes that it read.
inet_endpoint : Host → ℕ → Option Bytes → Option SocketEndpoint
unfolding unreadable_address to_string
inet_endpoint host address none = at_network (unreadable_address address) (codes "inet")
inet_endpoint host address (some value) = elim (host.inet_ntop af_inet (take 4 (drop 4 value))) [
  | none ↦ at_network (codes "<invalid-ipv4>") (codes "inet")
  | some text ↦ at_network (text ++ b':' ∷ to_string (big_endian (drop 2 value))) (codes "inet")
]

inet6_endpoint : Host → ℕ → Option Bytes → Option SocketEndpoint
unfolding unreadable_address to_string
inet6_endpoint host address none = at_network (unreadable_address address) (codes "inet6")
inet6_endpoint host address (some value) = elim (host.inet_ntop af_inet6 (take 16 (drop 8 value))) [
  | none ↦ at_network (codes "<invalid-ipv6>") (codes "inet6")
  | some text ↦
      at_network (codes "[" ++ text ++ codes "]:" ++ to_string (big_endian (drop 2 value)))
        (codes "inet6")
]

unix_endpoint : ℕ → ℕ → Option Bytes → Option SocketEndpoint
unfolding unreadable_address render_unix_name
unix_endpoint address read_size none = at_local (unreadable_address address)
unix_endpoint address read_size (some value) =
    at_local (render_unix_name (take (read_size - 2) (drop 2 value)))

abbrev sizeof_sockaddr_in : ℕ
sizeof_sockaddr_in = 16

abbrev sizeof_sockaddr_in6 : ℕ
sizeof_sockaddr_in6 = 28

abbrev sizeof_sockaddr_un : ℕ
sizeof_sockaddr_un = 110

-- The part of `socket_endpoint` behind the family.
family_endpoint : Host → ℕ → ℕ → ℕ → ℕ → Option SocketEndpoint
unfolding inet_endpoint inet6_endpoint unix_endpoint
family_endpoint host tid address size family =
    if family == af_inet && leb sizeof_sockaddr_in size
    then inet_endpoint host address (host.read_bytes tid address sizeof_sockaddr_in)
    else if family == af_inet6 && leb sizeof_sockaddr_in6 size
    then inet6_endpoint host address (host.read_bytes tid address sizeof_sockaddr_in6)
    else if family == af_unix
    then (let read_size = min size sizeof_sockaddr_un in
        unix_endpoint address read_size (host.read_bytes tid address read_size))
    else none

unfoldable pub socket_endpoint : Host → ℕ → ℕ → ℕ → Option SocketEndpoint
unfolding family_endpoint
socket_endpoint host tid address size =
    if address == 0 || ltb size 2
    then at_network (codes "<invalid-sockaddr>") (codes "unknown")
    else elim (host.read_bytes tid address 2) [
      | none ↦ at_network (unreadable_address address) (codes "unreadable")
      | some family ↦ family_endpoint host tid address size (little_endian family)
    ]
