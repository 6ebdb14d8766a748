-- ===== src/Network.antt =====
-- common/network.c: the choice of an interface, and the device ID. What the system answers for each
-- interface is an argument: its name, its flags and the six bytes of its MAC.
pub mod Choice
pub mod Text
use rmt_library.Common.{
  ℕ, ◌+◌, ◌-◌, ◌*◌, ◌/◌, ◌%◌, length, take, Bool, true, false, ◌&&◌, not, if◌then◌else◌, ◌==◌, ltb,
  Option, none, some, List, [], ◌∷◌, Bytes,
}

pub record Mac : Type 0 where
  pub b0 : ℕ
  pub b1 : ℕ
  pub b2 : ℕ
  pub b3 : ℕ
  pub b4 : ℕ
  pub b5 : ℕ

-- one entry of `if_nameindex` with the answers of `ioctl`
pub record Interface : Type 0 where
  pub name : Bytes
  pub is_up : Bool
  pub is_running : Bool
  pub is_loopback : Bool
  pub mac : Mac

-- `name[0] == c`
abbrev pub starts : ℕ → Bytes → Bool
starts c [] = false
starts c (d ∷ name) = d == c

-- "Make sure the network interface is up and running. Also exclude loopback."
abbrev pub is_usable : Interface → Bool
is_usable i = i.is_up && (i.is_running && not i.is_loopback)

-- the loop of `net_select_interface`: the name that it leaves, or `none` for -1
unfoldable pub select_from : List Interface → Option Bytes → Option Bytes
select_from [] chosen = chosen
select_from (i ∷ rest) chosen =
    let later = select_from rest (some i.name) in
    let skipped = select_from rest chosen in
    if is_usable i then if starts b'w' i.name then some i.name else later else skipped

unfoldable pub select_interface : List Interface → Option Bytes
unfolding select_from
select_interface interfaces = select_from interfaces none

-- "ADLINK MAC or not"
abbrev pub is_adlink : Mac → Bool
is_adlink m = (m.b0 == 0) && ((m.b1 == 48) && (m.b2 == 100))

-- `tmp_priority`
abbrev pub priority : Interface → ℕ
priority i = (if starts b'e' i.name then 1 else 0) + (if is_adlink i.mac then 3 else 0)

-- the last three bytes of the MAC, by shifts of a `uint64_t`, which they cannot leave
abbrev pub id_of : Mac → ℕ
id_of m = (m.b3 * 256 + m.b4) * 256 + m.b5

-- the loop of `net_generate_id`; the priority -1 of the start is `none`.
unfoldable pub best_from : List Interface → Option Interface → Option Interface
best_from [] best = best
best_from (i ∷ rest) best =
    let replaced = best_from rest (some i) in
    elim best [
      | none ↦ replaced
      | some b ↦ if ltb (priority b) (priority i) then replaced else best_from rest (some b)
    ]

-- `net_generate_id`
unfoldable pub generate_id : List Interface → ℕ
unfolding best_from
generate_id interfaces = elim (best_from interfaces none) [ none ↦ 0 | some i ↦ id_of i.mac ]

-- `net_get_ip`: the system is asked for the address of the interface with the first fifteen bytes of the name.
unfoldable pub get_ip : (Bytes → Bytes) → Bytes → ℕ → Option Bytes
get_ip address interface ip_len =
    if length interface == 0 then none else some (take (ip_len - 1) (address (take 15 interface)))

-- a digit of `%x`, and `%02x` of a byte
abbrev pub hex_digit : ℕ → ℕ
hex_digit d = if ltb d 10 then b'0' + d else b'a' + (d - 10)

abbrev pub hex_byte : ℕ → Bytes → Bytes
hex_byte b rest = hex_digit (b / 16) ∷ (hex_digit (b % 16) ∷ rest)

-- `net_get_mac`: `snprintf` into `mac_len` bytes
unfoldable pub get_mac : Mac → ℕ → Bytes
get_mac m mac_len = take (mac_len - 1) (
    hex_byte m.b0 (
      b':'
      ∷ hex_byte m.b1 (
          b':'
          ∷ hex_byte m.b2 (b':' ∷ hex_byte m.b3 (b':' ∷ hex_byte m.b4 (b':' ∷ hex_byte m.b5 []))))))
