-- ===== src/DataInfo/Message.antt =====
-- The message of `datainfo_server_set_info` in server/datainfo_server.c, and its buffer.
use mathlib.Core.List.{append-nil, append_assoc}
use rmt_library.Common.{
  ℕ, ◌+◌, ◌*◌, ◌^◌, ◌&&◌, ◌≤◌, ◌<◌, ◌≡◌, ◌≢◌, refl, if◌then◌else◌, ltb, none, some, List, [], ◌∷◌,
  ◌++◌, arith, length, length-append, All, Bytes,
}
use rmt_library.Types.{DataInfo}
use rmt_library.DataInfo.{strcat, join_values, set_message}

-- the value lists, each closed by a bar
abbrev pub joined : List DataInfo → Bytes
joined [] = []
joined (dev ∷ devs) = dev.value_list ++ (b'|' ∷ joined devs)

join_values_lem :
    (size : ℕ) (devs : List DataInfo) (buffer : Bytes)
    → length buffer < size
    → join_values size devs buffer ≡ (
        if ltb (length buffer + length (joined devs)) size
        then some (buffer ++ joined devs)
        else none)
unfolding join_values strcat
join_values_lem size [] buffer h = ground (arith, append-nil buffer)
join_values_lem size (dev ∷ devs) buffer h =
    let grown = (buffer ++ dev.value_list) ++ (b'|' ∷ []) in
    ground (
      arith,
      length-append buffer dev.value_list,
      length-append (buffer ++ dev.value_list) (b'|' ∷ []),
      length-append dev.value_list (b'|' ∷ joined devs),
      append_assoc (buffer ++ dev.value_list) (b'|' ∷ []) (joined devs),
      append_assoc buffer dev.value_list (b'|' ∷ joined devs),
      join_values_lem size devs grown,
    )

-- The message is the value lists, each closed by a bar, exactly if they and the terminator fit in 1024
-- bytes for each device, and this size is below 2^31; else a write leaves the buffer, as it does for no device at
-- all, or the size, which is an `int`, overflows.
pub set_message_lem :
    (devs : List DataInfo)
    → set_message devs ≡ (
        if ltb (length (joined devs)) (1024 * length devs) && ltb (1024 * length devs) (2 ^ 31)
        then some (joined devs)
        else none)
unfolding set_message
set_message_lem devs = ground (arith, join_values_lem (1024 * length devs) devs [])

length-joined-le :
    (devs : List DataInfo)
    → All (λ dev. length dev.value_list < 1023) devs
    → length (joined devs) + length devs ≤ 1024 * length devs
length-joined-le [] h = omega arith
length-joined-le (dev ∷ devs) h =
    omega (arith, length-append dev.value_list (b'|' ∷ joined devs), length-joined-le devs h.1, h.0)

-- Value lists below 1023 bytes fit for one device or more, if they are fewer than 2^21; the type allows 4096.
pub set_message_fits :
    (devs : List DataInfo)
    → devs ≢ []
    → length devs < 2 ^ 21
    → All (λ dev. length dev.value_list < 1023) devs
    → set_message devs ≡ some (joined devs)
set_message_fits [] ne few h = absurd (ne refl)
set_message_fits (dev ∷ devs) ne few h =
    ground (arith, few, set_message_lem (dev ∷ devs), length-joined-le (dev ∷ devs) h)
