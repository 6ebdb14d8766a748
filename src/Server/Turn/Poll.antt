-- ===== src/Server/Turn/Poll.antt =====
-- The receives at the top of a turn of server/rmt_server.c.
use rmt_library.Common.{
  ◌+◌, ◌≤◌, ◌<◌, ◌≡◌, ◌^◌, refl, some, List, [], ◌∷◌, length, arith, ◌⊎◌, inl, inr,
}
use rmt_library.Types.{DeviceMsg}
use rmt_library.Transport.{Taken, dev_info, null, live, Transport}
use rmt_library.Transport.Receive.{samples, stopped, stop_code, deliver, try_recv_lem}
use rmt_library.DevInfo.{Node, Registry, add_device}
use rmt_library.DevInfo.Size.{length-add_device}
use rmt_library.DevInfo.Inv as Inv
use rmt_library.DevInfo.Status.{Good}
use rmt_library.FileTransfer.Tick as Tick
use rmt_library.FileTransfer.Size.{size, tick-size}
use rmt_library.Server.{Server, Surroundings, update_devices, poll}

length-samples : (takes : List (Taken DeviceMsg)) → length (samples takes) ≤ length takes
length-samples [] = omega arith
length-samples (t ∷ takes) = ground (arith, length-samples takes)

deliver-IsValid :
    (fresh : Node) (takes : List (Taken DeviceMsg)) {r : Registry}
    → Inv.IsValid r
    → (r' : Registry) × (deliver
          (λ t r. some (add_device fresh t.sample t.publication_handle r))
          takes
          r
        ≡ some r')
      × Inv.IsValid r'
      × (length r'.dev_head ≤ length r.dev_head + length takes)
deliver-IsValid fresh [] {r} v = (r, refl, v, omega arith)
deliver-IsValid fresh (t ∷ takes) {r} v =
    let (r', e, v', n) =
      deliver-IsValid fresh takes (Inv.add_device-IsValid fresh t.sample t.publication_handle v) in
    (r', e, v', omega (arith, n, length-add_device fresh t.sample t.publication_handle r))

pub update_devices-Good :
    (fresh : Node) (takes : List (Taken DeviceMsg)) {r : Registry}
    → Good r
    → length r.dev_head + length takes < 2 ^ 32
    → (r' : Registry) × (update_devices fresh takes r ≡ some (stop_code (stopped takes), r'))
      × Good r'
      × (length r'.dev_head ≤ length r.dev_head + length takes)
unfolding update_devices
update_devices-Good fresh takes {r} g fits =
    let (r', e, v, n) = deliver-IsValid fresh (samples takes) g.valid in
    (
      r',
      ground (
        arith,
        try_recv_lem dev_info (λ msg handle r'. some (add_device fresh msg handle r')) takes r,
        e,
      ),
      record { valid = v; fits = omega (arith, n, fits, length-samples takes) },
      omega (arith, n, length-samples takes),
    )

-- A poll keeps all but the registry and the transfer, which stay valid. Without a transport it does nothing.
pub poll_lem :
    (env : Surroundings) (s : Server)
    → Tick.IsValid s.files
    → ((s.transport ≡ null) ⊎ ((t : Transport) × (s.transport ≡ live t)))
    → length s.files.registry.dev_head + length env.devices < 2 ^ 32
    → (s' : Server) × (poll env s ≡ some s')
      × Tick.IsValid s'.files
      × (s' ≡ record s { files = s'.files })
      × (size s'.files ≤ size s.files + length env.devices)
unfolding poll
poll_lem env s v p fits = elim p [
  | inl gone ↦ (s, ground (arith, gone), v, refl, omega arith)
  | inr (t, there) ↦
      let (r, e, g, n) = update_devices-Good env.fresh env.devices v.registry fits in
      let (f, e', v') =
        Tick.tick-IsValid env.malloc_ok env.junk env.feed env.reply_timeout env.now
          {s = record s.files { registry = r }} (record { registry = g; phase = v.phase }) in
      (
        record s { files = f },
        ground (arith, there, e, e'),
        v',
        refl,
        omega (
          arith,
          n,
          tick-size env.malloc_ok env.junk env.feed env.reply_timeout env.now
              (record s.files { registry = r }) f e',
        ),
      )
]
