-- ===== src/Api/Meta/Probing.antt =====
-- Which hosts the API looks for a host key at.
use ulcer.Prelude.{
  ◌≡◌, refl, ◌⊎◌, inl, inr, ℕ, ◌≤◌, ◌<◌, arith, true, Text, Option, none, some, List,
}
use ulcer.SshInstall.Checks.{
  Net, Target, invalid_target, blocked, resolved, resolve_target, allowed_target_address,
}
use ulcer.SshInstall.Remote.{Remote}
use ulcer.SshInstall.Safety.{resolve_target_lem}
use ulcer.Api.Response.{Response}
use ulcer.Api.Meta.{
  HostKey, Probe, probe_resolved_host_key, probe_target, probe_host_key, answer_probe, ssh_host_key,
}

module _ ⦃net : Net⦄ ⦃remote : Remote⦄ where
  open net use {Addr}
  open remote use {Machine}

  -- What a look for a host key has reached: nothing, or an allowed address at a valid port.
  abbrev IsReached : Machine → Response HostKey × Machine → (Addr → ℕ → Probe × Machine) → Type 0
  IsReached m q probe =
      (q.1 ≡ m)
      ⊎ ((address : Addr) × (port : ℕ) × (allowed_target_address address ≡ true)
          × (0 < port)
          × (port ≤ 65535)
          × (q ≡ answer_probe (probe address port)))

  module _ (capture : Machine → Option HostKey × Machine) (lookup : Text → Option (List Addr)) where
    probe_target-IsReached :
        (host : Text) (port : ℕ) (m : Machine) (t : Target)
        → resolve_target lookup host port ≡ t
        → IsReached m
            (answer_probe (probe_target capture t m))
            (λ a n. probe_resolved_host_key capture a n m)
    probe_target-IsReached host port m invalid_target h = inl refl
    probe_target-IsReached host port m blocked h = inl refl
    probe_target-IsReached host port m (resolved found address q) h =
        let (low, high, same, allowed, _) = resolve_target_lem lookup host found port q address h in
        inr (address, q, allowed, ground arith, ground arith, refl)

    -- A request for a host key reaches no server, or one at an allowed address and a valid port, and
    -- then its answer is that of the handshake there.
    pub ssh_host_key-IsReached :
        (request : Option (Text × ℕ)) (m : Machine)
        → ((ssh_host_key capture lookup request m).1 ≡ m)
          ⊎ ((address : Addr) × (port : ℕ) × (allowed_target_address address ≡ true)
              × (0 < port)
              × (port ≤ 65535)
              × (ssh_host_key capture lookup request m
                  ≡ answer_probe (probe_resolved_host_key capture address port m)))
    unfolding ssh_host_key probe_host_key
    ssh_host_key-IsReached none m = inl refl
    ssh_host_key-IsReached (some (host, port)) m =
        probe_target-IsReached host port m (resolve_target lookup host port) refl
