-- ===== src/ServiceManager/Starting/Registered.antt =====
-- What a start of a service leaves, whether it succeeds or fails.
use mathlib.Core.Path.{subst}
use free_tak_server.Base.{
  ℕ, true, false, Option, some, ◌≡◌, ◌≢◌, refl, ◌⊎◌, inl, inr, Outcome, returns, arith, Bool-cases,
  nat_eq_refl, if◌then◌else◌,
}
use free_tak_server.Base.Dict.{insert}
use free_tak_server.ServiceManager.State.{
  Startup, Pipe, Fts, Machine, Code, success, running, is_alive_process, creates_all,
}
use free_tak_server.ServiceManager.Starting.{
  start_rest_api_service, start_cot_service, start_tcp_data_package_service,
  start_ssl_data_package_service, start_ssl_cot_service, start_federation_client_service,
  start_federation_server_service,
}
use free_tak_server.ServiceManager.Services.{
  ServiceName, rest_api, cot, tcp_data_package, ssl_data_package, ssl_cot, federation_client,
  federation_server, start_service, pipe_name, service_type, pipe_of, process_of, receives, needs,
  target, can_start,
}
use free_tak_server.ServiceManager.Starting.Prepared.{
  prepare_rest_api_service-Prepared, prepare_cot_service-Prepared,
  prepare_tcp_data_package_service-Prepared, prepare_ssl_data_package_service-Prepared,
  prepare_ssl_cot_service-Prepared, prepare_federation_client_service-Prepared,
  prepare_federation_server_service-Prepared,
}

-- The process runs and the queue has been entered.
abbrev pub Registered : ServiceName → Fts → Outcome Code × Fts → Type 0
Registered v s r =
    (r.0 ≡ returns success)
    × (is_alive_process (process_of v r.1) r.1 ≡ true)
    × ((p : Pipe) × (pipe_of v r.1 ≡ some p)
        × (r.1.pipe_list ≡ insert (pipe_name v) p s.pipe_list)
        × (r.1.filter_group.sources ≡ insert (service_type v) p s.filter_group.sources)
        × (r.1.filter_group.receivers ≡ (
            if receives v
            then insert (service_type v) p s.filter_group.receivers
            else s.filter_group.receivers)))

abbrev pub Unregistered : Fts → Outcome Code × Fts → Type 0
Unregistered s r =
    (r.0 ≢ returns success) × (r.1.pipe_list ≡ s.pipe_list) × (r.1.filter_group ≡ s.filter_group)

abbrev pub Result : ServiceName → Machine → Startup → Fts → Type 0
Result v m c s =
    ((can_start m v ≡ true) × Registered v s (start_service v m c s))
    ⊎ ((can_start m v ≡ false) × Unregistered s (start_service v m c s))

start_rest_api_service-Result : (m : Machine) (c : Startup) (s : Fts) → Result rest_api m c s
unfolding start_rest_api_service
start_rest_api_service-Result m c s =
    let (x, t, e, q, g, n, o, k) = prepare_rest_api_service-Prepared c s in
    elim (Bool-cases (creates_all m (needs rest_api))) [
      | inr b ↦ inr (ground arith, rw (e, b) (λ z. ground arith, q, g))
      | inl a ↦ elim (Bool-cases (m.spawns "receive_Rest_commands")) [
        | inr b ↦ inr (ground arith, rw (e, a, b) (λ z. ground arith, q, g))
        | inl d ↦ elim (Bool-cases (m.spawns (target rest_api))) [
          | inr b ↦ inr (ground arith, rw (e, a, d, b) (λ z. ground arith, q, g))
          | inl b ↦ inl (
            ground arith,
            rw (e, a, d, b, nat_eq_refl, q, g) (refl, refl, (x.0, k.0, refl, refl, refl)),
          )
        ]
      ]
    ]

start_cot_service-Result : (m : Machine) (c : Startup) (s : Fts) → Result cot m c s
unfolding start_cot_service
start_cot_service-Result m c s =
    let (x, t, e, q, g, n, o, k) = prepare_cot_service-Prepared c s in
    elim (Bool-cases (creates_all m (needs cot))) [
      | inr b ↦ inr (ground arith, rw (e, b) (λ z. ground arith, q, g))
      | inl a ↦ elim (Bool-cases (m.spawns (target cot))) [
        | inr b ↦ inr (ground arith, rw (e, a, b) (λ z. ground arith, q, g))
        | inl b ↦ inl (
          ground arith,
          rw (e, a, b, nat_eq_refl, q, g) (refl, refl, (x.0, k.0, refl, refl, refl)),
        )
      ]
    ]

start_tcp_data_package_service-Result :
    (m : Machine) (c : Startup) (s : Fts) → Result tcp_data_package m c s
unfolding start_tcp_data_package_service
start_tcp_data_package_service-Result m c s =
    let (x, t, e, q, g, n, o, k) = prepare_tcp_data_package_service-Prepared c s in
    elim (Bool-cases (creates_all m (needs tcp_data_package))) [
      | inr b ↦ inr (ground arith, rw (e, b) (λ z. ground arith, q, g))
      | inl a ↦ elim (Bool-cases (m.spawns (target tcp_data_package))) [
        | inr b ↦ inr (ground arith, rw (e, a, b) (λ z. ground arith, q, g))
        | inl b ↦
            inl
              (ground arith, rw (e, a, b, nat_eq_refl, q, g) (refl, refl, (x, k, refl, refl, refl)))
      ]
    ]

start_ssl_data_package_service-Result :
    (m : Machine) (c : Startup) (s : Fts) → Result ssl_data_package m c s
unfolding start_ssl_data_package_service
start_ssl_data_package_service-Result m c s =
    let (x, t, e, q, g, n, o, k) = prepare_ssl_data_package_service-Prepared c s in
    elim (Bool-cases (creates_all m (needs ssl_data_package))) [
      | inr b ↦ inr (ground arith, rw (e, b) (λ z. ground arith, q, g))
      | inl a ↦ elim (Bool-cases (m.spawns (target ssl_data_package))) [
        | inr b ↦ inr (ground arith, rw (e, a, b) (λ z. ground arith, q, g))
        | inl b ↦
            inl
              (ground arith, rw (e, a, b, nat_eq_refl, q, g) (refl, refl, (x, k, refl, refl, refl)))
      ]
    ]

start_ssl_cot_service-Result : (m : Machine) (c : Startup) (s : Fts) → Result ssl_cot m c s
unfolding start_ssl_cot_service
start_ssl_cot_service-Result m c s =
    let (x, t, e, q, g, n, o, k) = prepare_ssl_cot_service-Prepared c s in
    elim (Bool-cases (creates_all m (needs ssl_cot))) [
      | inr b ↦ inr (ground arith, rw (e, b) (λ z. ground arith, q, g))
      | inl a ↦ elim (Bool-cases (m.spawns (target ssl_cot))) [
        | inr b ↦ inr (ground arith, rw (e, a, b) (λ z. ground arith, q, g))
        | inl b ↦ inl (
          ground arith,
          rw (e, a, b, nat_eq_refl, q, g) (refl, refl, (x.0, k.0, refl, refl, refl)),
        )
      ]
    ]

start_federation_client_service-Result :
    (m : Machine) (c : Startup) (s : Fts) → Result federation_client m c s
unfolding start_federation_client_service
start_federation_client_service-Result m c s =
    let (x, t, e, q, g, n, o, k) = prepare_federation_client_service-Prepared s in
    elim (Bool-cases (creates_all m (needs federation_client))) [
      | inr b ↦ inr (ground arith, rw (e, b) (λ z. ground arith, q, g))
      | inl a ↦ elim (Bool-cases (m.spawns (target federation_client))) [
        | inr b ↦ inr (ground arith, rw (e, a, b) (λ z. ground arith, q, g))
        | inl b ↦
            inl
              (ground arith, rw (e, a, b, nat_eq_refl, q, g) (refl, refl, (x, k, refl, refl, refl)))
      ]
    ]

start_federation_server_service-Result :
    (m : Machine) (c : Startup) (s : Fts) → Result federation_server m c s
unfolding start_federation_server_service
start_federation_server_service-Result m c s =
    let (x, t, e, q, g, n, o, k) = prepare_federation_server_service-Prepared s in
    elim (Bool-cases (creates_all m (needs federation_server))) [
      | inr b ↦ inr (ground arith, rw (e, b) (λ z. ground arith, q, g))
      | inl a ↦ elim (Bool-cases (m.spawns (target federation_server))) [
        | inr b ↦ inr (ground arith, rw (e, a, b) (λ z. ground arith, q, g))
        | inl b ↦
            inl
              (ground arith, rw (e, a, b, nat_eq_refl, q, g) (refl, refl, (x, k, refl, refl, refl)))
      ]
    ]

-- Each of the seven starting methods either succeeds, if the machine creates the objects and
-- starts the processes that it asks for, or does not. If it succeeds, the process of the service
-- runs, and the queue in its attribute has been entered in pipeList, in the sources, and, for the
-- services that receive, in the receivers, and nowhere else. If not, pipeList and the filter group
-- are as they were.
pub start_service-Registered :
    (v : ServiceName) (m : Machine) (c : Startup) (s : Fts) → Result v m c s
start_service-Registered rest_api = start_rest_api_service-Result
start_service-Registered cot = start_cot_service-Result
start_service-Registered tcp_data_package = start_tcp_data_package_service-Result
start_service-Registered ssl_data_package = start_ssl_data_package_service-Result
start_service-Registered ssl_cot = start_ssl_cot_service-Result
start_service-Registered federation_client = start_federation_client_service-Result
start_service-Registered federation_server = start_federation_server_service-Result

pub registered :
    (v : ServiceName) (m : Machine) (c : Startup) (s : Fts)
    → can_start m v ≡ true
    → Registered v s (start_service v m c s)
registered v m c s h = elim (start_service-Registered v m c s) [
  | inl (can, r) ↦ r
  | inr (cannot, u) ↦ absurd (ground arith)
]

pub running-of :
    (s : Fts) (o : Option ℕ) (i : ℕ)
    → o ≡ some i
    → is_alive_process o s ≡ true
    → (s.processes i).phase ≡ running
running-of s o i e h = alive (subst (λ o. is_alive_process o s ≡ true) e h)
  where
    alive : is_alive_process (some i) s ≡ true → (s.processes i).phase ≡ running
    alive h = ground arith
