-- ===== src/ServiceManager/Starting/Kept.antt =====
-- A start of a service and the processes that there were before.
use free_tak_server.Base.{ℕ, ◌≤◌, ◌<◌, false, ◌≡◌, inl, inr, arith, Bool-cases, nat_eq}
use free_tak_server.ServiceManager.State.{Startup, Fts, Machine, creates_all}
use free_tak_server.ServiceManager.Starting.{
  start_rest_api_service, start_cot_service, start_tcp_data_package_service,
  start_ssl_data_package_service, start_ssl_cot_service, start_federation_client_service,
  start_federation_server_service,
}
use free_tak_server.ServiceManager.Services.{
  ServiceName, rest_api, cot, tcp_data_package, ssl_data_package, ssl_cot, federation_client,
  federation_server, start_service, needs, target,
}
use free_tak_server.ServiceManager.Starting.Prepared.{
  prepare_rest_api_service-Prepared, prepare_cot_service-Prepared,
  prepare_tcp_data_package_service-Prepared, prepare_ssl_data_package_service-Prepared,
  prepare_ssl_cot_service-Prepared, prepare_federation_client_service-Prepared,
  prepare_federation_server_service-Prepared,
}

abbrev pub Kept : ServiceName → Machine → Startup → Fts → ℕ → Type 0
Kept v m c s j =
    ((start_service v m c s).1.processes j ≡ s.processes j)
    × (s.next_id ≤ (start_service v m c s).1.next_id)

start_rest_api_service-Kept :
    (m : Machine) (c : Startup) (s : Fts) (j : ℕ) → j < s.next_id → Kept rest_api m c s j
unfolding start_rest_api_service
start_rest_api_service-Kept m c s j h =
    let (x, t, e, q, g, n, o, k) = prepare_rest_api_service-Prepared c s in
    let f : nat_eq t.next_id j ≡ false = ground arith in
    let r : nat_eq x.1 j ≡ false = ground arith in
    elim (Bool-cases (creates_all m (needs rest_api))) [
      | inr b ↦ rw (e, b) (o j h, n)
      | inl a ↦ elim (Bool-cases (m.spawns "receive_Rest_commands")) [
        | inr b ↦ rw (e, a, b, f) (o j h, omega arith)
        | inl d ↦ elim (Bool-cases (m.spawns (target rest_api))) [
          | inr b ↦ rw (e, a, d, b, f, r) (o j h, omega arith)
          | inl b ↦ rw (e, a, d, b, f, r) (o j h, omega arith)
        ]
      ]
    ]

start_cot_service-Kept :
    (m : Machine) (c : Startup) (s : Fts) (j : ℕ) → j < s.next_id → Kept cot m c s j
unfolding start_cot_service
start_cot_service-Kept m c s j h =
    let (x, t, e, q, g, n, o, k) = prepare_cot_service-Prepared c s in
    let f : nat_eq t.next_id j ≡ false = ground arith in
    elim (Bool-cases (creates_all m (needs cot))) [
      | inr b ↦ rw (e, b) (o j h, n)
      | inl a ↦ elim (Bool-cases (m.spawns (target cot))) [
        | inr b ↦ rw (e, a, b, f) (o j h, omega arith)
        | inl b ↦ rw (e, a, b, f) (o j h, omega arith)
      ]
    ]

start_tcp_data_package_service-Kept :
    (m : Machine) (c : Startup) (s : Fts) (j : ℕ) → j < s.next_id → Kept tcp_data_package m c s j
unfolding start_tcp_data_package_service
start_tcp_data_package_service-Kept m c s j h =
    let (x, t, e, q, g, n, o, k) = prepare_tcp_data_package_service-Prepared c s in
    let f : nat_eq t.next_id j ≡ false = ground arith in
    elim (Bool-cases (creates_all m (needs tcp_data_package))) [
      | inr b ↦ rw (e, b) (o j h, n)
      | inl a ↦ elim (Bool-cases (m.spawns (target tcp_data_package))) [
        | inr b ↦ rw (e, a, b, f) (o j h, omega arith)
        | inl b ↦ rw (e, a, b, f) (o j h, omega arith)
      ]
    ]

start_ssl_data_package_service-Kept :
    (m : Machine) (c : Startup) (s : Fts) (j : ℕ) → j < s.next_id → Kept ssl_data_package m c s j
unfolding start_ssl_data_package_service
start_ssl_data_package_service-Kept m c s j h =
    let (x, t, e, q, g, n, o, k) = prepare_ssl_data_package_service-Prepared c s in
    let f : nat_eq t.next_id j ≡ false = ground arith in
    elim (Bool-cases (creates_all m (needs ssl_data_package))) [
      | inr b ↦ rw (e, b) (o j h, n)
      | inl a ↦ elim (Bool-cases (m.spawns (target ssl_data_package))) [
        | inr b ↦ rw (e, a, b, f) (o j h, omega arith)
        | inl b ↦ rw (e, a, b, f) (o j h, omega arith)
      ]
    ]

start_ssl_cot_service-Kept :
    (m : Machine) (c : Startup) (s : Fts) (j : ℕ) → j < s.next_id → Kept ssl_cot m c s j
unfolding start_ssl_cot_service
start_ssl_cot_service-Kept m c s j h =
    let (x, t, e, q, g, n, o, k) = prepare_ssl_cot_service-Prepared c s in
    let f : nat_eq t.next_id j ≡ false = ground arith in
    elim (Bool-cases (creates_all m (needs ssl_cot))) [
      | inr b ↦ rw (e, b) (o j h, n)
      | inl a ↦ elim (Bool-cases (m.spawns (target ssl_cot))) [
        | inr b ↦ rw (e, a, b, f) (o j h, omega arith)
        | inl b ↦ rw (e, a, b, f) (o j h, omega arith)
      ]
    ]

start_federation_client_service-Kept :
    (m : Machine) (c : Startup) (s : Fts) (j : ℕ) → j < s.next_id → Kept federation_client m c s j
unfolding start_federation_client_service
start_federation_client_service-Kept m c s j h =
    let (x, t, e, q, g, n, o, k) = prepare_federation_client_service-Prepared s in
    let f : nat_eq t.next_id j ≡ false = ground arith in
    elim (Bool-cases (creates_all m (needs federation_client))) [
      | inr b ↦ rw (e, b) (o j h, n)
      | inl a ↦ elim (Bool-cases (m.spawns (target federation_client))) [
        | inr b ↦ rw (e, a, b, f) (o j h, omega arith)
        | inl b ↦ rw (e, a, b, f) (o j h, omega arith)
      ]
    ]

start_federation_server_service-Kept :
    (m : Machine) (c : Startup) (s : Fts) (j : ℕ) → j < s.next_id → Kept federation_server m c s j
unfolding start_federation_server_service
start_federation_server_service-Kept m c s j h =
    let (x, t, e, q, g, n, o, k) = prepare_federation_server_service-Prepared s in
    let f : nat_eq t.next_id j ≡ false = ground arith in
    elim (Bool-cases (creates_all m (needs federation_server))) [
      | inr b ↦ rw (e, b) (o j h, n)
      | inl a ↦ elim (Bool-cases (m.spawns (target federation_server))) [
        | inr b ↦ rw (e, a, b, f) (o j h, omega arith)
        | inl b ↦ rw (e, a, b, f) (o j h, omega arith)
      ]
    ]

-- A starting method, on every branch, leaves each process that there was as it was, and takes back
-- no number that it gave.
pub start_service-Kept :
    (v : ServiceName) (m : Machine) (c : Startup) (s : Fts) (j : ℕ) → j < s.next_id → Kept v m c s j
start_service-Kept rest_api = start_rest_api_service-Kept
start_service-Kept cot = start_cot_service-Kept
start_service-Kept tcp_data_package = start_tcp_data_package_service-Kept
start_service-Kept ssl_data_package = start_ssl_data_package_service-Kept
start_service-Kept ssl_cot = start_ssl_cot_service-Kept
start_service-Kept federation_client = start_federation_client_service-Kept
start_service-Kept federation_server = start_federation_server_service-Kept
