-- ===== src/ServiceManager/Stopping/RoundTrip.antt =====
-- A service that is started and then stopped.
use free_tak_server.Base.{
  ℕ, String, true, false, ◌&&◌, ◌==◌, Option, none, some, ◌≡◌, refl, ◌⊎◌, inl, inr, Outcome,
  returns, arith, if◌then◌else◌, Bool-cases,
}
use free_tak_server.Base.Dict.{
  contains-insert_same, Dict, lookup, contains, insert, erase, lookup-insert, lookup-erase,
}
use free_tak_server.ServiceManager.State.{
  Startup, Pipe, Fts, Machine, Run, Code, success, running, is_alive_process, creates_all,
}
use free_tak_server.ServiceManager.Starting.{start_cot_service}
use free_tak_server.ServiceManager.Starting.Prepared.{prepare_cot_service-Prepared}
use free_tak_server.ServiceManager.Starting.Registered.{Registered, start_service-Registered}
use free_tak_server.ServiceManager.Stopping.{
  stop_cot_service, stop_tcp_data_package_service, stop_ssl_data_package_service,
  stop_federation_client_service, stop_federation_server_service,
}
use free_tak_server.ServiceManager.Services.{
  ServiceName, cot, tcp_data_package, ssl_data_package, federation_client, federation_server,
  start_service, pipe_name, service_type, pipe_of, process_of, receives, drops, can_start, needs,
  target,
}
use free_tak_server.ServiceManager.Stopping.Stopped.{
  Up, Stopped, stop_cot_service-Stopped, stop_tcp_data_package_service-Stopped,
  stop_ssl_data_package_service-Stopped, stop_federation_client_service-Stopped,
  stop_federation_server_service-Stopped,
}

lookup-erase-insert :
    {V : Type 0} (j k : String) (v : V) (d : Dict V)
    → lookup k (erase j (insert j v d)) ≡ (if j == k then none else lookup k d)
lookup-erase-insert j k v d = rw (lookup-erase, lookup-insert) (ground arith)

-- What is found under the name `k` when the service has been started and stopped again.
abbrev pub Restored : ServiceName → Fts → String → Outcome Code × Fts → Type 0
Restored v s k r =
    (r.0 ≡ returns success)
    × (is_alive_process (process_of v r.1) r.1 ≡ false)
    × (lookup k r.1.filter_group.sources
        ≡ (if service_type v == k then none else lookup k s.filter_group.sources))
    × (lookup k r.1.filter_group.receivers
        ≡ (if (service_type v == k) && receives v then none else lookup k s.filter_group.receivers))
    × (lookup k r.1.pipe_list ≡ (
        if pipe_name v == k
        then (if drops v then none else pipe_of v r.1)
        else lookup k s.pipe_list))

alive-running :
    (o : Option ℕ) (s : Fts)
    → is_alive_process o s ≡ true
    → (i : ℕ) × (o ≡ some i) × ((s.processes i).phase ≡ running)
alive-running none s h = absurd (ground arith)
alive-running (some i) s h = (i, refl, ground arith)

Registered-Up :
    (v : ServiceName) (s : Fts) (r : Outcome Code × Fts)
    → Registered v s r
    → (i : ℕ) × (p : Pipe) × Up v r.1 i p
Registered-Up v s r (a, h, (p, q, l, f, g)) =
    let (i, e, x) = alive-running (process_of v r.1) r.1 h in
    (i, p, (e, x, q, rw f (contains-insert_same _ p _), rw l (contains-insert_same _ p _)))

Stopped-Restored :
    (v : ServiceName) (s : Fts) (k : String) (r r' : Outcome Code × Fts) (i : ℕ)
    → Registered v s r
    → Stopped v r.1 i r'
    → Restored v s k r'
Stopped-Restored v s k r r' i (a, h, (p, q, l, f, g)) (b, e, w, x, u, y, z, o, n) =
    (b, rw (e, x) refl, rw (u, f, lookup-erase-insert) refl, receivers, queues)
  where
    receivers :
        lookup k r'.1.filter_group.receivers
        ≡ (if (service_type v == k) && receives v then none else lookup k s.filter_group.receivers)
    receivers = elim (Bool-cases (receives v)) [
      | inl t ↦ rw (y, g, t, lookup-erase-insert) (ground arith)
      | inr t ↦ rw (y, g, t) (ground arith)
    ]

    queues : lookup k r'.1.pipe_list ≡ (
        if pipe_name v == k
        then (if drops v then none else pipe_of v r'.1)
        else lookup k s.pipe_list)
    queues = elim (Bool-cases (drops v)) [
      | inl t ↦ rw (z, l, t, lookup-erase-insert) refl
      | inr t ↦ rw (w, q, z, l, t, lookup-insert) refl
    ]

receiver-contained :
    (v : ServiceName) (s : Fts) (r : Outcome Code × Fts)
    → receives v ≡ true
    → Registered v s r
    → contains (service_type v) r.1.filter_group.receivers ≡ true
receiver-contained v s r t (a, h, (p, q, l, f, g)) = rw (g, t) (contains-insert_same _ p _)

-- The event of the poison pill is created before anything can fail.
start_cot_service-pill :
    (m : Machine) (c : Startup) (s : Fts)
    → (e : ℕ) × ((start_cot_service m c s).1.cot_poison_pill ≡ some e)
unfolding start_cot_service
start_cot_service-pill m c s =
    let (x, t, e, q, g, n, o, k) = prepare_cot_service-Prepared c s in
    elim (Bool-cases (creates_all m (needs cot))) [
      | inr b ↦ (x.1, rw (e, b) k.1)
      | inl a ↦ elim (Bool-cases (m.spawns (target cot))) [
        | inr b ↦ (x.1, rw (e, a, b) k.1)
        | inl b ↦ (x.1, rw (e, a, b) k.1)
      ]
    ]

-- The machine does not let the service start, or its start is undone by its stop.
abbrev pub RoundTrip : ServiceName → Run Code → Machine → Startup → Fts → String → Type 0
RoundTrip v stop m c s k =
    (can_start m v ≡ false)
    ⊎ ((can_start m v ≡ true) × Restored v s k (stop (start_service v m c s).1))

-- From what the stop does to what it does after the start.
after_start :
    (v : ServiceName) (stop : Run Code) (m : Machine) (c : Startup) (s : Fts) (k : String)
    → (Registered v s (start_service v m c s)
        → (i : ℕ) × Stopped v (start_service v m c s).1 i (stop (start_service v m c s).1))
    → RoundTrip v stop m c s k
after_start v stop m c s k f = elim (start_service-Registered v m c s) [
  | inr (cannot, u) ↦ inl cannot
  | inl (can, r) ↦ inr (can, Stopped-Restored v s k (start_service v m c s) _ (f r).0 r (f r).1)
]

-- For each of the five services that can be stopped, on every machine, in every state, and for
-- every name: either the machine does not let the service start, or stopping it after its start
-- returns 1 and leaves its process not running; sources and receivers are then found under that
-- name as they were before the start, but for the name of the service, which is not a source, and
-- no receiver if it receives; and in pipeList all is found as before but the queue of the service,
-- which is gone, or, for the TCP CoT and the federation server, still there.
pub start_service-RoundTrip :
    (m : Machine) (c : Startup) (s : Fts) (k : String)
    → RoundTrip cot stop_cot_service m c s k
      × RoundTrip tcp_data_package stop_tcp_data_package_service m c s k
      × RoundTrip ssl_data_package stop_ssl_data_package_service m c s k
      × RoundTrip federation_client stop_federation_client_service m c s k
      × RoundTrip federation_server stop_federation_server_service m c s k
start_service-RoundTrip m c s k = (
  after_start cot stop_cot_service m c s k (λ r.
      let (i, p, up) = Registered-Up cot s (start_service cot m c s) r in
      let (e, pill) = start_cot_service-pill m c s in
      (
        i,
        stop_cot_service-Stopped _ i e pill up.0 up.1 up.3
            (receiver-contained cot s (start_service cot m c s) refl r),
      )),
  after_start tcp_data_package stop_tcp_data_package_service m c s k (λ r.
      let (i, p, up) = Registered-Up tcp_data_package s (start_service tcp_data_package m c s) r in
      (i, stop_tcp_data_package_service-Stopped _ i p up)),
  after_start ssl_data_package stop_ssl_data_package_service m c s k (λ r.
      let (i, p, up) = Registered-Up ssl_data_package s (start_service ssl_data_package m c s) r in
      (i, stop_ssl_data_package_service-Stopped _ i p up)),
  after_start federation_client stop_federation_client_service m c s k (λ r.
      let (i, p, up) =
        Registered-Up federation_client s (start_service federation_client m c s) r in
      (
        i,
        stop_federation_client_service-Stopped _ i p
            (receiver-contained federation_client s (start_service federation_client m c s) refl r)
            up,
      )),
  after_start federation_server stop_federation_server_service m c s k (λ r.
      let (i, p, up) =
        Registered-Up federation_server s (start_service federation_server m c s) r in
      (
        i,
        stop_federation_server_service-Stopped _ i p
            (receiver-contained federation_server s (start_service federation_server m c s) refl r)
            up,
      )),
)
