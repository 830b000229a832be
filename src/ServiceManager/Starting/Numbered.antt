-- ===== src/ServiceManager/Starting/Numbered.antt =====
-- The process of a CoT service has a number that no process had before.
use free_tak_server.Base.{ℕ, ◌≤◌, ◌<◌, true, some, ◌≡◌, refl, arith}
use free_tak_server.ServiceManager.State.{Startup, Fts, Machine, creates_all}
use free_tak_server.ServiceManager.Starting.{start_cot_service, start_ssl_cot_service}
use free_tak_server.ServiceManager.Services.{
  ServiceName, cot, ssl_cot, start_service, needs, target, can_start,
}
use free_tak_server.ServiceManager.Starting.Prepared.{
  prepare_cot_service-Prepared, prepare_ssl_cot_service-Prepared,
}

-- Process and event of the service are those that were made last.
abbrev pub Numbered : ServiceName → Machine → Startup → Fts → Type 0
Numbered v m c s =
    (i : ℕ) × (e : ℕ) × ((start_service v m c s).1.cot_service ≡ some i)
    × (s.next_id ≤ i)
    × (i < (start_service v m c s).1.next_id)
    × ((start_service v m c s).1.cot_poison_pill ≡ some e)

pub start_cot_service-Numbered :
    (m : Machine) (c : Startup) (s : Fts) → can_start m cot ≡ true → Numbered cot m c s
unfolding start_cot_service
start_cot_service-Numbered m c s h =
    let (x, t, e, q, g, n, o, k) = prepare_cot_service-Prepared c s in
    let a : creates_all m (needs cot) ≡ true = ground arith in
    let b : m.spawns (target cot) ≡ true = ground arith in
    (t.next_id, x.1, rw (e, a, b) refl, n, rw (e, a, b) (omega arith), rw (e, a, b) k.1)

pub start_ssl_cot_service-Numbered :
    (m : Machine) (c : Startup) (s : Fts) → can_start m ssl_cot ≡ true → Numbered ssl_cot m c s
unfolding start_ssl_cot_service
start_ssl_cot_service-Numbered m c s h =
    let (x, t, e, q, g, n, o, k) = prepare_ssl_cot_service-Prepared c s in
    let a : creates_all m (needs ssl_cot) ≡ true = ground arith in
    let b : m.spawns (target ssl_cot) ≡ true = ground arith in
    (t.next_id, x.1, rw (e, a, b) refl, n, rw (e, a, b) (omega arith), rw (e, a, b) k.1)
