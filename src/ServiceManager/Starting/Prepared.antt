-- ===== src/ServiceManager/Starting/Prepared.antt =====
-- What the methods before a start of a process change.
use free_tak_server.Base.{ℕ, ◌≤◌, ◌<◌, some, ◌≡◌, refl, returns, arith}
use free_tak_server.ServiceManager.State.{Startup, Fts, Run}
use free_tak_server.ServiceManager.Starting.{
  prepare_rest_api_service, prepare_cot_service, prepare_tcp_data_package_service,
  prepare_ssl_data_package_service, prepare_ssl_cot_service, prepare_federation_client_service,
  prepare_federation_server_service,
}

-- It returns, and has neither registered a queue nor changed a process that there was.
abbrev pub Prepared : {X : Type 0} → Run X → Fts → (X → Fts → Type 0) → Type 0
Prepared {X} prepare s P =
    (x : X) × (t : Fts) × (prepare s ≡ (returns x, t))
    × (t.pipe_list ≡ s.pipe_list)
    × (t.filter_group ≡ s.filter_group)
    × (s.next_id ≤ t.next_id)
    × ((j : ℕ) → j < s.next_id → t.processes j ≡ s.processes j)
    × P x t

pub prepare_rest_api_service-Prepared :
    (c : Startup) (s : Fts)
    → Prepared
        (prepare_rest_api_service c)
        s
        (λ x t. (t.rest_api_pipe ≡ some x.0) × (s.next_id ≤ x.1))
unfolding prepare_rest_api_service
prepare_rest_api_service-Prepared c s =
    (_, _, refl, refl, refl, omega arith, λ j h. ground arith, (refl, omega arith))

pub prepare_cot_service-Prepared :
    (c : Startup) (s : Fts)
    → Prepared
        (prepare_cot_service c)
        s
        (λ x t. (t.tcp_cot_service ≡ some x.0) × (t.cot_poison_pill ≡ some x.1))
unfolding prepare_cot_service
prepare_cot_service-Prepared c s = (_, _, refl, refl, refl, omega arith, λ j h. refl, (refl, refl))

pub prepare_tcp_data_package_service-Prepared :
    (c : Startup) (s : Fts)
    → Prepared
        (prepare_tcp_data_package_service c)
        s
        (λ x t. t.tcp_data_package_service_pipe ≡ some x)
unfolding prepare_tcp_data_package_service
prepare_tcp_data_package_service-Prepared c s =
    (_, _, refl, refl, refl, omega arith, λ j h. refl, refl)

pub prepare_ssl_data_package_service-Prepared :
    (c : Startup) (s : Fts)
    → Prepared
        (prepare_ssl_data_package_service c)
        s
        (λ x t. t.ssl_data_package_service_pipe ≡ some x)
unfolding prepare_ssl_data_package_service
prepare_ssl_data_package_service-Prepared c s =
    (_, _, refl, refl, refl, omega arith, λ j h. refl, refl)

pub prepare_ssl_cot_service-Prepared :
    (c : Startup) (s : Fts)
    → Prepared
        (prepare_ssl_cot_service c)
        s
        (λ x t. (t.ssl_cot_service ≡ some x.0) × (t.cot_poison_pill ≡ some x.1))
unfolding prepare_ssl_cot_service
prepare_ssl_cot_service-Prepared c s =
    (_, _, refl, refl, refl, omega arith, λ j h. refl, (refl, refl))

pub prepare_federation_client_service-Prepared :
    (s : Fts)
    → Prepared prepare_federation_client_service s
        (λ x t. t.federation_client_service_pipe ≡ some x)
unfolding prepare_federation_client_service
prepare_federation_client_service-Prepared s =
    (_, _, refl, refl, refl, omega arith, λ j h. refl, refl)

pub prepare_federation_server_service-Prepared :
    (s : Fts)
    → Prepared prepare_federation_server_service s
        (λ x t. t.federation_server_service_pipe ≡ some x)
unfolding prepare_federation_server_service
prepare_federation_server_service-Prepared s =
    (_, _, refl, refl, refl, omega arith, λ j h. refl, refl)
