-- ===== src/Composer/Service.antt =====
-- Composer of graphics/composer/aidl/Composer.{h,cpp}: the clients of the service, one at a time. The
-- calls hold a lock, which the wait for the end of the last client gives up.
pub mod Clients
use hardware_arpi.Base.{
  ℕ, ◌+◌, ◌-◌, ◌≤◌, ◌≡◌, refl, Bool, true, false, not, ◌&&◌, List, [], ◌∷◌, ◌==◌, if◌then◌else◌,
  arith, inl, inr, Bool-cases,
}
use hardware_arpi.Composer.Error.{Error, no_error, no_resources}

-- `mClientAlive`, and the number of clients that were handed out and whose destructors have not ended.
pub record Composer : Type 0 where
  pub client_alive : Bool
  pub clients : ℕ

abbrev pub new_composer : Composer
new_composer = record { client_alive = false; clients = 0 }

-- The end of a client's destructor, which calls it; without clients there is none to end.
unfoldable pub on_client_destroyed : Composer → Composer
on_client_destroyed s =
    if s.clients == 0 then s else record { client_alive = false; clients = s.clients - 1 }

-- Whether the client is destroyed within the second that is waited is up to the other threads.
unfoldable pub wait_for_client_destroyed : Composer → Bool → Composer × Bool
unfolding on_client_destroyed
wait_for_client_destroyed s destroyed =
    let s' = if s.client_alive && destroyed then on_client_destroyed s else s in
    (s', not s'.client_alive)

-- With whether the new client could be initialised.
unfoldable pub create_client : Composer → Bool → Bool → Composer × Error
unfolding wait_for_client_destroyed
create_client s destroyed initialised =
    let (s', free) = wait_for_client_destroyed s destroyed in
    if not free
    then (s', no_resources)
    else if not initialised
    then (s', no_resources)
    else (record { client_alive = true; clients = s'.clients + 1 }, no_error)

pub data Event : Type 0 where
  creates : Bool → Bool → Event
  destroys : Event

unfoldable pub serve : Composer → Event → Composer
unfolding create_client on_client_destroyed
serve s (creates destroyed initialised) = (create_client s destroyed initialised).0
serve s destroys = on_client_destroyed s

unfoldable pub serve_all : Composer → List Event → Composer
unfolding serve
serve_all s [] = s
serve_all s (e ∷ es) = serve_all (serve s e) es
