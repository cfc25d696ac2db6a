-- ===== src/Composer/Service/Clients.antt =====
-- How many clients Composer has.
use hardware_arpi.Base.{
  ◌≤◌, ◌≡◌, refl, Bool, not, ◌&&◌, ◌||◌, ltb, List, [], ◌∷◌, if◌then◌else◌, arith,
}
use hardware_arpi.Composer.Error.{no_error, no_resources}
use hardware_arpi.Composer.Service.{
  Composer, Event, creates, destroys, new_composer, on_client_destroyed, wait_for_client_destroyed,
  create_client, serve, serve_all,
}

-- The flag tells whether there is a client.
abbrev IsConsistent : Composer → Type 0
IsConsistent s = s.clients ≡ (if s.client_alive then 1 else 0)

destroyed-IsConsistent : (s : Composer) → IsConsistent s → IsConsistent (on_client_destroyed s)
unfolding on_client_destroyed
destroyed-IsConsistent s c = ground (arith, c)

create-IsConsistent :
    (s : Composer) (destroyed initialised : Bool)
    → IsConsistent s
    → IsConsistent (create_client s destroyed initialised).0
unfolding create_client wait_for_client_destroyed on_client_destroyed
create-IsConsistent s destroyed initialised c = ground (arith, c)

serve-IsConsistent : (s : Composer) (e : Event) → IsConsistent s → IsConsistent (serve s e)
unfolding serve
serve-IsConsistent s (creates d i) c = create-IsConsistent s d i c
serve-IsConsistent s destroys c = destroyed-IsConsistent s c

serve_all-IsConsistent :
    (s : Composer) (es : List Event) → IsConsistent s → IsConsistent (serve_all s es)
unfolding serve_all
serve_all-IsConsistent s [] c = c
serve_all-IsConsistent s (e ∷ es) c =
    serve_all-IsConsistent (serve s e) es (serve-IsConsistent s e c)

create_answer :
    (s : Composer) (destroyed initialised : Bool)
    → (create_client s destroyed initialised).1 ≡ (
        if initialised && (not s.client_alive || destroyed && ltb 0 s.clients)
        then no_error
        else no_resources)
unfolding create_client wait_for_client_destroyed on_client_destroyed
create_answer s destroyed initialised = ground arith

-- The client that is alive is there to be destroyed.
alive_exists :
    (s : Composer) (destroyed : Bool)
    → IsConsistent s
    → (not s.client_alive || destroyed && ltb 0 s.clients) ≡ (not s.client_alive || destroyed)
alive_exists s destroyed c = ground (arith, c)

-- Whatever clients were asked for and destroyed since the service started, at most one exists. Asking
-- for another succeeds exactly where it can be initialised and none is alive or the last one is
-- destroyed during the wait; otherwise the answer is that there are no resources.
pub one_client :
    (es : List Event) (destroyed initialised : Bool)
    → let s = serve_all new_composer es in
      (s.clients ≤ 1)
      × ((create_client s destroyed initialised).1
          ≡ (if initialised && (not s.client_alive || destroyed) then no_error else no_resources))
one_client es destroyed initialised =
    let s = serve_all new_composer es in
    let c = serve_all-IsConsistent new_composer es refl in
    (ground (arith, c), rw (alive_exists s destroyed c) at (create_answer s destroyed initialised))
