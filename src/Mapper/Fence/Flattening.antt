-- ===== src/Mapper/Fence/Flattening.antt =====
-- Sending a fence to another process and receiving it.
use hardware_arpi.Base.{ℕ, ◌≡◌, ◌≤◌, refl, true, false, Bool-cases, inl, inr, arith, ◌-◌, [], ◌∷◌}
use hardware_arpi.Base.Int.{ℤ, pos}
use hardware_arpi.Mapper.Fence.{no_fd, has_fd, get_fd_count, flatten, unflatten}

no_fd_eq : (fd : ℤ) → has_fd fd ≡ false → fd ≡ no_fd
unfolding has_fd
no_fd_eq fd e = ground (arith, e)

valid_round :
    (fd : ℤ) (size count : ℕ)
    → has_fd fd ≡ true
    → 4 ≤ size
    → 1 ≤ count
    → (flatten fd size count ≡ record {
      status = pos 0;
      size = size - 4;
      count = count - 1;
      words = 1 ∷ [];
      fds = fd ∷ [];
    })
      × (unflatten no_fd (1 ∷ []) (fd ∷ []) size count
          ≡ record { status = pos 0; fd = fd; size = size - 4; count = count - 1 })
unfolding flatten unflatten
valid_round fd size count e s c = rw e (ground (arith, s, c), ground (arith, s, c))

empty_round :
    (size count : ℕ)
    → 4 ≤ size
    → (flatten no_fd size count
        ≡ record { status = pos 0; size = size - 4; count = count; words = 0 ∷ []; fds = [] })
      × (unflatten no_fd (0 ∷ []) [] size count
          ≡ record { status = pos 0; fd = no_fd; size = size - 4; count = count })
unfolding flatten unflatten
empty_round size count s = (ground (arith, s), ground (arith, s))

-- Where there is room for 4 bytes and for the descriptor, flattening a fence and unflattening what
-- was written into an empty one gives the fence back, and the two take the same from the buffer and
-- from the descriptors.
pub unflatten-flatten :
    (fd : ℤ) (size count : ℕ)
    → 4 ≤ size
    → get_fd_count fd ≤ count
    → let w = flatten fd size count in
      let r = unflatten no_fd w.words w.fds size count in
      (w.status ≡ pos 0)
      × (r.status ≡ pos 0)
      × (r.fd ≡ fd)
      × (r.size ≡ w.size)
      × (r.count ≡ w.count)
unflatten-flatten fd size count s c = elim (Bool-cases (has_fd fd)) [
  | inl e ↦
      let (p, q) = valid_round fd size count e s (rw e at c) in
      rw (p, q) (refl, refl, refl, refl, refl)
  | inr e ↦
      let (p, q) = empty_round size count s in
      rw (no_fd_eq fd e, p, q) (refl, refl, refl, refl, refl)
]
