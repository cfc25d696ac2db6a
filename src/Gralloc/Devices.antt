-- ===== src/Gralloc/Devices.antt =====
-- The opening and closing of libgbm's device: gbm_init and gbm_destroy of
-- graphics/common/gbm_gralloc.cpp, and the constructors and destructors of Allocator and Mapper, which
-- call them. The answers of the system and of libgbm are arguments; kept are the descriptors that are
-- open and the devices that are alive.
use hardware_arpi.Base.{ℕ, ◌≡◌, refl, ap, ◌∙◌, false, List, ◌∷◌, Option, none, some, ◌==◌, arith}
use hardware_arpi.Base.Ids.{contains, erase}
use hardware_arpi.Base.Int.{ℤ, pos, negsuc}

pub record Devices : Type 0 where
  pub fds : List ℕ
  pub devices : List ℕ

abbrev opened : ℕ → Devices → Devices
opened fd s = record s { fds = fd ∷ s.fds }

unfoldable closed : ℕ → Devices → Devices
closed fd s = record s { fds = erase fd s.fds }

-- The device node is opened with the given answer; the device is null where there is none.
unfoldable pub gbm_init : ℤ → (ℕ → Option ℕ) → Devices → Devices × Option ℕ
unfolding closed
gbm_init (negsuc n) create s = (s, none)
gbm_init (pos fd) create s = elim (create fd) [
  | none ↦ (closed fd (opened fd s), none)
  | some gbm ↦ (record (opened fd s) { devices = gbm ∷ s.devices }, some gbm)
]

unfoldable pub gbm_destroy : (ℕ → ℕ) → ℕ → Devices → Devices
unfolding closed
gbm_destroy get_fd gbm s = closed (get_fd gbm) (record s { devices = erase gbm s.devices })

-- A service is its `gbmDevice`.
unfoldable pub new_allocator : ℤ → (ℕ → Option ℕ) → Devices → Devices × Option ℕ
unfolding gbm_init
new_allocator answer create s = gbm_init answer create s

unfoldable pub delete_allocator : (ℕ → ℕ) → Option ℕ → Devices → Devices
unfolding gbm_destroy
delete_allocator get_fd none s = s
delete_allocator get_fd (some gbm) s = gbm_destroy get_fd gbm s

unfoldable pub new_mapper : ℤ → (ℕ → Option ℕ) → Devices → Devices × Option ℕ
unfolding gbm_init
new_mapper answer create s = gbm_init answer create s

unfoldable pub delete_mapper : (ℕ → ℕ) → Option ℕ → Devices → Devices
unfolding gbm_destroy
delete_mapper get_fd none s = s
delete_mapper get_fd (some gbm) s = gbm_destroy get_fd gbm s

erase_head : (x : ℕ) (xs : List ℕ) → erase x (x ∷ xs) ≡ xs
unfolding erase
erase_head x xs = ground arith

erase_second : (x y : ℕ) (xs : List ℕ) → (y == x) ≡ false → erase x (y ∷ x ∷ xs) ≡ y ∷ xs
unfolding erase
erase_second x y xs e = ground (arith, e)

abbrev with_device : ℕ → ℕ → Devices → Devices
with_device fd gbm s = record { fds = fd ∷ s.fds; devices = gbm ∷ s.devices }

-- What gbm_init gives: nothing and no change, or a device on the descriptor that was opened.
data Opening (answer : ℤ) (create : ℕ → Option ℕ) (s : Devices) : Devices × Option ℕ → Type 0 where
  failed : Opening answer create s (s, none)
  made :
      (fd gbm : ℕ)
      → answer ≡ pos fd
      → create fd ≡ some gbm
      → Opening answer create s (with_device fd gbm s, some gbm)

gbm_init-Opening :
    (answer : ℤ) (create : ℕ → Option ℕ) (s : Devices)
    → Opening answer create s (gbm_init answer create s)
unfolding gbm_init closed
gbm_init-Opening (negsuc n) create s = failed
gbm_init-Opening (pos fd) create s = go (create fd) refl
  where
    go :
        (o : Option ℕ)
        → create fd ≡ o
        → Opening (pos fd) create s (elim o [
          | none ↦ (closed fd (opened fd s), none)
          | some gbm ↦ (record (opened fd s) { devices = gbm ∷ s.devices }, some gbm)
        ])
    go none e = rw (erase_head fd s.fds) failed
    go (some gbm) e = made fd gbm refl e

other_first : (x y : ℕ) (ys : List ℕ) → contains y (x ∷ ys) ≡ false → (y == x) ≡ false
unfolding contains
other_first x y ys h = ground (arith, h)

module _ (get_fd : ℕ → ℕ) where
  delete_mapper-closes :
      (fd gbm : ℕ) (s : Devices)
      → get_fd gbm ≡ fd
      → delete_mapper get_fd (some gbm) (with_device fd gbm s) ≡ s
  unfolding delete_mapper gbm_destroy closed
  delete_mapper-closes fd gbm s e = rw (e, erase_head fd s.fds, erase_head gbm s.devices) refl

  delete_allocator-first :
      (fd gbm : ℕ) (s : Devices)
      → get_fd gbm ≡ fd
      → delete_allocator get_fd (some gbm) (with_device fd gbm s) ≡ s
  unfolding delete_allocator gbm_destroy closed
  delete_allocator-first fd gbm s e = rw (e, erase_head fd s.fds, erase_head gbm s.devices) refl

  delete_allocator-second :
      (fd gbm fd' gbm' : ℕ) (s : Devices)
      → get_fd gbm ≡ fd
      → (fd' == fd) ≡ false
      → (gbm' == gbm) ≡ false
      → delete_allocator get_fd (some gbm) (with_device fd' gbm' (with_device fd gbm s))
        ≡ with_device fd' gbm' s
  unfolding delete_allocator gbm_destroy closed
  delete_allocator-second fd gbm fd' gbm' s e f g =
      rw (e, erase_second fd fd' s.fds f, erase_second gbm gbm' s.devices g) refl

  other_device :
      (gbm gbm' : ℕ) {fd fd' : ℕ}
      → get_fd gbm ≡ fd
      → get_fd gbm' ≡ fd'
      → (fd' == fd) ≡ false
      → (gbm' == gbm) ≡ false
  other_device gbm gbm' e e' other = grind (arith, e, e', other)

  -- Where gbm_device_get_fd gives the descriptor that a device was made on, and the second opening
  -- gives one that is not open, and whatever libgbm answers to each of the two: an allocator and a mapper that are made, and destroyed in the same
  -- order, leave the open descriptors and the living devices as they were, whatever fails.
  pub services_close :
      (create create' : ℕ → Option ℕ) (first second : ℤ) (s : Devices)
      → ((fd gbm : ℕ) → create fd ≡ some gbm → get_fd gbm ≡ fd)
      → ((fd gbm : ℕ) → create' fd ≡ some gbm → get_fd gbm ≡ fd)
      → let (s1, allocator) = new_allocator first create s in
        let (s2, mapper) = new_mapper second create' s1 in
        ((fd : ℕ) → second ≡ pos fd → contains fd s1.fds ≡ false)
        → delete_mapper get_fd mapper (delete_allocator get_fd allocator s2) ≡ s
  unfolding new_allocator new_mapper delete_allocator delete_mapper contains
  services_close create create' first second s law law' fresh =
      go (gbm_init first create s) (gbm_init-Opening first create s) fresh
    where
      last :
          (p : Devices × Option ℕ) (q : Devices × Option ℕ)
          → Opening first create s p
          → Opening second create' p.0 q
          → ((fd : ℕ) → second ≡ pos fd → contains fd p.0.fds ≡ false)
          → delete_mapper get_fd q.1 (delete_allocator get_fd p.1 q.0) ≡ s
      last _ _ failed failed h = refl
      last _ _ failed (made fd gbm a c) h = delete_mapper-closes fd gbm s (law' fd gbm c)
      last _ _ (made fd gbm a c) failed h = delete_allocator-first fd gbm s (law fd gbm c)
      last _ _ (made fd gbm a c) (made fd' gbm' a' c') h =
          let other : (fd' == fd) ≡ false = other_first fd fd' s.fds (h fd' a') in
          let other' : (gbm' == gbm) ≡ false =
            other_device gbm gbm' (law fd gbm c) (law' fd' gbm' c') other in
          ap (delete_mapper get_fd (some gbm'))
            (delete_allocator-second fd gbm fd' gbm' s (law fd gbm c) other other')
          ∙ delete_mapper-closes fd' gbm' s (law' fd' gbm' c')

      go :
          (p : Devices × Option ℕ)
          → Opening first create s p
          → ((fd : ℕ) → second ≡ pos fd → contains fd p.0.fds ≡ false)
          → delete_mapper get_fd
              (gbm_init second create' p.0).1
              (delete_allocator get_fd p.1 (gbm_init second create' p.0).0)
            ≡ s
      go p i h = last p (gbm_init second create' p.0) i (gbm_init-Opening second create' p.0) h
