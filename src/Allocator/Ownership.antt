-- ===== src/Allocator/Ownership.antt =====
-- An allocation gives back every buffer object that it made.
use hardware_arpi.Base.{
  ℕ, ◌≡◌, refl, true, false, List, [], ◌∷◌, ◌++◌, none, ◌==◌, ap, ◌/◌, Bool-cases, inl, inr,
  if◌then◌else◌, arith,
}
use hardware_arpi.Base.Int.{ℤ, is_zero}
use hardware_arpi.Base.Ids.{contains, count}
use hardware_arpi.Gralloc.Format.{get_bpp}
use hardware_arpi.Gralloc.Buffers.{Gralloc, PrivateHandle, gbm_free, add_bo}
use hardware_arpi.Gralloc.Buffers.Map.{BoMap, find}
use hardware_arpi.Gralloc.Buffers.Ownership.{SetsErrno, alloc_status_cases}
use hardware_arpi.Allocator.{
  BufferDescriptor, Answer, allocate_one_buffer, free_buffers, allocated_one, allocate_loop,
  allocate, unknown_error,
}
use hardware_arpi.Allocator.Owned.{
  Owned, owner, owned_count, or_else, Holds, owner-append, Separate, Separate-append, add-Holds,
  free-Holds,
}

handles : Owned → List ℕ
handles [] = []
handles ((k, bo) ∷ os) = k ∷ handles os

handles-append : (k bo : ℕ) (os : Owned) → handles os ++ k ∷ [] ≡ handles (os ++ (k, bo) ∷ [])
unfolding handles
handles-append k bo [] = refl
handles-append k bo ((j, c) ∷ os) = ap (◌∷◌ j) (handles-append k bo os)

free_all-Holds :
    (g0 g : Gralloc) (os : Owned)
    → Holds g0 g os
    → Separate g0.handle_map os
    → Holds g0 (free_buffers g (handles os)) []
unfolding free_buffers handles
free_all-Holds g0 g [] v s = v
free_all-Holds g0 g ((k, bo) ∷ os) v (f, o, s) =
    free_all-Holds g0 (gbm_free g k) os (free-Holds g0 g k bo os v f o) s

abbrev pub addresses : List Answer → List ℕ
addresses [] = []
addresses (a ∷ answers) = a.address ∷ addresses answers

-- `new` gives addresses that have no entry and are not given twice.
abbrev pub Fresh : BoMap → List Answer → Type 0
Fresh m [] = Unit
Fresh m (a ∷ answers) =
    (find a.address m ≡ none) × (contains a.address (addresses answers) ≡ false) × Fresh m answers

-- Where libgbm makes no object in an answer, it leaves an error number.
abbrev pub AllSetErrno : List Answer → Type 0
AllSetErrno [] = Unit
AllSetErrno (a ∷ answers) = SetsErrno a.bo_new a.errno × AllSetErrno answers

-- Nor are they those of the buffers made so far.
abbrev Unowned : Owned → List Answer → Type 0
Unowned os answers = (x : ℕ) → contains x (addresses answers) ≡ true → owner x os ≡ none

Unowned-append :
    (os : Owned) (a : Answer) (answers : List Answer) (bo : ℕ)
    → Unowned os (a ∷ answers)
    → contains a.address (addresses answers) ≡ false
    → Unowned (os ++ (a.address, bo) ∷ []) answers
unfolding contains or_else
Unowned-append os a answers bo u c x e = ground (arith, owner-append x a.address bo os, u x, c, e)

Unowned-first :
    (os : Owned) (a : Answer) (answers : List Answer)
    → Unowned os (a ∷ answers)
    → owner a.address os ≡ none
unfolding contains
Unowned-first os a answers u = ground (arith, u a.address)

keep_memory :
    (g0 g : Gralloc) (m : ℕ → PrivateHandle) (os : Owned)
    → Holds g0 g os
    → Holds g0 (record g { memory = m }) os
keep_memory g0 g m os v = record { entries = v.entries; objects = v.objects }

loop-Holds :
    (d : BufferDescriptor) (answers : List Answer) (g0 g : Gralloc) (stride : ℕ) (os : Owned)
    → Holds g0 g os
    → Separate g0.handle_map os
    → Fresh g0.handle_map answers
    → AllSetErrno answers
    → Unowned os answers
    → Holds g0 (allocate_loop d answers g stride (handles os)).0 []
unfolding allocate_loop allocate_one_buffer allocated_one
loop-Holds d [] g0 g stride os v s f n u = free_all-Holds g0 g os v s
loop-Holds d (a ∷ answers) g0 g stride os v s (f, c, fs) (n, ns) u =
    let o = Unowned-first os a answers u in
    alloc_status_cases
      (λ r. Holds g0 (allocated_one r stride (handles os) (allocate_loop d answers)).0 []) a.bo_new
      a.errno g a.address d.width d.height d.format _
      (λ m status failed. rw (failed n) (free_all-Holds g0 _ os (keep_memory g0 g m os v) s))
      (λ m r bo given.
        let os' = os ++ (a.address, bo.address) ∷ [] in
        let v' = add-Holds g0 g m a.address bo os v f o in
        let s' = Separate-append g0.handle_map a.address bo.address os f o s in
        let u' = Unowned-append os a answers bo.address u c in
        rw (handles-append a.address bo.address os) (
          one_more (λ g' t p v'' s'' u''. loop-Holds d answers g0 g' t p v'' s'' fs ns u'')
            (bo.bo_stride / get_bpp d.format) (add_bo (record g { memory = m }) a.address bo) os' v'
            s' u'))
  where
    one_more :
        ((g' : Gralloc) (t : ℕ) (p : Owned)
          → Holds g0 g' p
          → Separate g0.handle_map p
          → Unowned p answers
          → Holds g0 (allocate_loop d answers g' t (handles p)).0 [])
        → (t : ℕ) (g' : Gralloc) (os' : Owned) → Holds g0 g' os'
        → Separate g0.handle_map os'
        → Unowned os' answers
        → Holds g0
            (if stride == 0
              then allocate_loop d answers g' t (handles os')
              else if stride == t
              then allocate_loop d answers g' stride (handles os')
              else (free_buffers g' (handles os'), unknown_error, none)).0
            []
    one_more again t g' os' v' s' u' = elim (Bool-cases (stride == 0)) [
      | inl e ↦ rw e (again g' t os' v' s' u')
      | inr e ↦ elim (Bool-cases (stride == t)) [
        | inl k ↦ rw (e, k) (again g' stride os' v' s' u')
        | inr k ↦ rw (e, k) (free_all-Holds g0 g' os' v' s')
      ]
    ]

-- Whether it succeeds, fails to decode, runs out of memory after some buffers, or finds two strides,
-- an allocation whose new handles have addresses of their own, and during which libgbm leaves an error
-- number wherever it gives no object, leaves the map and the objects alive as they were: every handle has the entry of before, and every object is alive as often as before.
pub allocate_leaks_nothing :
    (g : Gralloc) (ret : ℤ) (d : BufferDescriptor) (answers : List Answer)
    → Fresh g.handle_map answers
    → AllSetErrno answers
    → ((h : ℕ) → find h (allocate g (ret, d) answers).0.handle_map ≡ find h g.handle_map)
      × ((b : ℕ) → count b (allocate g (ret, d) answers).0.live ≡ count b g.live)
unfolding allocate owner owned_count or_else handles
allocate_leaks_nothing g ret d answers fresh sets = elim (Bool-cases (is_zero ret)) [
  | inr e ↦ rw e (λ h. refl, λ b. refl)
  | inl e ↦
      let v =
        loop-Holds d answers g g 0 [] (record { entries = λ h. refl; objects = λ b. omega arith })
          tt fresh sets (λ x k. refl) in
      rw e (v.entries, λ b. omega (arith, v.objects b))
]
