-- ===== src/Examples/Handles.antt =====
-- Calls into graphics/common/gbm_gralloc.cpp on two handles, one registered and one allocated.
use hardware_arpi.Base.{◌≡◌, refl, some, [], ◌∷◌, List, arith}
use hardware_arpi.Base.Ids.{count}
use hardware_arpi.Platform.{rgba_8888, gpu_texture}
use hardware_arpi.Gralloc.Buffers.{NewBo, ImportData, CreateRequest, gbm_register, gbm_alloc}
use hardware_arpi.Gralloc.Buffers.Map.{find, emplace}
use hardware_arpi.Gralloc.Format.{get_bpp}
use hardware_arpi.Gralloc.Calls.{
  Call, registers, frees, allocates, initial, run, step, HoldsAfter, Along,
}
use hardware_arpi.Gralloc.Calls.Safety.{IsOwned, IsFresh, run-initial-IsOwned}
use hardware_arpi.Gralloc.Calls.Leaks.{IsNamed, IsNew, run-initial-IsNamed}
use hardware_arpi.Examples.Buffers.{memory_of, import_any, create_any}

abbrev two_handles : List Call
two_handles =
    registers import_any 100
    ∷ allocates create_any 12 200 64 32 rgba_8888 gpu_texture
    ∷ frees 100
    ∷ []

given_7 : (d : ImportData) (bo : NewBo) → import_any d ≡ some bo → count bo.address [] ≡ 0
unfolding count
given_7 d bo e = refl

given_8 : (d : CreateRequest) (bo : NewBo) → create_any d ≡ some bo → count bo.address (7 ∷ []) ≡ 0
unfolding count
given_8 d bo e = ground (arith, e)

two_handles-IsFresh : Along IsFresh (initial (memory_of rgba_8888)) two_handles
unfolding step gbm_register find emplace
two_handles-IsFresh = (given_7, (given_8, (tt, tt)))

two_handles-IsNew : Along IsNew (initial (memory_of rgba_8888)) two_handles
unfolding step gbm_register gbm_alloc find emplace get_bpp
two_handles-IsNew = (tt, (refl, (tt, tt)))

run-initial-IsOwned_example : HoldsAfter IsOwned (run (initial (memory_of rgba_8888)) two_handles)
run-initial-IsOwned_example =
    run-initial-IsOwned (memory_of rgba_8888) two_handles two_handles-IsFresh

run-initial-IsNamed_example : HoldsAfter IsNamed (run (initial (memory_of rgba_8888)) two_handles)
run-initial-IsNamed_example =
    run-initial-IsNamed (memory_of rgba_8888) two_handles two_handles-IsNew
