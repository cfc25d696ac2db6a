-- ===== src/Composer/Post.antt =====
-- hwc_post, atomic_commit and add_fb of graphics/composer/aidl/hwc_context.cpp, and
-- private_handle_t::validate of graphics/common/drm_handle.h. libdrm is an argument, and every
-- request that changes what is shown is kept in the result.
pub mod Modeset
use hardware_arpi.Base.{
  ℕ, ◌+◌, ◌*◌, ◌%◌, ◌^◌, Bool, true, false, ◌&&◌, ◌||◌, not, List, [], ◌∷◌, ◌==◌, if◌then◌else◌,
}
use hardware_arpi.Base.Int.{ℤ, pos, negsuc, is_zero, is_negative}
use hardware_arpi.Platform.{einval, ebusy}

-- The fields of a `private_handle_t` that the composer reads.
pub record Handle : Type 0 where
  pub version : ℕ
  pub num_ints : ℕ
  pub num_fds : ℕ
  pub magic : ℕ
  pub fd : ℤ
  pub fb_id : ℕ

-- `sizeof(native_handle)`, `sNumInts()`, `sNumFds` and `sMagic`; the sizes are those of the ABI.
abbrev pub native_handle_size : ℕ
native_handle_size = 12

abbrev pub s_num_ints : ℕ
s_num_ints = 8

abbrev pub s_num_fds : ℕ
s_num_fds = 1

abbrev pub s_magic : ℕ
s_magic = 0x3141592

-- A handle is an address, 0 for null, in the memory of the process.
abbrev pub Memory : Type 0
Memory = ℕ → Handle

unfoldable pub validate : Memory → ℕ → ℤ
validate m h =
    if h == 0
      || not ((m h).version == native_handle_size)
      || not ((m h).num_ints == s_num_ints)
      || not ((m h).num_fds == s_num_fds)
      || not ((m h).magic == s_magic)
    then einval
    else pos 0

-- `struct kms_output`; the mode is its size and a name for the rest of its timing.
pub record KmsOutput : Type 0 where
  pub plane_id : ℕ
  pub crtc_id : ℕ
  pub connector_id : ℕ
  pub hdisplay : ℕ
  pub vdisplay : ℕ
  pub timing : ℕ
  pub drm_format : ℕ
  pub prop_fb_id : ℕ
  pub prop_crtc_id : ℕ
  pub prop_out_fence : ℕ

-- What posting reads and writes of `hwc_context`.
pub record Context : Type 0 where
  pub first_post : Bool
  pub first_post2 : Bool
  pub primary_output : KmsOutput
  pub secondary_output : KmsOutput

pub data PropertyValue : Type 0 where
  fence_pointer : PropertyValue
  number : ℕ → PropertyValue

pub record AtomicProperty : Type 0 where
  pub object : ℕ
  pub property : ℕ
  pub value : PropertyValue

pub record FbRequest : Type 0 where
  pub fb_width : ℕ
  pub fb_height : ℕ
  pub fb_format : ℕ
  pub fb_handle : ℕ
  pub fb_pitch : ℕ

-- What is asked of the kernel.
pub data Request : Type 0 where
  adds_fb : FbRequest → Request
  sets_crtc : ℕ → ℕ → ℕ → ℕ → Request
  commits : List AtomicProperty → Request

-- libdrm's answers: the status, with the handle, the frame buffer, or the error number and the
-- fence that the kernel writes.
pub record Drm : Type 0 where
  pub prime_fd_to_handle : ℤ → ℤ × ℕ
  pub add_fb2 : FbRequest → ℤ × ℕ
  pub set_crtc : ℕ → ℕ → ℕ → ℕ → ℤ
  pub atomic_commit : List AtomicProperty → ℤ × ℕ × ℤ

pub record Posted : Type 0 where
  pub context : Context
  pub memory : Memory
  pub status : ℤ
  pub out_fence : ℤ
  pub requests : List Request

fb_request : Context → ℕ → FbRequest
fb_request c handle = record {
  fb_width = c.primary_output.hdisplay;
  fb_height = c.primary_output.vdisplay;
  fb_format = c.primary_output.drm_format;
  fb_handle = handle;
  fb_pitch = c.primary_output.hdisplay * 4 % 2 ^ 32;
}

set_fb_id : Memory → ℕ → ℕ → Memory
set_fb_id m h fb q = if h == q then record (m q) { fb_id = fb } else m q

-- `drmModeAddFB2WithModifiers` writes the identifier where it succeeds.
unfoldable pub add_fb : Drm → Context → Memory → ℕ → Memory × ℤ × List Request
unfolding fb_request set_fb_id
add_fb drm c m h =
    if not ((m h).fb_id == 0)
    then (m, pos 0, [])
    else let (ret, handle) = drm.prime_fd_to_handle (m h).fd in
      let (ret', fb) = drm.add_fb2 (fb_request c handle) in
      if not (is_zero ret) then (m, ret, []) else (
        (if is_zero ret' then set_fb_id m h fb else m),
        ret',
        adds_fb (fb_request c handle) ∷ [],
      )

unfoldable pub commit_request : KmsOutput → ℕ → List AtomicProperty
commit_request o fb =
    record { object = o.crtc_id; property = o.prop_out_fence; value = fence_pointer }
    ∷ record { object = o.plane_id; property = o.prop_fb_id; value = number fb }
    ∷ record { object = o.plane_id; property = o.prop_crtc_id; value = number o.crtc_id }
    ∷ []

-- "try to set mode for next frame"
unfoldable pub retry_modeset : ℕ → Context → Context
retry_modeset display c =
    if display == 0
    then record c { first_post = true }
    else if display == 1
    then record c { first_post2 = true }
    else c

-- The handle is not null here. The kernel writes the fence where the commit succeeds.
unfoldable pub atomic_commit :
    Drm → Context → Memory → ℕ → KmsOutput → ℕ → ℤ → List Request → Posted
unfolding commit_request retry_modeset
atomic_commit drm c m display o h fence asked =
    let request = commit_request o (m h).fb_id in
    let (ret, errno, written) = drm.atomic_commit request in
    if is_negative ret
    then record {
      context = if errno == ebusy then c else retry_modeset display c;
      memory = m;
      status = ret;
      out_fence = fence;
      requests = commits request ∷ asked;
    }
    else record {
      context = c;
      memory = m;
      status = pos 0;
      out_fence = written;
      requests = commits request ∷ asked;
    }

-- `clear` resets the flag that asked for the mode to be set.
unfoldable pub set_mode :
    Drm → Context → Memory → KmsOutput → ℕ → (Context → Context) → List Request → Posted
set_mode drm c m o h clear asked =
    let ret = drm.set_crtc o.crtc_id (m h).fb_id o.connector_id o.timing in
    record {
      context = if is_zero ret then clear c else c;
      memory = m;
      status = ret;
      out_fence = negsuc 0;
      requests = sets_crtc o.crtc_id (m h).fb_id o.connector_id o.timing ∷ asked;
    }

-- Once the buffer has a frame buffer.
unfoldable pub show : Drm → Context → Memory → ℕ → ℕ → ℤ → List Request → Posted
unfolding set_mode atomic_commit
show drm c m display h fence asked =
    if display == 0
    then if c.first_post
      then set_mode drm c m c.primary_output h (λ d. record d { first_post = false }) asked
      else atomic_commit drm c m display c.primary_output h fence asked
    else if display == 1
    then if c.first_post2
      then set_mode drm c m c.secondary_output h (λ d. record d { first_post2 = false }) asked
      else atomic_commit drm c m display c.secondary_output h fence asked
    else record { context = c; memory = m; status = einval; out_fence = fence; requests = asked }

-- The requests stand last first.
unfoldable pub hwc_post : Drm → Context → Memory → ℕ → ℕ → ℤ → Posted
unfolding validate add_fb show
hwc_post drm c m display h fence =
    let (m', err, asked) = add_fb drm c m h in
    if is_negative (validate m h)
    then record { context = c; memory = m; status = einval; out_fence = fence; requests = [] }
    else if is_zero err
    then show drm c m' display h fence asked
    else record { context = c; memory = m'; status = err; out_fence = fence; requests = asked }
