-- ===== src/Mapper/Fence.antt =====
-- The Fence of graphics/mapper/4.0/Fence.{h,cpp}. A fence is its descriptor, -1 for none. libsync's
-- calls are arguments.
pub mod Flattening
pub mod Merging
use hardware_arpi.Base.{
  ℕ, ◌-◌, ◌^◌, Bool, true, false, ◌&&◌, ◌||◌, not, List, [], ◌∷◌, Option, none, some, ◌==◌,
  if◌then◌else◌, ltb,
}
use hardware_arpi.Base.Int.{ℤ, pos, negsuc, is_negative, sub_ℕ}
use hardware_arpi.Platform.{einval, enomem}

-- `INVALID_OPERATION`, -ENOSYS.
abbrev pub invalid_operation : ℤ
invalid_operation = negsuc 37

abbrev pub no_fd : ℤ
no_fd = negsuc 0

-- `mFenceFd != -1`
unfoldable pub has_fd : ℤ → Bool
has_fd (pos n) = true
has_fd (negsuc n) = not (n == 0)

abbrev pub etime : ℕ
etime = 62

-- A result and the error number that is left.
wait_status : ℤ × ℕ → ℤ
wait_status (err, errno) = if is_negative err then sub_ℕ 0 errno else pos 0

-- `sync_wait` by the descriptor and the timeout.
unfoldable pub wait : (ℤ → ℤ → ℤ × ℕ) → ℤ → ℤ → ℤ
unfolding wait_status has_fd
wait sync_wait fd timeout = if not (has_fd fd) then pos 0 else wait_status (sync_wait fd timeout)

-- Waits 3 seconds, and then without a limit.
unfoldable pub wait_forever : (ℤ → ℤ → ℤ × ℕ) → ℤ → ℤ
unfolding wait_status has_fd
wait_forever sync_wait fd =
    let (err, errno) = sync_wait fd (pos 3000) in
    if not (has_fd fd)
    then pos 0
    else if is_negative err && errno == etime
    then wait_status (sync_wait fd (negsuc 0))
    else wait_status (err, errno)

-- The new fence, NO_FENCE where there is none.
merged : ℤ → ℤ
merged (pos n) = pos n
merged (negsuc n) = if n == 0 then no_fd else negsuc n

unfoldable pub merge : (ℤ → ℤ → ℤ) → ℤ → ℤ → ℤ
unfolding has_fd merged
merge sync_merge f1 f2 =
    if has_fd f1 && has_fd f2
    then merged (sync_merge f1 f2)
    else if has_fd f1
    then merged (sync_merge f1 f1)
    else if has_fd f2
    then merged (sync_merge f2 f2)
    else no_fd

-- `dup`, the system's, on any fence.
unfoldable pub dup : (ℤ → ℤ) → ℤ → ℤ
dup sys_dup fd = sys_dup fd

pub data Status : Type 0 where
  invalid unsignaled signaled : Status

-- By the answer of a wait that does not block; -ETIME is -62.
unfoldable pub status_of : ℤ → Status
status_of z = elim z [
  | pos n ↦ if n == 0 then signaled else invalid
  | negsuc n ↦ if n == etime - 1 then unsignaled else invalid
]

unfoldable pub get_status : (ℤ → ℤ → ℤ × ℕ) → ℤ → Status
unfolding wait status_of
get_status sync_wait fd = status_of (wait sync_wait fd (pos 0))

-- SIGNAL_TIME_PENDING, INT64_MAX, and SIGNAL_TIME_INVALID.
abbrev pub signal_time_pending : ℤ
signal_time_pending = pos (2 ^ 63 - 1)

abbrev pub signal_time_invalid : ℤ
signal_time_invalid = negsuc 0

-- What sync_file_info tells: the status of all and the time of each.
pub record SyncInfo : Type 0 where
  pub status : ℤ
  pub timestamps : List ℕ

unfoldable pub latest : ℕ → List ℕ → ℕ
latest timestamp [] = timestamp
latest timestamp (t ∷ ts) = latest (if ltb timestamp t then t else timestamp) ts

abbrev is_one : ℤ → Bool
is_one z = elim z [ pos n ↦ n == 1 | negsuc n ↦ false ]

-- `nsecs_t(timestamp)`
abbrev pub to_nsecs : ℕ → ℤ
to_nsecs n = if ltb n (2 ^ 63) then pos n else negsuc (2 ^ 64 - n - 1)

unfoldable pub get_signal_time : Option SyncInfo → ℤ → ℤ
unfolding has_fd latest
get_signal_time info fd = if not (has_fd fd) then signal_time_invalid else elim info [
  | none ↦ signal_time_invalid
  | some i ↦
      if not (is_one i.status)
      then if is_negative i.status then signal_time_invalid else signal_time_pending
      else to_nsecs (latest 0 i.timestamps)
]

abbrev pub get_fd_count : ℤ → ℕ
get_fd_count fd = if has_fd fd then 1 else 0

-- The sizes that are left, with the word and the descriptors that are written.
pub record Flattened : Type 0 where
  pub status : ℤ
  pub size : ℕ
  pub count : ℕ
  pub words : List ℕ
  pub fds : List ℤ

unfoldable pub flatten : ℤ → ℕ → ℕ → Flattened
unfolding has_fd
flatten fd size count =
    if ltb size 4 || ltb count (get_fd_count fd)
    then record { status = enomem; size = size; count = count; words = []; fds = [] }
    else record {
      status = pos 0;
      size = size - 4;
      count = if has_fd fd then count - 1 else count;
      words = get_fd_count fd ∷ [];
      fds = if has_fd fd then fd ∷ [] else [];
    }

pub record Unflattened : Type 0 where
  pub status : ℤ
  pub fd : ℤ
  pub size : ℕ
  pub count : ℕ

abbrev pub first_or {ℓ} : {A : Type ℓ} → A → List A → A
first_or a [] = a
first_or a (x ∷ xs) = x

-- The number at the buffer and the first descriptor are read where the sizes say that they are there.
unfoldable pub unflatten : ℤ → List ℕ → List ℤ → ℕ → ℕ → Unflattened
unfolding has_fd
unflatten fd words fds size count =
    let word = first_or 0 words in
    if has_fd fd
    then record { status = invalid_operation; fd = fd; size = size; count = count }
    else if ltb size 4
    then record { status = enomem; fd = fd; size = size; count = count }
    else if ltb 1 word
    then record { status = einval; fd = fd; size = size - 4; count = count }
    else if ltb count word
    then record { status = enomem; fd = fd; size = size - 4; count = count }
    else if word == 0
    then record { status = pos 0; fd = fd; size = size - 4; count = count }
    else record { status = pos 0; fd = first_or fd fds; size = size - 4; count = count - 1 }
