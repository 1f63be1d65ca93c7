-- ===== src/Vfs.antt =====
-- The virtual file system (fs/vfs/, include/fs/vfs.h). The functions of a file system are parameters:
-- they work on the state `S` of the medium and on the descriptor. A descriptor is its number; `none`
-- is SK_NULL, and as the result of a call that it goes through SK_NULL.
pub mod Descriptors
pub mod Calls
pub mod Removing
use s_kernel.Common.{
  ℕ, zero, suc, ◌+◌, ◌-◌, ◌%◌, ◌^◌, Bool, true, false, not, ◌&&◌, ◌||◌, Option, none, some, List,
  [], ◌∷◌, ltb, leb, ◌==◌, if◌then◌else◌, Err, ℤ, pos, negsuc,
}
use s_kernel.Kernel.{Kernel, null}
use s_kernel.Memory.{Memory, strcmp, strlen}
use s_kernel.Slab.Heap.{Heap, free}
use s_kernel.Ipc.Mutex.{Mutex, lock, unlock}

-- `struct sk_vfs_fd`, less `fs`, `fops` and `data`.
pub record File : Type 0 where
  pub magic : ℕ
  pub type : ℕ
  pub path : ℕ
  pub ref_count : ℕ
  pub flag_open : Bool
  pub flag_directory : Bool
  pub flag_eof : Bool
  pub size : ℕ
  pub position : ℕ

-- `struct sk_vfs_file_ops`; `open_file` is `open`. A reader returns the bytes that it puts into the buffer.
pub record FileOps (S : Type 0) : Type 0 where
  pub open_file : Option (File → S → ℤ × File × S)
  pub close : Option (File → S → ℤ × File × S)
  pub read : Option (ℕ → File → S → ℤ × List ℕ × File × S)
  pub write : Option (List ℕ → ℕ → File → S → ℤ × File × S)
  pub lseek : Option (ℕ → File → S → ℤ × File × S)

-- `struct sk_vfs_filesystem` with what the code uses of `struct sk_vfs_filesystem_ops`.
pub record FileSystem (S : Type 0) : Type 0 where
  pub path : ℕ
  pub ops : Option (FileOps S × Option (ℕ → S → ℤ × S))

-- A descriptor: the file, `fs` and `fops`.
pub record Descriptor (S : Type 0) : Type 0 where
  pub file : File
  pub fs : Option ℕ
  pub fops : Option (FileOps S)

-- The variables of the files, and what they stand in; `max_fd` and `fds` are those of `fd_tab`, in which
-- `max_fd` is 0 until `sk_fdt_init` has run.
pub record Vfs (S : Type 0) : Type 0 where
  pub fs_lock : Mutex
  pub kernel : Kernel
  pub memory : Memory
  pub heap : Heap
  pub file_system : ℕ → FileSystem S
  pub max_fd : ℕ
  pub fds : ℕ → Descriptor S
  pub medium : S

abbrev pub max_fs_type : ℕ
max_fs_type = 3

abbrev pub fd_magic : ℕ
fd_magic = 1319985

module _ {S : Type 0} where
  abbrev pub set_fd : ℕ → Descriptor S → Vfs S → Vfs S
  set_fd i d v = record v { fds = λ j. if i == j then d else v.fds j }

  -- `sk_vfs_lock`, which does not wait: the timeout is 0, and the result is not looked at.
  unfoldable pub vfs_lock : Vfs S → Vfs S
  vfs_lock v =
      let (progress, mutex, kernel) = lock v.fs_lock (pos 0) v.kernel in
      record v { fs_lock = mutex; kernel = kernel }

  -- `sk_vfs_unlock`
  unfoldable pub vfs_unlock : Vfs S → Vfs S
  vfs_unlock v =
      let (code, mutex, kernel) = unlock v.fs_lock v.kernel in
      record v { fs_lock = mutex; kernel = kernel }

  -- The loop of `sk_fd_alloc` for the `n` descriptors from `idx` on.
  unfoldable pub alloc_from : ℕ → ℕ → Vfs S → Option ℕ
  alloc_from zero idx v = none
  alloc_from (suc n) idx v =
      let later = alloc_from n (idx + 1) v in
      if (v.fds idx).file.ref_count == 0 then some idx else later

  -- `sk_fd_alloc`; `none` is -1.
  unfoldable pub fd_alloc : ℕ → Vfs S → Option ℕ
  unfolding alloc_from
  fd_alloc start_fd v =
      if ltb v.max_fd start_fd then some start_fd else alloc_from (v.max_fd - start_fd) start_fd v

  -- `sk_fd_new`; `none` is -1.
  unfoldable pub fd_new : Vfs S → Option ℕ × Vfs S
  unfolding vfs_lock vfs_unlock fd_alloc
  fd_new v =
      let locked = vfs_lock v in
      elim (fd_alloc 0 locked) [
        | none ↦ (none, vfs_unlock locked)
        | some i ↦
            let d = locked.fds i in
            (
              some i,
              vfs_unlock (
                  set_fd i (record d { file = record (d.file) { ref_count = 1; magic = fd_magic } })
                    locked),
            )
      ]

  -- `sk_get_fd` of a number that is not negative.
  unfoldable pub get_fd : ℕ → Vfs S → Option ℕ × Vfs S
  unfolding vfs_lock vfs_unlock
  get_fd fd v =
      let locked = vfs_lock v in
      let d = locked.fds fd in
      let counted = record d {
        file = record (d.file) { ref_count = (d.file.ref_count + 1) % 2 ^ 32 };
      } in
      if leb v.max_fd fd
      then (none, v)
      else if not (d.file.magic == fd_magic)
      then (none, vfs_unlock locked)
      else (some fd, vfs_unlock (set_fd fd counted locked))

  -- `sk_put_fd`
  unfoldable pub put_fd : ℕ → Vfs S → Vfs S
  put_fd fd v =
      let d = v.fds fd in
      if ltb 0 d.file.ref_count
      then set_fd fd (record d { file = record (d.file) { ref_count = d.file.ref_count - 1 } }) v
      else v
