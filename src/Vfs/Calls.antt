-- ===== src/Vfs/Calls.antt =====
-- Finding a file system, and the calls on files: fs/vfs/vfs_fs.c, `sk_fd_is_open` and fs/vfs/vfs_file.c.
-- The descriptor of a call is not SK_NULL (the calls return SK_EINVAL for SK_NULL).
use s_kernel.Common.{
  ℕ, zero, suc, ◌+◌, Bool, true, false, not, ◌&&◌, ◌||◌, Option, none, some, List, [], ◌==◌,
  if◌then◌else◌, ℤ, pos, negsuc,
}
use s_kernel.Kernel.{null}
use s_kernel.Memory.{Memory, strcmp, strlen}
use s_kernel.Slab.Heap.{free}
use s_kernel.Vfs.{File, FileOps, Descriptor, Vfs, max_fs_type, set_fd, vfs_lock, vfs_unlock}

-- SK_ERROR, SK_EBUSY and SK_EINVAL as an int.
abbrev pub error : ℤ
error = negsuc 0

abbrev pub ebusy : ℤ
ebusy = negsuc 5

abbrev pub einval : ℤ
einval = negsuc 7

abbrev pub is_negative : ℤ → Bool
is_negative (pos n) = false
is_negative (negsuc n) = true

-- `fd->pos` after a call that has returned `ret`.
abbrev pub sought : ℤ → File → File
sought (pos n) file = record file { position = n }
sought (negsuc n) file = file

abbrev pub same_fs : Option ℕ → ℕ → Bool
same_fs none n = false
same_fs (some m) n = m == n

-- `sk_strcmp(prefix, path, sk_strlen(prefix)) == 0`, with the rounds of `sk_strlen`.
unfoldable pub begins_with : ℕ → ℕ → ℕ → Memory → Bool
begins_with fuel prefix path m = strcmp prefix path (strlen fuel prefix m) m == 0

module _ {S : Type 0} where
  -- The loop of `sk_vfs_filesystem_lookup` over the `n` entries from `i` on.
  unfoldable pub lookup_from : ℕ → ℕ → ℕ → ℕ → Vfs S → Option ℕ
  unfolding begins_with
  lookup_from fuel path zero i v = none
  lookup_from fuel path (suc n) i v =
      let fs = v.file_system i in
      let later = lookup_from fuel path n (i + 1) v in
      elim fs.ops [
        | none ↦ later
        | some ops ↦
            if not (fs.path == null) && begins_with fuel fs.path path v.memory
            then some i
            else later
      ]

  -- `sk_vfs_filesystem_lookup`
  unfoldable pub lookup : ℕ → ℕ → Vfs S → Option ℕ × Vfs S
  unfolding lookup_from vfs_lock vfs_unlock
  lookup fuel path v =
      let locked = vfs_lock v in (lookup_from fuel path max_fs_type 0 locked, vfs_unlock locked)

  -- The loop of `sk_fd_is_open`. Its test is the wrong way round: it looks for a path that differs.
  unfoldable pub open_from : ℕ → ℕ → ℕ → ℕ → ℕ → Vfs S → Bool
  unfolding begins_with
  open_from fuel path fs zero i v = false
  open_from fuel path fs (suc n) i v =
      let d = v.fds i in
      let later = open_from fuel path fs n (i + 1) v in
      elim d.fops [
        | none ↦ later
        | some ops ↦
            if not (d.file.path == null)
              && same_fs d.fs fs
              && not (begins_with fuel d.file.path path v.memory)
            then true
            else later
      ]

  -- `sk_fd_is_open`: true for 0, false for -1.
  unfoldable pub fd_is_open : ℕ → ℕ → Vfs S → Bool × Vfs S
  unfolding lookup open_from vfs_lock vfs_unlock
  fd_is_open fuel path v =
      let (found, v') = lookup fuel path v in
      elim found [
        | none ↦ (false, v')
        | some fs ↦
            let locked = vfs_lock v' in
            (open_from fuel path fs locked.max_fd 0 locked, vfs_unlock locked)
      ]

  -- The path of a descriptor is freed.
  unfoldable pub drop_path : ℕ → ℕ → Vfs S → Vfs S
  drop_path fuel fd v =
      let d = v.fds fd in
      set_fd fd (record d { file = record (d.file) { path = null } })
        (record v { heap = free fuel d.file.path v.heap })

  -- `sk_vfs_file_open` on the file system that has been found, with a function to open.
  unfoldable pub open_with : ℕ → ℕ → Bool → (File → S → ℤ × File × S) → Vfs S → ℤ × Vfs S
  unfolding drop_path
  open_with fuel fd directory f v =
      let d = v.fds fd in
      let (ret, file, medium) = f d.file v.medium in
      let called = set_fd fd (record d { file = file }) (record v { medium = medium }) in
      let opened = record file {
        flag_open = true;
        flag_directory = directory || file.flag_directory;
        type = if directory then 4 else file.type;
      } in
      if is_negative ret
      then (error, drop_path fuel fd called)
      else (pos 0, set_fd fd (record d { file = opened }) called)

  -- The descriptor that `sk_vfs_file_open` sets up; of the flag that it is given, only the bit
  -- VFS_F_DIRECTORY is kept.
  abbrev pub prepared : ℕ → ℕ → Bool → FileOps S → Descriptor S → Descriptor S
  prepared fs path directory fops d = record {
    file = record (d.file) {
      type = 1;
      path = path;
      flag_open = false;
      flag_directory = directory;
      flag_eof = false;
      size = 0;
      position = 0;
    };
    fs = some fs;
    fops = some fops;
  }

  -- `sk_vfs_file_open` of a descriptor that is not SK_NULL.
  unfoldable pub file_open : ℕ → ℕ → ℕ → Bool → Vfs S → ℤ × Vfs S
  unfolding lookup open_with drop_path
  file_open fuel fd path directory v =
      let (found, v') = lookup fuel path v in
      elim found [
        | none ↦ (error, v')
        | some i ↦ elim (v'.file_system i).ops [
          | none ↦ (error, v')
          | some (fops, unlink) ↦
              let ready = set_fd fd (prepared i path directory fops (v'.fds fd)) v' in
              elim fops.open_file [
                | none ↦ (error, drop_path fuel fd ready)
                | some f ↦ open_with fuel fd directory f ready
              ]
        ]
      ]

  -- `sk_vfs_file_close` of an open descriptor; `none` goes through SK_NULL.
  unfoldable pub file_close : ℕ → ℕ → Vfs S → Option (ℤ × Vfs S)
  unfolding drop_path
  file_close fuel fd v =
      let d = v.fds fd in
      elim d.fops [
        | none ↦ none
        | some fops ↦ elim fops.close [
          | none ↦ some (pos 0, drop_path fuel fd v)
          | some f ↦
              let (ret, file, medium) = f d.file v.medium in
              let called = set_fd fd (record d { file = file }) (record v { medium = medium }) in
              some (ret, if is_negative ret then called else drop_path fuel fd called)
        ]
      ]

  -- `sk_vfs_file_read`
  unfoldable pub file_read : ℕ → ℕ → Vfs S → Option (ℤ × List ℕ × Vfs S)
  file_read fd len v =
      let d = v.fds fd in
      elim d.fops [
        | none ↦ none
        | some fops ↦ elim fops.read [
          | none ↦ some (error, [], v)
          | some f ↦
              let (ret, bytes, file, medium) = f len d.file v.medium in
              let read = if is_negative ret then record file { flag_eof = true } else file in
              some (ret, bytes, set_fd fd (record d { file = read }) (record v { medium = medium }))
        ]
      ]

  -- `sk_vfs_file_write`
  unfoldable pub file_write : ℕ → List ℕ → ℕ → Vfs S → Option (ℤ × Vfs S)
  file_write fd buf len v =
      let d = v.fds fd in
      elim d.fops [
        | none ↦ none
        | some fops ↦ elim fops.write [
          | none ↦ some (error, v)
          | some f ↦
              let (ret, file, medium) = f buf len d.file v.medium in
              some (ret, set_fd fd (record d { file = file }) (record v { medium = medium }))
        ]
      ]

  -- `sk_vfs_file_lseek`
  unfoldable pub file_lseek : ℕ → ℕ → Vfs S → Option (ℤ × Vfs S)
  file_lseek fd offset v =
      let d = v.fds fd in
      elim d.fops [
        | none ↦ none
        | some fops ↦ elim fops.lseek [
          | none ↦ some (error, v)
          | some f ↦
              let (ret, file, medium) = f offset d.file v.medium in
              some (
                ret,
                set_fd fd (record d { file = sought ret file }) (record v { medium = medium }),
              )
        ]
      ]

  -- `sk_vfs_file_unlink`. Its test calls the function of the file system only if that is SK_NULL.
  unfoldable pub file_unlink : ℕ → ℕ → Vfs S → Option (ℤ × Vfs S)
  unfolding lookup fd_is_open
  file_unlink fuel path v =
      let (found, v') = lookup fuel path v in
      let (is_open, v'') = fd_is_open fuel path v' in
      elim found [
        | none ↦ some (einval, v')
        | some i ↦ if is_open then some (ebusy, v'') else elim (v''.file_system i).ops [
          | none ↦ none
          | some (fops, none) ↦ none
          | some (fops, some f) ↦ some (error, v'')
        ]
      ]
