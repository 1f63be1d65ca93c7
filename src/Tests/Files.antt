-- ===== src/Tests/Files.antt =====
-- The virtual file system at concrete inputs.
use s_kernel.Common.{ℕ, ◌+◌, true, false, ◌==◌, if◌then◌else◌, none, some, pos}
use s_kernel.Vfs.{FileOps, Vfs, fd_new, fd_magic}
use s_kernel.Vfs.Descriptors.{Given, fd_new_lem}
use s_kernel.Tests.Samples.{sample, empty_heap}

abbrev no_calls : FileOps ℕ
no_calls = record { open_file = none; close = none; read = none; write = none; lseek = none }

-- Descriptor 0 has one user, the others are free; a file system is mounted at "/", the path at
-- address 30, and counts the files that it removes.
abbrev vfs : Vfs ℕ
vfs = record {
  fs_lock = record { self = 8; value = 1; original_pri = 0; hold = 0; owner = 0 };
  kernel = sample false true;
  memory = λ a. if a == 30 then 47 else 0;
  heap = empty_heap;
  file_system = λ i. record {
    path = if i == 0 then 30 else 0;
    ops = some (no_calls, some (λ path s. (pos 0, s + 1)));
  };
  max_fd = 3;
  fds = λ i. record {
    file = record {
      magic = if i == 0 then fd_magic else 0;
      type = 1;
      path = 0;
      ref_count = if i == 0 then 1 else 0;
      flag_open = i == 0;
      flag_directory = false;
      flag_eof = false;
      size = 0;
      position = 0;
    };
    fs = some 0;
    fops = some no_calls;
  };
  medium = 0;
}

fd_new_lem_example : Given vfs (fd_new vfs)
fd_new_lem_example = fd_new_lem vfs
