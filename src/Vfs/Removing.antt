-- ===== src/Vfs/Removing.antt =====
-- What `sk_vfs_file_unlink` does.
use s_kernel.Common.{ℕ, ◌≡◌, refl, Bool, true, false, ◌⊎◌, inl, inr, Option, none, some, ℤ}
use s_kernel.Vfs.{FileOps, Vfs, vfs_lock, vfs_unlock}
use s_kernel.Vfs.Calls.{error, ebusy, einval, lookup, fd_is_open, file_unlink}

module _ {S : Type 0} (fuel path : ℕ) (v : Vfs S) where
  fd_is_open-medium : (fd_is_open fuel path v).1.medium ≡ v.medium
  unfolding fd_is_open lookup vfs_lock vfs_unlock
  fd_is_open-medium = go (lookup fuel path v).0 refl
    where
      go :
          (found : Option ℕ)
          → (lookup fuel path v).0 ≡ found
          → (fd_is_open fuel path v).1.medium ≡ v.medium
      go none e = rw (fd_is_open, e) refl
      go (some i) e = rw (fd_is_open, e) refl

-- `sk_vfs_file_unlink` never removes a file: it returns one of three errors and leaves the medium as
-- it was, or it goes through SK_NULL.
pub file_unlink_fails :
    {S : Type 0} (fuel path : ℕ) (v : Vfs S)
    → (file_unlink fuel path v ≡ none)
      ⊎ ((ret : ℤ) × (v' : Vfs S) × (file_unlink fuel path v ≡ some (ret, v'))
          × ((ret ≡ einval) ⊎ ((ret ≡ ebusy) ⊎ (ret ≡ error)))
          × (v'.medium ≡ v.medium))
unfolding file_unlink lookup fd_is_open vfs_lock vfs_unlock
file_unlink_fails {S} fuel path v = go (lookup fuel path v).0 refl
  where
    v' : Vfs S
    v' = (lookup fuel path v).1

    w : Vfs S
    w = (fd_is_open fuel path v').1

    same : w.medium ≡ v.medium
    same = fd_is_open-medium fuel path v'

    Fails : Option (ℤ × Vfs S) → Type 0
    Fails r =
        (r ≡ none)
        ⊎ ((ret : ℤ) × (w : Vfs S) × (r ≡ some (ret, w))
            × ((ret ≡ einval) ⊎ ((ret ≡ ebusy) ⊎ (ret ≡ error)))
            × (w.medium ≡ v.medium))

    go : (found : Option ℕ) → (lookup fuel path v).0 ≡ found → Fails (file_unlink fuel path v)
    go none e = rw (file_unlink, e) (inr (einval, v', refl, inl refl, refl))
    go (some i) e = tested (fd_is_open fuel path v').0 refl (w.file_system i).ops refl
      where
        tested :
            (is_open : Bool)
            → (fd_is_open fuel path v').0 ≡ is_open
            → (ops : Option (FileOps S × Option (ℕ → S → ℤ × S))) → (w.file_system i).ops ≡ ops
            → Fails (file_unlink fuel path v)
        tested true o ops f = rw (file_unlink, e, o) (inr (ebusy, w, refl, inr (inl refl), same))
        tested false o none f = rw (file_unlink, e, o, f) (inl refl)
        tested false o (some (fops, none)) f = rw (file_unlink, e, o, f) (inl refl)
        tested false o (some (fops, some call)) f =
            rw (file_unlink, e, o, f) (inr (error, w, refl, inr (inr refl), same))
