-- ===== src/Ipc/Event/Noted.antt =====
-- What a thread waits for, which is no matter of the scheduler.
use s_kernel.Common.{ℕ, arith, Bool, ◌&&◌, if◌then◌else◌, Bits, nonzero, equal_bits}
use s_kernel.Kernel.{Kernel, EventInfo}
use s_kernel.Kernel.Inv.{IsLinked}
use s_kernel.Kernel.Switch.{IsWellFormed}
use s_kernel.Ipc.Parked.{IsSound}
use s_kernel.Ipc.Event.{note}

-- The option asks for all wanted bits or for one of them, and the bits `hit` of them are there.
abbrev pub is_met : EventInfo → Bits → Bits → Bool
is_met option hit wanted =
    if option.flag_and then equal_bits hit wanted else option.flag_or && nonzero hit

-- The bits of a thread about events are no matter of the scheduler.
module _ {k : Kernel} (t : ℕ) (set : Bits) (info : EventInfo) where
  note-IsLinked : IsLinked k → IsLinked (note t set info k)
  note-IsLinked v = record {
    distinct = v.distinct;
    one_queue = v.one_queue;
    grouped = v.grouped;
    priority = λ u q h. ground (arith, v.priority u q h);
    masked = λ u i. ground (arith, v.masked u i);
    low = λ u. ground (arith, v.low u);
    no_null = v.no_null;
  }

  note-IsWellFormed : IsWellFormed k → IsWellFormed (note t set info k)
  note-IsWellFormed w = record {
    linked = note-IsLinked w.linked;
    is_thread = w.is_thread;
    not_ready = w.not_ready;
    unlinked = λ r q. w.unlinked (ground arith) q;
  }

  pub note-IsSound : IsSound k → IsSound (note t set info k)
  note-IsSound s = record {
    well_formed = note-IsWellFormed s.well_formed;
    parked = λ q u nr m. ground (arith, s.parked q u nr m);
  }
