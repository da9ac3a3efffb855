-- ===== src/Flush/Along.antt =====
-- Every run of examples/flush_thread_local.rs keeps what was sent and what was written.
use Prim.Native.String.{String}
use command_executor.Base.{ℕ, refl, inl, inr}
use command_executor.Pipeline.Moves.{weigh-of_client}
use command_executor.Pipeline.Done.{none-left}
use command_executor.Fetch.{empty_set}
use command_executor.Fetch.Stages.{Fetching}
use command_executor.Flush.{flush}
use command_executor.Flush.Stages.{
  third_stage, Flushing, member, Move, second_moves, worker_flushes, flush_returns, second_joins,
  third_shuts_down, main_fails, third_moves, third_writes, third_fails_to_write, Flushes, begins,
  goes_on,
}
use command_executor.Flush.Sent.{InStand, second-InStand}
use command_executor.Flush.Handed.{worker_flushes-InStand, flush_returns-IsFlushed, quiet-InStand}
use command_executor.Flush.Written.{
  IsWritten, owner-IsWritten, worker-IsWritten, third_writes-IsWritten,
  third_fails_to_write-IsWritten, enqueued-IsWritten,
}

module _ {X : Type 0} (to_string : ℕ → String) (count : ℕ) where
  pub record IsAlong (s : Flushing X) : Type 0 where
    pub in_stand : InStand count s.stand s.second s.locals s.third.submitted
    pub written : IsWritten to_string s.third s.out

  Move-IsAlong : {s t : Flushing X} → Move to_string count s t → IsAlong s → IsAlong t
  Move-IsAlong {s} (second_moves st o) v = record {
    in_stand = second-InStand count s.stand st s.locals s.third.submitted o v.in_stand;
    written = v.written;
  }
  Move-IsAlong {s} (worker_flushes i {b} {r} lt e ph room) v = record {
    in_stand =
        worker_flushes-InStand count s.stand s.second i {b = b} {r = r} s.locals s.third.submitted
          lt e v.in_stand;
    written = enqueued-IsWritten to_string (flush (s.locals i)).1 ph room v.written;
  }
  Move-IsAlong {s} (flush_returns {b} at w full) v = record {
    in_stand =
        flush_returns-IsFlushed count {b = b} s.locals s.third.submitted w full
          (rw at at v.in_stand);
    written = v.written;
  }
  Move-IsAlong {s} (second_joins at ph over) v = record {
    in_stand = rw at at v.in_stand;
    written = v.written;
  }
  Move-IsAlong {s} (third_shuts_down at st o) v = record {
    in_stand = quiet-InStand count s.stand s.second s.locals st (inl o) v.in_stand;
    written = owner-IsWritten to_string st o v.written;
  }
  Move-IsAlong main_fails v = record { in_stand = tt; written = v.written }
  Move-IsAlong {s} (third_moves st o) v = record {
    in_stand = quiet-InStand count s.stand s.second s.locals st (inr o) v.in_stand;
    written = worker-IsWritten to_string st o v.written;
  }
  Move-IsAlong (third_writes order each e) v = record {
    in_stand = v.in_stand;
    written = third_writes-IsWritten to_string order each e v.written;
  }
  Move-IsAlong (third_fails_to_write x e) v = record {
    in_stand = v.in_stand;
    written = third_fails_to_write-IsWritten to_string x e v.written;
  }

  pub Flushes-IsAlong : {s : Flushing X} → Flushes to_string count s → IsAlong s
  unfolding third_stage
  Flushes-IsAlong {s} (begins h) = record {
    in_stand = rw h.at_flush (
      empty_set,
      rw (← h.at_second, ← h.at_locals) at
          (Fetching.calls h.reached h.at_main (rw h.at_second at h.is_running)),
      λ x. rw (weigh-of_client (member x) s.third.submitted h.no_commands) refl,
    );
    written = record {
      reached = h.third_reached;
      told = inl (rw h.closed (λ x. none-left h.third_reached h.no_commands (member x)));
    };
  }
  Flushes-IsAlong (goes_on r m) = Move-IsAlong m (Flushes-IsAlong r)
