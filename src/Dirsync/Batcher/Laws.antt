-- ===== src/Dirsync/Batcher/Laws.antt =====
-- internal/dirsync/batcher_goroutine.go: no operation is lost or executed twice, but between the two steps of Close.
use mathlib.Core.List.{Permᴰ}
use mathlib.Core.List.Permᴰ
use bons_ci.Base.{◌<◌, length-append, false, List, [], ◌∷◌, ◌++◌, length, ◌≡◌, arith}
use bons_ci.Dirsync.Batcher.{
  MergedView, GoroutineBatcher, BatchOp, Schedule, batcher_closed, errors, execute_op, flush,
  submit, close, close_mark,
}

-- The goroutines execute each operation of a batch once, as they do while the context has not ended.
abbrev pub IsComplete : Schedule → Type 0
IsComplete sched = (ops : List BatchOp) → Permᴰ (sched ops) ops

module _ {S X : Type 0} (v : MergedView S X) where
  -- The view once the operations are executed, one after the other.
  abbrev pub executed : S → List BatchOp → S
  executed s [] = s
  executed s (op ∷ ops) = executed (execute_op v s op).0 ops

  -- The operations in the order of their executions, which are those of the given list.
  Ran : S → List BatchOp → S → Type 0
  Ran s ops t = (order : List BatchOp) × Permᴰ order ops × (t ≡ executed s order)

  -- The operations, each with the schedule of the flush that it may start.
  abbrev pub submit_all : GoroutineBatcher S → List (BatchOp × Schedule) → GoroutineBatcher S
  submit_all b [] = b
  submit_all b ((op, sched) ∷ ops) = submit_all (submit v sched b op).0 ops

  abbrev pub ops_of : List (BatchOp × Schedule) → List BatchOp
  ops_of [] = []
  ops_of ((op, sched) ∷ ops) = op ∷ ops_of ops

  abbrev pub AllComplete : List (BatchOp × Schedule) → Type 0
  AllComplete [] = Unit
  AllComplete ((op, sched) ∷ ops) = IsComplete sched × AllComplete ops

  -- Of the operations before a point, those which ran and those which are pending.
  record Accounted (s : S) (ops : List BatchOp) (b : GoroutineBatcher S) : Type 0 where
    ran : List BatchOp
    split : ops ≡ ran ++ b.pending
    view : Ran s ran b.view
    is_open : b.closed ≡ false

  -- A threshold for automatic flushes bounds the queue: it stays below the threshold.
  submit-pending :
      (sched : Schedule) (b : GoroutineBatcher S) (op : BatchOp)
      → length b.pending < b.auto_flush_at
      → length (submit v sched b op).0.pending < b.auto_flush_at
  unfolding submit flush
  submit-pending sched b op h = ground (arith, h, length-append b.pending (op ∷ []))

  -- An operation that is submitted while Close is between its flush and its mark is accepted without an error
  -- and is never executed: later flushes are refused, and closing again does nothing.
  submit-close_mark :
      (sched : Schedule) (b : GoroutineBatcher S) (op : BatchOp)
      → b.closed ≡ false
      → b.auto_flush_at ≡ 0
      → let between = (flush v sched b).0 in
        let after = close_mark (submit v sched between op).0 in
        ((submit v sched between op).1 ≡ errors [])
        × (after.view ≡ between.view)
        × (after.pending ≡ op ∷ [])
        × (flush v sched after ≡ (after, batcher_closed))
        × (close v sched after ≡ (after, errors []))
  unfolding submit flush close close_mark
  submit-close_mark sched b op is_open never = ground (arith, is_open, never)
