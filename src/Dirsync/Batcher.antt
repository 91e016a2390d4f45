-- ===== src/Dirsync/Batcher.antt =====
-- internal/dirsync/batcher.go, batcher_goroutine.go and merged_view.go: batches of removals. A view is an
-- interface, whose calls are one step each. The goroutines of a batch are a schedule: the operations that they execute, in
-- the order in which they do; where the context ends, some are left out. Dirsync.Batcher.Slots has the steps of the
-- goroutines. Closing is two steps, as the source takes its lock twice.
pub mod Laws
pub mod Slots
pub mod Progress
use bons_ci.Base.{
  Str, ℕ, ◌+◌, Bool, true, false, ◌&&◌, List, [], ◌∷◌, ◌++◌, Option, none, some, if◌then◌else◌, ltb,
  leb, length,
}

pub data OpKind : Type 0 where
  remove remove_all : OpKind

pub record BatchOp : Type 0 where
  pub kind : OpKind
  pub rel_path : Str

-- `MergedView`: what the batchers call, with errors of any type.
pub record MergedView (S X : Type 0) : Type 0 where
  pub remove_path : S → Str → S × Option X
  pub remove_tree : S → Str → S × Option X

-- `MemMergedView`
pub record MemView : Type 0 where
  pub root : Str
  pub removed : List Str
  pub removed_all : List Str

abbrev pub new_mem_view : Str → MemView
new_mem_view root = record { root = root; removed = []; removed_all = [] }

abbrev pub mem_view : {X : Type 0} → MergedView MemView X
mem_view = record {
  remove_path = λ m p. (record m { removed = m.removed ++ p ∷ [] }, none);
  remove_tree = λ m p. (record m { removed_all = m.removed_all ++ p ∷ [] }, none);
}

unfoldable pub all_ops : MemView → List Str
all_ops m = m.removed ++ m.removed_all

unfoldable pub reset_view : MemView → MemView
reset_view m = record m { removed = []; removed_all = [] }

-- `RecordingBatcher`
pub record RecordingBatcher : Type 0 where
  pub all : List BatchOp
  pub pending : List BatchOp
  pub total : ℕ

unfoldable pub record_submit : RecordingBatcher → BatchOp → RecordingBatcher
record_submit r op = record r { all = r.all ++ op ∷ []; pending = r.pending ++ op ∷ [] }

unfoldable pub record_flush : RecordingBatcher → RecordingBatcher
record_flush r = record r { total = r.total + length r.pending; pending = [] }

-- `GoroutineBatcher`, whose view has the state `view`.
pub record GoroutineBatcher (S : Type 0) : Type 0 where
  pub view : S
  pub parallelism : ℕ
  pub auto_flush_at : ℕ
  pub pending : List BatchOp
  pub closed : Bool

-- What the goroutines of a batch execute, in which order.
abbrev pub Schedule : Type 0
Schedule = List BatchOp → List BatchOp

pub data BatcherOption : Type 0 where
  with_batch_parallelism with_auto_flush_at : ℕ → BatcherOption

module _ {S X : Type 0} (v : MergedView S X) where
  -- `executeOp`, with a context that has not ended.
  unfoldable pub execute_op : S → BatchOp → S × Option X
  execute_op s op = elim op.kind [
    | remove ↦ v.remove_path s op.rel_path
    | remove_all ↦ v.remove_tree s op.rel_path
  ]

  -- The goroutines one after the other: the errors are collected as they come.
  unfoldable pub run_ops : S → List BatchOp → S × List X
  unfolding execute_op
  run_ops s [] = (s, [])
  run_ops s (op ∷ ops) =
      let r = execute_op s op in
      let rest = run_ops r.0 ops in elim r.1 [ none ↦ rest | some x ↦ (rest.0, x ∷ rest.1) ]

  -- `executeBatch`
  unfoldable pub execute_batch : Schedule → S → List BatchOp → S × List X
  unfolding run_ops
  execute_batch sched s [] = (s, [])
  execute_batch sched s (op ∷ ops) = run_ops s (sched (op ∷ ops))

-- What an operation of the batcher answers: that it is closed, or the errors of the batch, none for nil.
pub data Answer (X : Type 0) : Type 0 where
  batcher_closed : Answer X
  errors : List X → Answer X

abbrev pub apply_option : {S : Type 0} → BatcherOption → GoroutineBatcher S → GoroutineBatcher S
apply_option (with_batch_parallelism n) b = if ltb 0 n then record b { parallelism = n } else b
apply_option (with_auto_flush_at n) b = record b { auto_flush_at = n }

abbrev pub apply_options :
    {S : Type 0} → List BatcherOption → GoroutineBatcher S → GoroutineBatcher S
apply_options [] b = b
apply_options (o ∷ os) b = apply_options os (apply_option o b)

-- `NewGoroutineBatcher`, with the number of processors.
unfoldable pub new_batcher : {S : Type 0} → ℕ → S → List BatcherOption → GoroutineBatcher S
new_batcher cpus view os =
    apply_options os
      (record { view = view; parallelism = cpus; auto_flush_at = 0; pending = []; closed = false })

-- The second step of `Close`.
unfoldable pub close_mark : {S : Type 0} → GoroutineBatcher S → GoroutineBatcher S
close_mark b = record b { closed = true }

module _ {S X : Type 0} (v : MergedView S X) where
  unfoldable pub flush : Schedule → GoroutineBatcher S → GoroutineBatcher S × Answer X
  unfolding execute_batch
  flush sched b =
      if b.closed
      then (b, batcher_closed)
      else let r = execute_batch v sched b.view b.pending in
        (record b { view = r.0; pending = [] }, errors r.1)

  unfoldable pub submit : Schedule → GoroutineBatcher S → BatchOp → GoroutineBatcher S × Answer X
  unfolding flush
  submit sched b op =
      if b.closed
      then (b, batcher_closed)
      else let added = record b { pending = b.pending ++ op ∷ [] } in
        if ltb 0 b.auto_flush_at && leb b.auto_flush_at (length added.pending)
        then flush sched added
        else (added, errors [])

  -- The flush of a batcher that was open, and the mark.
  unfoldable pub close : Schedule → GoroutineBatcher S → GoroutineBatcher S × Answer X
  unfolding flush close_mark
  close sched b =
      if b.closed then (b, errors []) else let r = flush sched b in (close_mark r.0, r.1)
