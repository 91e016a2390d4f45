-- ===== src/Dirsync/Tests/Batches.antt =====
-- internal/dirsync: handlers and batches on small inputs.
use bons_ci.Base.{Str, codes, ℕ, true, false, List, [], ◌∷◌, none, some, reverse, refl, arith}
use bons_ci.Dirsync.Handlers.{Handler}
use bons_ci.Dirsync.Batcher.{
  MemView, new_mem_view, MergedView, mem_view, BatchOp, remove, remove_all, GoroutineBatcher,
  Schedule,
}
use mathlib.Core.List.{Permᴰ}
use mathlib.Core.List.Permᴰ
use bons_ci.Dirsync.Batcher.Slots
use bons_ci.Dirsync.Batcher.Slots.{
  Batch, start, spawn, Steps, done, then_step, cancel, next, acquire, abandon, IsFinished,
  abandoned_never_finishes,
}
use bons_ci.Dirsync.Batcher.Progress.{batch_can_finish}

-- Puts the entry into an empty list, and fails on another.
abbrev append_new : Handler (List ℕ) ℕ Str
append_new [] e = (e ∷ [], none)
append_new (x ∷ xs) e = (x ∷ xs, some (codes "not empty"))

abbrev view : MergedView MemView Str
view = mem_view

abbrev remove_a : BatchOp
remove_a = record { kind = remove; rel_path = codes "a" }

abbrev remove_d : BatchOp
remove_d = record { kind = remove_all; rel_path = codes "d" }

-- A batcher that flushes at every second operation.
abbrev batcher : GoroutineBatcher MemView
batcher = record {
  view = new_mem_view (codes "/m");
  parallelism = 4;
  auto_flush_at = 2;
  pending = [];
  closed = false;
}

-- The goroutines run in the order of the list, and in the other order.
abbrev in_order : Schedule
in_order ops = ops

abbrev backwards : Schedule
backwards ops = reverse ops

abbrev scheduled_ops : List (BatchOp × Schedule)
scheduled_ops = (remove_a, in_order) ∷ (remove_d, backwards) ∷ (remove_a, in_order) ∷ []

abbrev manual : GoroutineBatcher MemView
manual = record batcher { auto_flush_at = 0; pending = remove_d ∷ [] }

-- One slot, two operations: the first has the slot when the context ends.
abbrev one_holds : Batch
one_holds = spawn (record (record (start 2) { left = 1; phase = Slots.selecting }) { tokens = 1 })

abbrev gives_up : Batch
gives_up = record (record one_holds { left = 0; phase = Slots.selecting }) { cancelled = true }

up_to_one : Steps 1 (start 2) one_holds
up_to_one =
    then_step (then_step (done (start 2)) (next (start 2) 1 refl refl refl))
      (acquire (record (start 2) { left = 1; phase = Slots.selecting }) refl (omega arith))

up_to_end : Steps 1 (start 2) gives_up
up_to_end =
    then_step (then_step up_to_one (next one_holds 0 refl refl refl))
      (cancel (record one_holds { left = 0; phase = Slots.selecting }))

abandoned_never_finishes_example : ¬ IsFinished (spawn gives_up)
abandoned_never_finishes_example =
    abandoned_never_finishes 2 gives_up (spawn gives_up) (spawn gives_up) up_to_end refl
      (abandon gives_up refl refl) (λ e. ground (arith, e)) refl (done (spawn gives_up))

batch_can_finish_example : (c : Batch) × Steps 1 one_holds c × IsFinished c
batch_can_finish_example = batch_can_finish 2 one_holds (omega arith) up_to_one refl
