-- ===== src/Dirsync/Batcher/Progress.antt =====
-- internal/dirsync/batcher.go: a batch whose context does not end can always be finished.
use bons_ci.Base.{
  ℕ, zero, suc, ◌+◌, ◌<◌, true, false, ◌≡◌, refl, sym, ◌∙◌, arith, ◌⊎◌, inl, inr, subst, ap,
}
use bons_ci.Dirsync.Batcher.Slots.{
  Phase, testing, selecting, waiting, Batch, start, Step, cancel, finish_loop, leave_loop, next,
  acquire, abandon, execute, release, Steps, done, then_step, IsFinished,
}

-- The context has ended, or every goroutine that is not done holds a token.
abbrev IsSettled : Batch → Type 0
IsSettled b = (b.cancelled ≡ true) ⊎ (b.tokens ≡ b.running + b.executed)

-- A batch at one place of the loop, with its counts.
abbrev at : Phase → (left tokens running executed : ℕ) → Batch
at p l t r e = record {
  left = l;
  phase = p;
  tokens = t;
  running = r;
  executed = e;
  cancelled = false;
}

module _ {parallelism : ℕ} where
  Step-IsSettled : {b c : Batch} → Step parallelism b c → IsSettled b → IsSettled c
  Step-IsSettled (cancel b) h = inl refl
  Step-IsSettled (finish_loop b p e) h = h
  Step-IsSettled (leave_loop b p e) h = h
  Step-IsSettled (next b n p e c) h = h
  Step-IsSettled (acquire b p e) h = ground (arith, h)
  Step-IsSettled (abandon b p e) h = inl e
  Step-IsSettled (execute b n e) h = ground (arith, h, e)
  Step-IsSettled (release b n m e f) h = ground (arith, h, e, f)

  Steps-IsSettled : {b c : Batch} → Steps parallelism b c → IsSettled b → IsSettled c
  Steps-IsSettled (done b) h = h
  Steps-IsSettled (then_step ss s) h = Step-IsSettled s (Steps-IsSettled ss h)

  steps_append :
      {b c d : Batch} → Steps parallelism b c → Steps parallelism c d → Steps parallelism b d
  steps_append ss (done c) = ss
  steps_append ss (then_step ts t) = then_step (steps_append ss ts) t

  one : {b c : Batch} → Step parallelism b c → Steps parallelism b c
  one {b} s = then_step (done b) s

  -- The goroutines execute their operations, and give back their tokens.
  execute_all : (p : Phase) (l t r e : ℕ) → Steps parallelism (at p l t r e) (at p l t 0 (e + r))
  execute_all p l t zero e =
      subst (λ x. Steps parallelism (at p l t 0 e) (at p l t 0 x)) (omega arith)
        (done (at p l t 0 e))
  execute_all p l t (suc r) e =
      subst (λ x. Steps parallelism (at p l t (suc r) e) (at p l t 0 x)) (omega arith)
        (steps_append (one (execute (at p l t (suc r) e) r refl)) (execute_all p l t r (e + 1)))

  release_all : (p : Phase) (l n : ℕ) → Steps parallelism (at p l n 0 n) (at p l 0 0 0)
  release_all p l zero = done (at p l 0 0 0)
  release_all p l (suc n) =
      steps_append (one (release (at p l (suc n) 0 (suc n)) n n refl refl)) (release_all p l n)

  quiet : (p : Phase) (l r e : ℕ) → Steps parallelism (at p l (r + e) r e) (at p l 0 0 0)
  quiet p l r e = steps_append (execute_all p l (r + e) r e) (
      subst (λ x. Steps parallelism (at p l (r + e) 0 x) (at p l 0 0 0)) (omega arith)
        (release_all p l (r + e)))

  -- The rest of the loop, one operation after the other.
  run_loop : (l : ℕ) → 0 < parallelism → Steps parallelism (at testing l 0 0 0) (at waiting 0 0 0 0)
  run_loop zero h = one (finish_loop (at testing 0 0 0 0) refl refl)
  run_loop (suc l) h =
      steps_append
        (then_step (one (next (at testing (suc l) 0 0 0) l refl refl refl))
          (acquire (at selecting l 0 0 0) refl h))
        (steps_append (quiet testing l 1 0) (run_loop l h))

  finish_from :
      (p : Phase) (l r e : ℕ)
      → 0 < parallelism
      → (c : Batch) × Steps parallelism (at p l (r + e) r e) c × IsFinished c
  finish_from testing l r e h =
      (at waiting 0 0 0 0, steps_append (quiet testing l r e) (run_loop l h), (refl, refl))
  finish_from selecting l r e h = (
    at waiting 0 0 0 0,
    steps_append (then_step (quiet selecting l r e) (acquire (at selecting l 0 0 0) refl h))
        (steps_append (quiet testing l 1 0) (run_loop l h)),
    (refl, refl),
  )
  finish_from waiting l r e h = (at waiting l 0 0 0, quiet waiting l r e, (refl, refl))

  -- From every state that a batch reaches while its context has not ended, with room for one goroutine at
  -- least, there are steps to its end.
  pub batch_can_finish :
      (n : ℕ) (b : Batch)
      → 0 < parallelism
      → Steps parallelism (start n) b
      → b.cancelled ≡ false
      → (c : Batch) × Steps parallelism b c × IsFinished c
  batch_can_finish n b h before calm = elim (Steps-IsSettled before (inr refl)) [
    | inl ended ↦ absurd (ground arith)
    | inr balanced ↦
        let same : at b.phase b.left (b.running + b.executed) b.running b.executed ≡ b =
          ap (λ t. record b { tokens = t; cancelled = false }) (sym balanced)
          ∙ ap (λ c. record b { cancelled = c }) (sym calm) in
        subst (λ x. (c : Batch) × Steps parallelism x c × IsFinished c) same
          (finish_from b.phase b.left b.running b.executed h)
  ]
