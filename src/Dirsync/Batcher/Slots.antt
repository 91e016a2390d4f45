-- ===== src/Dirsync/Batcher/Slots.antt =====
-- internal/dirsync/batcher.go: the goroutines of `executeBatch`, as a step relation. The loop tests the
-- context, then waits for a slot of the semaphore or for the end of the context, and then starts a goroutine
-- in either case, as `break` leaves the select only. A goroutine executes its operation, then takes a
-- token out of the semaphore, and is done. What the operations do is left out.
use bons_ci.Base.{ℕ, suc, ◌+◌, ◌≤◌, ◌<◌, Bool, true, false, ◌≡◌, arith}

-- Where the loop of the caller stands: at the test, at the select, or behind the loop.
pub data Phase : Type 0 where
  testing selecting waiting : Phase

pub record Batch : Type 0 where
  -- The operations that have no goroutine yet.
  pub left : ℕ
  pub phase : Phase
  pub tokens : ℕ
  pub running : ℕ
  pub executed : ℕ
  pub cancelled : Bool

abbrev pub start : ℕ → Batch
start n = record {
  left = n;
  phase = testing;
  tokens = 0;
  running = 0;
  executed = 0;
  cancelled = false;
}

-- Starting a goroutine for the next operation.
abbrev pub spawn : Batch → Batch
spawn b = record b { running = b.running + 1; phase = testing }

pub data Step (parallelism : ℕ) : Batch → Batch → Type 0 where
  cancel : (b : Batch) → Step parallelism b (record b { cancelled = true })
  finish_loop :
      (b : Batch)
      → b.phase ≡ testing
      → b.left ≡ 0
      → Step parallelism b (record b { phase = waiting })
  leave_loop :
      (b : Batch)
      → b.phase ≡ testing
      → b.cancelled ≡ true
      → Step parallelism b (record b { phase = waiting })
  next :
      (b : Batch) (n : ℕ)
      → b.phase ≡ testing
      → b.left ≡ suc n
      → b.cancelled ≡ false
      → Step parallelism b (record b { left = n; phase = selecting })
  acquire :
      (b : Batch)
      → b.phase ≡ selecting
      → b.tokens < parallelism
      → Step parallelism b (spawn (record b { tokens = b.tokens + 1 }))
  abandon : (b : Batch) → b.phase ≡ selecting → b.cancelled ≡ true → Step parallelism b (spawn b)
  execute :
      (b : Batch) (n : ℕ)
      → b.running ≡ suc n
      → Step parallelism b (record b { running = n; executed = b.executed + 1 })
  release :
      (b : Batch) (n m : ℕ)
      → b.executed ≡ suc n
      → b.tokens ≡ suc m
      → Step parallelism b (record b { executed = n; tokens = m })

pub data Steps (parallelism : ℕ) : Batch → Batch → Type 0 where
  done : (b : Batch) → Steps parallelism b b
  then_step : {b c d : Batch} → Steps parallelism b c → Step parallelism c d → Steps parallelism b d

-- `wg.Wait` returns: the loop is over and every goroutine is done.
abbrev pub IsFinished : Batch → Type 0
IsFinished b = (b.phase ≡ waiting) × (b.running + b.executed ≡ 0)

-- There are no more tokens than goroutines that will take one.
abbrev pub IsBalanced : Batch → Type 0
IsBalanced b = b.tokens ≤ b.running + b.executed

-- A goroutine was started without a token.
abbrev pub IsShort : Batch → Type 0
IsShort b = b.tokens < b.running + b.executed

module _ {parallelism : ℕ} where
  Step-IsBalanced : {b c : Batch} → Step parallelism b c → IsBalanced b → IsBalanced c
  Step-IsBalanced (cancel b) h = h
  Step-IsBalanced (finish_loop b p e) h = h
  Step-IsBalanced (leave_loop b p e) h = h
  Step-IsBalanced (next b n p e c) h = h
  Step-IsBalanced (acquire b p e) h = omega (arith, h)
  Step-IsBalanced (abandon b p e) h = omega (arith, h)
  Step-IsBalanced (execute b n e) h = omega (arith, h, e)
  Step-IsBalanced (release b n m e f) h = omega (arith, h, e, f)

  Step-IsShort : {b c : Batch} → Step parallelism b c → IsShort b → IsShort c
  Step-IsShort (cancel b) h = h
  Step-IsShort (finish_loop b p e) h = h
  Step-IsShort (leave_loop b p e) h = h
  Step-IsShort (next b n p e c) h = h
  Step-IsShort (acquire b p e) h = omega (arith, h)
  Step-IsShort (abandon b p e) h = omega (arith, h)
  Step-IsShort (execute b n e) h = omega (arith, h, e)
  Step-IsShort (release b n m e f) h = omega (arith, h, e, f)

  Steps-IsBalanced : {b c : Batch} → Steps parallelism b c → IsBalanced b → IsBalanced c
  Steps-IsBalanced (done b) h = h
  Steps-IsBalanced (then_step ss s) h = Step-IsBalanced s (Steps-IsBalanced ss h)

  Steps-IsShort : {b c : Batch} → Steps parallelism b c → IsShort b → IsShort c
  Steps-IsShort (done b) h = h
  Steps-IsShort (then_step ss s) h = Step-IsShort s (Steps-IsShort ss h)

  -- A step that leaves the select without a token starts a goroutine all the same.
  leaving-IsShort :
      {b c : Batch}
      → Step parallelism b c
      → b.phase ≡ selecting
      → ¬ (c.phase ≡ selecting)
      → c.tokens ≡ b.tokens
      → IsBalanced b
      → IsShort c
  leaving-IsShort (cancel b) p n e h = absurd (n p)
  leaving-IsShort (finish_loop b p' l) p n e h = cc (p, p')
  leaving-IsShort (leave_loop b p' l) p n e h = cc (p, p')
  leaving-IsShort (next b k p' l f) p n e h = cc (p, p')
  leaving-IsShort (acquire b p' l) p n e h = absurd (omega (arith, e))
  leaving-IsShort (abandon b p' l) p n e h = omega (arith, h)
  leaving-IsShort (execute b k l) p n e h = absurd (n p)
  leaving-IsShort (release b k m l f) p n e h = absurd (n p)

  -- In a batch from the start on, once a step takes the caller out of its wait for a slot without a token, no further steps
  -- let it return from its wait for the goroutines: one of them waits for a token that nobody puts in.
  pub abandoned_never_finishes :
      (n : ℕ) (b c d : Batch)
      → Steps parallelism (start n) b
      → b.phase ≡ selecting
      → Step parallelism b c
      → ¬ (c.phase ≡ selecting)
      → c.tokens ≡ b.tokens
      → Steps parallelism c d
      → ¬ IsFinished d
  abandoned_never_finishes n b c d before p step out same after finished =
      let balanced = Steps-IsBalanced before (omega arith) in
      let short = Steps-IsShort after (leaving-IsShort step p out same balanced) in
      omega (arith, short, finished.1)
