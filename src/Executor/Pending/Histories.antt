-- ===== src/Executor/Pending/Histories.antt =====
-- Histories of calls on the queue of runtime/rx-executor/src/pending.rs.
use rx_solutions.Base.{ℕ, List, [], ◌∷◌, Result}
use rx_solutions.Domain.Types.{Name}
use rx_solutions.Executor.Frame.{Identity, Request, Outcome, ExecutorError}
use rx_solutions.Executor.Pending.{PendingRequests, new, request_pause, accept, next, complete}
use rx_solutions.Executor.Pending.Sound.{
  IsSound, new-IsSound, request_pause-IsSound, accept-IsSound,
}
use rx_solutions.Executor.Pending.Offers.{next-IsSound}
use rx_solutions.Executor.Pending.Completes.{complete-IsSound}

pub data Call : Type 0 where
  accepts : List Request → ℕ → Call
  pauses : ℕ → Call
  offers : ℕ → Call
  completes : Request → Result ExecutorError Outcome → ℕ → Call

unfoldable pub call : Call → PendingRequests → PendingRequests
call (accepts rs now) q = (accept rs now q).1
call (pauses now) q = request_pause now q
call (offers now) q = (next now q).1
call (completes r result now) q = (complete r result now q).1

unfoldable pub run : List Call → PendingRequests → PendingRequests
run [] q = q
run (k ∷ ks) q = run ks (call k q)

pub call-IsSound : (k : Call) (q : PendingRequests) → IsSound q → IsSound (call k q)
unfolding call
call-IsSound (accepts rs now) q v = accept-IsSound rs now q v
call-IsSound (pauses now) q v = request_pause-IsSound now q v
call-IsSound (offers now) q v = next-IsSound now q v
call-IsSound (completes r result now) q v = complete-IsSound r result now q v

run_keeps-IsSound : (ks : List Call) (q : PendingRequests) → IsSound q → IsSound (run ks q)
unfolding run
run_keeps-IsSound [] q v = v
run_keeps-IsSound (k ∷ ks) q v = run_keeps-IsSound ks (call k q) (call-IsSound k q v)

-- After any calls on a new queue it holds at most 32 requests of its context, under different keys,
-- of which at most one is in flight. While it runs none is a pause; while a pause waits it is alone;
-- and once it has stopped nothing is left.
pub run-IsSound :
    (ks : List Call) (identity : Identity) (root : Name) → IsSound (run ks (new identity root))
run-IsSound ks identity root = run_keeps-IsSound ks (new identity root) (new-IsSound identity root)
