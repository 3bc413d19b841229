-- ===== src/Lib.antt =====
-- A verification library for the Go concurrency examples. Each example of the repository is one
-- component, a Go package that shares nothing with the others, and one module of this library
-- with its children.
--
-- A goroutine is modelled as a program counter with its live local variables, and a function
-- gives the next atomic step from each program point: one critical section of a mutex, one
-- channel operation or select, or one atomic operation. A relation Step lets a scheduler pick any
-- goroutine, and any branch of a select that is ready; an execution is a finite sequence of such
-- steps (Reach, in Base/Steps). A step that blocks has no next state. Each component says which
-- calls its callers may make.
--
-- Base: names of the library, Boolean tests, lists and sums over native numbers, executions and
--   their invariants, contexts and select, and Go's signed integers.
-- Dining: examples/diningphilosophers/table.go. A Table holds the forks, the length of the
--   channel seats, the results, the contents of the channel errs, the context, and the place of
--   each philosopher. dine is the goroutine of one philosopher, a step at a time; sit and leave
--   are the functions of those names; run is the part of Run before it waits, and first_error the
--   loop over errs after it.
-- Pool: examples/connectionpool/pool.go and connection.go. Pool is the struct; acquire, release
--   and remove_waiter are the critical sections of Acquire, Release and removeWaiterLocked.
--   System adds the waiters' channels, the calls of Acquire that wait, and what callers have
--   borrowed; call_acquire, resume and call_release are the steps of callers, resume with a done
--   context being the cancellation case of the select.
-- Bank: examples/bankaccount/account.go. Bank holds the accounts by address and nextSequence;
--   open_account is New, and deposit, withdraw, transfer and balance_of are the methods, with
--   int64 arithmetic that wraps (Base/Int). Bank/Ledger runs sequences of calls. Bank/Locks
--   models the goroutines that call the methods, one mutex operation at a time, with lock_order
--   for lockOrder.
-- Queue: examples/boundedqueue/queue.go. enqueue, dequeue and close are the critical sections of
--   the methods, from a test of the loop condition to the wait or the return; Queue/Goroutines
--   has the goroutines that call them, and signal and broadcast for the condition variables.
--   System also records, for the statements, the items that Enqueue accepted and Dequeue
--   returned.
-- Keyed: examples/keyedlock/locker.go. acquire_entry and release_entry are the critical sections
--   of acquireEntry and releaseEntry; act is a goroutine in Lock or in the release function, from
--   the entry's reference to its mutex and back. Keyed/Registry has what the map and the
--   reference counts keep.
-- Barrier: examples/barrier/barrier.go. arrive is the critical section of Wait up to the first
--   wait on the condition variable, recheck the loop after a wake-up, close that of Close, and
--   leave what follows each of them. System also counts the calls of Wait that returned nil and
--   ErrClosed.
-- Inventory: examples/inventory/store.go. add and remove are the methods, add_valid and
--   remove_valid their critical sections; the map is an association list from item to an int64.
--   Inventory/Refinement has the stock as a function into the natural numbers, which the store
--   implements.
-- Semaphore: examples/semaphore/semaphore.go. acquire, try_acquire and release are the methods,
--   on the length and capacity of the channel of permits; act is a caller that takes a slot and
--   releases it.
-- Metrics: examples/atomiccounter/metrics.go. act is a goroutine in Start, Succeed or Fail, an
--   atomic operation at a time, with the load and the compare-and-swap of recordPeak as two
--   steps. System also records, for the statements, the highest value that inFlight has had. The
--   counters are natural numbers: inFlight is lowered only where a request is in flight.
-- Flight: examples/singleflight/group.go. join is the first critical section of Do, and act a
--   goroutine in Do: waiting for a call, or running its function, storing its result, and
--   deleting the call. System also records what each Do returned last.
-- Pipeline: examples/pipeline/pipeline.go. act is one step of a goroutine of Source, Filter, Map
--   or Collect, where a send on an unbuffered channel and the receive that it meets are one step
--   (send_source, send_filter, send_map); a done context makes the done cases ready. run is Run,
--   with int64 squares. Pipeline/Flow compares what is on its way with expected, a plain filter
--   and map.
-- Crawler: examples/webcrawler/crawler.go. A Worker is the place of a goroutine in work and
--   fetch, senders are the goroutines that enqueue starts, and Main is the place of Crawl;
--   pending and running are the wait groups. The fetcher is a parameter, the same answer for a
--   URL each time. Crawler/Links says which pages are linked from the start; Crawler/Waits what
--   the wait groups count.
-- Batcher: examples/batcher/batcher.go. act is the goroutine run at one of its selects; take_item
--   is its case of a received item or of the closed input, flush the closure of that name up to
--   its select. timer says whether timerC is not nil; the passing of time is the choice fire.
-- Workers: examples/workerpool/pool.go. act is one step of Run itself, of its select or of a
--   worker; take_index is the meeting of Run and a worker on the channel jobs, start_task and
--   finish are runTask and the store of its result, and observe records, for the statements, the
--   context when a task returns. worker_count is the number of workers that Run starts, or the
--   error of its argument.
-- Broker: examples/pubsub/broker.go. The call_ functions are the critical sections with which
--   Subscribe, Publish, an Unsubscribe function and Close start; start_send and start_close are
--   those of send and close of a subscriber, close_done and close_sub_done the closes of the done
--   channels, drop is unsubscribe up to its call of close; act_pick is the next iteration of a
--   loop over subscribers, in any order; the functions act_sub_done, act_broker_done, act_put and
--   act_meet are the select of send. act_turn is every other step. subscriber_count is
--   SubscriberCount.
-- Actor: examples/actor/counter.go. turn and stop_run are the goroutine run, apply its switch.
--   call_operation, hand_command, reject_call, take_reply and lose_reply are Add and Value with
--   the two selects of call, start_close and finish_close are Close. The count is a 64-bit signed
--   integer that wraps around.
-- Limiter: examples/ratelimiter/limiter.go. act_turn is the steps of Wait, TryAllow and Stop
--   outside the select of Wait, whose cases are the choices on_ctx, on_stopped and take of act;
--   settle is the test of isStopped after a token was taken. hear_tick, add_token and end_refill
--   are the goroutine refill. A tick of the ticker is a choice of the scheduler.
-- Loader: examples/lazyinit/loader.go. call_get is Get up to once.Do, once_do what that does with
--   the call, go_on the return of the load function and of Get.
-- Timeout: examples/timeoutworker/worker.go. start is Run up to its select, go_on its goroutine,
--   take_result and give_up are the cases of the select. observe records, for the statements, the
--   context when the work returns.
--
-- Not modelled: the package taskgroup; Snapshot and Reset of atomiccounter; the sort of the
-- visited pages in webcrawler; the memory model below mutexes, channels and atomics, which are
-- taken to be sequentially consistent; running out of memory; the text of formatted errors, which
-- are constructors of an error type. Lengths and counters that cannot reach 2^63 in a run that
-- fits in memory are natural numbers.
pub mod Actor
pub mod Bank
pub mod Barrier
pub mod Base
pub mod Batcher
pub mod Broker
pub mod Crawler
pub mod Dining
pub mod Flight
pub mod Inventory
pub mod Keyed
pub mod Limiter
pub mod Loader
pub mod Metrics
pub mod Pipeline
pub mod Pool
pub mod Queue
pub mod Semaphore
pub mod Timeout
pub mod Workers
