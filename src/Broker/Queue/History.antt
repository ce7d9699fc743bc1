-- ===== src/Broker/Queue/History.antt =====
-- The queue over any sequence of calls: the invariant, and first in, first out.
use agent_whiteboard.Base.{◌≡◌, refl, List, [], ◌∷◌, Option, none, some, Str}
use agent_whiteboard.Agent.{Platform}
use agent_whiteboard.Provider.Message.{MessageContent}
use agent_whiteboard.Provider.Turn.{PageContext, TurnRequest}
use agent_whiteboard.Broker.Queue.{
  Queue, QueueItem, Result, ok, err, new, enqueue, dequeue, remove, clear, discard_context,
  attach_context_to_head,
}
use agent_whiteboard.Broker.Queue.Invariant.{Inv, new-Inv, enqueue-Inv, dequeue-Inv}
use agent_whiteboard.Broker.Queue.Removal.{
  remove-Inv, discard_context-Inv, attach_context_to_head-Inv,
}
use agent_whiteboard.Broker.Queue.Edit.{edit}
use agent_whiteboard.Broker.Queue.Edit.Invariant.{edit-Inv}

pub data Call : Type 0 where
  enqueues : QueueItem → Call
  edits : Str → MessageContent → Call
  removes : Str → Call
  attaches : PageContext → Call
  dequeues discards clears : Call

-- The queue after a call; a call that fails leaves it as it was.
abbrev after : Queue → Result Queue → Queue
after q (ok q') = q'
after q (err e) = q

abbrev after_first {ℓ} : {A : Type ℓ} → Queue → Result (Queue × A) → Queue
after_first q (ok (q', a)) = q'
after_first q (err e) = q

abbrev after_dequeue : Queue → Option (TurnRequest × Queue) → Queue
after_dequeue q none = q
after_dequeue q (some (r, q')) = q'

module _ (os : Platform) where
  unfoldable pub step : Queue → Call → Queue
  step q (enqueues turn) = after q (enqueue os turn q)
  step q (edits id content) = after_first q (edit os id content q)
  step q (removes id) = after_first q (remove id q)
  step q (attaches page) = after q (attach_context_to_head os (some page) q)
  step q dequeues = after_dequeue q (dequeue q)
  step q discards = (discard_context q).0
  step q clears = (clear q).0

  unfoldable pub run : Queue → List Call → Queue
  run q [] = q
  run q (c ∷ cs) = run (step q c) cs

  after-Inv :
      (q : Queue) (r : Result Queue)
      → Inv os q
      → ((q' : Queue) → r ≡ ok q' → Inv os q')
      → Inv os (after q r)
  after-Inv q (ok q') v k = k q' refl
  after-Inv q (err e) v k = v

  after_first-Inv {ℓ} :
      {A : Type ℓ} (q : Queue) (r : Result (Queue × A))
      → Inv os q
      → ((q' : Queue) (a : A) → r ≡ ok (q', a) → Inv os q')
      → Inv os (after_first q r)
  after_first-Inv q (ok (q', a)) v k = k q' a refl
  after_first-Inv q (err e) v k = v

  after_dequeue-Inv :
      (q : Queue) (r : Option (TurnRequest × Queue))
      → Inv os q
      → ((t : TurnRequest) (q' : Queue) → r ≡ some (t, q') → Inv os q')
      → Inv os (after_dequeue q r)
  after_dequeue-Inv q none v k = v
  after_dequeue-Inv q (some (t, q')) v k = k t q' refl

  step-Inv : (q : Queue) (c : Call) → Inv os q → Inv os (step q c)
  unfolding step clear
  step-Inv q (enqueues turn) v = after-Inv q _ v (λ q' e. enqueue-Inv os turn q q' v e)
  step-Inv q (edits id content) v =
      after_first-Inv q _ v (λ q' _ e. edit-Inv os id content q q' v e)
  step-Inv q (removes id) v = after_first-Inv q _ v (λ q' _ e. remove-Inv os id q q' v e)
  step-Inv q (attaches page) v =
      after-Inv q _ v (λ q' e. attach_context_to_head-Inv os (some page) q q' v e)
  step-Inv q dequeues v = after_dequeue-Inv q _ v (λ t q' e. dequeue-Inv os q q' t v e)
  step-Inv q discards v = discard_context-Inv os q v
  step-Inv q clears v = new-Inv os

  run_from-Inv : (q : Queue) (cs : List Call) → Inv os q → Inv os (run q cs)
  unfolding run
  run_from-Inv q [] v = v
  run_from-Inv q (c ∷ cs) v = run_from-Inv (step q c) cs (step-Inv q c v)

  -- After any sequence of calls on a new queue, accepted or refused, the byte count is exact and at
  -- most 96 KiB, at most 64 messages wait, all valid and with distinct turn and message identifiers,
  -- and the flag tells whether the one context that may wait is there.
  pub run-Inv : (cs : List Call) → Inv os (run new cs)
  run-Inv cs = run_from-Inv new cs (new-Inv os)
