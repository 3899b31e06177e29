-- ===== src/Core/Ipc/Fifo.antt =====
-- A message queue of kernel/src/core/ipc.cpp over its life: what is delivered is what was accepted, in order.
use mathlib.Core.List.{append-nil, append_assoc}
use pocky.Common.{
  ℕ, ◌<◌, ◌≤◌, ◌≡◌, refl, sym, ap, subst, ◌∙◌, ◌⊎◌, inl, inr, Bool, true, false, ◌||◌, Option, none,
  some, List, [], ◌∷◌, ◌++◌, length, length-append, List-cases, ltb, arith, Bool-cases,
  Option-cases,
}
use pocky.Vector.Erase.{remove_at, erase_at-remove_at}
use pocky.Core.Scheduler.Schedule.{Kernel}
use pocky.Core.Ipc.{
  Message, MessageQueue, Received, max_message_size, max_messages_per_queue, is_full, message,
  wake_first, send_message, take_message, suspend, receive_message,
}

messages-wake_first : (q : MessageQueue) (k : Kernel) → (wake_first q k).0.messages ≡ q.messages
unfolding wake_first
messages-wake_first q k = ground arith

-- The two ends of `send_message`.
pub record Sent (now sender : ℕ) (bytes : List ℕ) (size : ℕ) (q q' : MessageQueue) : Type 0 where
  pub room : length q.messages < max_messages_per_queue
  pub small : size ≤ max_message_size
  pub last : q'.messages ≡ q.messages ++ (message now sender bytes size ∷ [])

pub send_message_cases :
    (now sender : ℕ) (bytes : List ℕ) (size : ℕ) (q : MessageQueue) (k : Kernel)
    → (send_message now sender bytes size q k ≡ (false, q, k))
      ⊎ ((q' : MessageQueue) × (k' : Kernel) × (send_message now sender bytes size q k
            ≡ (true, q', k'))
          × Sent now sender bytes size q q')
unfolding send_message
send_message_cases now sender bytes size q k =
    elim (Bool-cases (is_full q || ltb max_message_size size)) [
      | inl y ↦ inl (rw y refl)
      | inr n ↦
          let pushed : MessageQueue = record q {
            messages = q.messages ++ (message now sender bytes size ∷ []);
          } in
          inr (
            (wake_first pushed k).0,
            (wake_first pushed k).1,
            rw n refl,
            record {
              room = ground arith;
              small = ground arith;
              last = messages-wake_first pushed k;
            },
          )
    ]

take_none : (q : MessageQueue) → q.messages ≡ [] → take_message q ≡ (none, q)
unfolding take_message
take_none q e = ground arith

-- The ends of `take_message`.
pub take_message_cases :
    (q : MessageQueue)
    → ((q.messages ≡ []) × (take_message q ≡ (none, q)))
      ⊎ ((m : Message) × (ms : List Message) × (q.messages ≡ m ∷ ms)
          × (take_message q ≡ (some m, record q { messages = ms })))
unfolding take_message remove_at
take_message_cases q = elim (List-cases q.messages) [
  | inl e ↦ inl (e, take_none q e)
  | inr (m, ms, e) ↦
      inr (m, ms, e, rw (take_message, e, erase_at-remove_at 0 (m ∷ ms) (omega arith)) refl)
]

receive_first :
    (fuel now cpu : ℕ) (wait : Bool) (q : MessageQueue) (k : Kernel) (m : Message)
    (ms : List Message)
    → q.messages ≡ m ∷ ms
    → receive_message fuel now cpu wait q k
      ≡ some (Received.received m, record q { messages = ms }, k)
unfolding receive_message take_message remove_at
receive_first fuel now cpu wait q k m ms e =
    rw (receive_message, e, take_message, e, erase_at-remove_at 0 (m ∷ ms) (omega arith)) refl

messages-suspend :
    (fuel now cpu p : ℕ) (q : MessageQueue) (k : Kernel) (result : Received) (q' : MessageQueue)
    (k' : Kernel)
    → suspend fuel now cpu p q k ≡ some (result, q', k')
    → (result ≡ Received.suspended) × (q'.messages ≡ q.messages)
unfolding suspend
messages-suspend fuel now cpu p q k result q' k' h = ground arith

failed_or_suspended :
    (result failure : Received) (q q' : MessageQueue) (k k' : Kernel)
    (before after : Option (Received × MessageQueue × Kernel))
    → failure ≡ Received.failed
    → before ≡ some (failure, q, k)
    → after ≡ some (result, q', k')
    → before ≡ after
    → ((result ≡ Received.failed) ⊎ (result ≡ Received.suspended)) × (q'.messages ≡ q.messages)
failed_or_suspended result failure q q' k k' before after e b a h =
    let same : failure ≡ result = ground arith in
    let same_queue : q ≡ q' = ground arith in
    (inl (sym same ∙ e), ap (λ x. x.messages) (sym same_queue))

receive_none :
    (fuel now cpu : ℕ) (wait : Bool) (q : MessageQueue) (k : Kernel) (result : Received)
    (q' : MessageQueue) (k' : Kernel)
    → q.messages ≡ []
    → receive_message fuel now cpu wait q k ≡ some (result, q', k')
    → ((result ≡ Received.failed) ⊎ (result ≡ Received.suspended)) × (q'.messages ≡ q.messages)
unfolding receive_message
receive_none fuel now cpu false q k result q' k' e h =
    failed_or_suspended result Received.failed q q' k k' _ _ refl refl h (ground arith)
receive_none fuel now cpu true q k result q' k' e h = elim (Option-cases k.manager.current) [
  | inl nobody ↦ failed_or_suspended result Received.failed q q' k k' _ _ refl refl h (ground arith)
  | inr (p, here) ↦
      let s = messages-suspend fuel now cpu p q k result q' k' (ground arith) in (inr s.0, s.1)
]

-- One event in the life of a queue, with the messages that it accepts and those that it delivers. The
-- rest of the kernel may be in any state before it.
pub data Step : MessageQueue → List Message → List Message → MessageQueue → Type 0 where
  sent :
      (now sender : ℕ) (bytes : List ℕ) (size : ℕ) {q q' : MessageQueue} (k : Kernel) {k' : Kernel}
      → send_message now sender bytes size q k ≡ (true, q', k')
      → Step q (message now sender bytes size ∷ []) [] q'
  refused :
      (now sender : ℕ) (bytes : List ℕ) (size : ℕ) {q q' : MessageQueue} (k : Kernel) {k' : Kernel}
      → send_message now sender bytes size q k ≡ (false, q', k')
      → Step q [] [] q'
  delivered :
      (fuel now cpu : ℕ) (wait : Bool) {q q' : MessageQueue} (k : Kernel) {k' : Kernel}
      (m : Message)
      → receive_message fuel now cpu wait q k ≡ some (Received.received m, q', k')
      → Step q [] (m ∷ []) q'
  empty_handed :
      (fuel now cpu : ℕ) (wait : Bool) {q q' : MessageQueue} (k : Kernel) {k' : Kernel}
      → receive_message fuel now cpu wait q k ≡ some (Received.failed, q', k')
      → Step q [] [] q'
  waits :
      (fuel now cpu : ℕ) (wait : Bool) {q q' : MessageQueue} (k : Kernel) {k' : Kernel}
      → receive_message fuel now cpu wait q k ≡ some (Received.suspended, q', k')
      → Step q [] [] q'
  resumed :
      {q q' : MessageQueue} (m : Message) → take_message q ≡ (some m, q') → Step q [] (m ∷ []) q'
  resumed_empty : {q q' : MessageQueue} → take_message q ≡ (none, q') → Step q [] [] q'

-- Any number of events, one after the other.
pub data Life : MessageQueue → List Message → List Message → MessageQueue → Type 0 where
  done : {q : MessageQueue} → Life q [] [] q
  next :
      {q q' q'' : MessageQueue} {a b c d : List Message}
      → Step q a b q'
      → Life q' c d q''
      → Life q (a ++ c) (b ++ d) q''

-- What one event or several keep.
abbrev pub Keeps : MessageQueue → List Message → List Message → MessageQueue → Type 0
Keeps q accepted given q' =
    (given ++ q'.messages ≡ q.messages ++ accepted)
    × (length q.messages ≤ max_messages_per_queue → length q'.messages ≤ max_messages_per_queue)

Keeps-all : (q q' : MessageQueue) → q'.messages ≡ q.messages → Keeps q [] [] q'
Keeps-all q q' e =
    (e ∙ sym (append-nil q.messages), λ h. subst (λ l. length l ≤ max_messages_per_queue) (sym e) h)

Keeps-rest :
    (q q' : MessageQueue) (m : Message) (ms : List Message)
    → q.messages ≡ m ∷ ms
    → q'.messages ≡ ms
    → Keeps q [] (m ∷ []) q'
Keeps-rest q q' m ms e r = (
  ap (λ l. m ∷ l) r ∙ sym e ∙ sym (append-nil q.messages),
  λ h. omega (arith, ap length e, ap length r),
)

Received_cases :
    (fuel now cpu : ℕ) (wait : Bool) (q : MessageQueue) (k : Kernel) (result : Received)
    (q' : MessageQueue) (k' : Kernel)
    → receive_message fuel now cpu wait q k ≡ some (result, q', k')
    → (((result ≡ Received.failed) ⊎ (result ≡ Received.suspended)) × (q'.messages ≡ q.messages))
      ⊎ ((m : Message) × (result ≡ Received.received m) × Keeps q [] (m ∷ []) q')
Received_cases fuel now cpu wait q k result q' k' h = elim (List-cases q.messages) [
  | inl empty ↦ inl (receive_none fuel now cpu wait q k result q' k' empty h)
  | inr (m, ms, e) ↦
      let run = receive_first fuel now cpu wait q k m ms e in
      let rest : MessageQueue = record q { messages = ms } in
      let same : rest ≡ q' = ground arith in
      inr (m, ground arith, Keeps-rest q q' m ms e (ap (λ x. x.messages) (sym same)))
]

Step-Keeps : {q q' : MessageQueue} {a d : List Message} → Step q a d q' → Keeps q a d q'
Step-Keeps {q} {q'} (Step.sent now sender bytes size k h) =
    elim (send_message_cases now sender bytes size q k) [
      | inl refusal ↦ absurd (ground arith)
      | inr (x, k'', sending, s) ↦
          let same : x ≡ q' = ground arith in
          let last = s.last in
          let put : q'.messages ≡ q.messages ++ (message now sender bytes size ∷ []) =
            ap (λ y. y.messages) (sym same) ∙ last in
          (
            put,
            λ _. rw put (
                omega
                  (arith, s.room, length-append q.messages (message now sender bytes size ∷ []))),
          )
    ]
Step-Keeps {q} {q'} (Step.refused now sender bytes size k h) =
    elim (send_message_cases now sender bytes size q k) [
      | inl refusal ↦
          let same : q ≡ q' = ground arith in Keeps-all q q' (ap (λ x. x.messages) (sym same))
      | inr (x, k'', sending, s) ↦ absurd (ground arith)
    ]
Step-Keeps {q} {q'} (Step.delivered fuel now cpu wait k {k'} m h) =
    elim (Received_cases fuel now cpu wait q k (Received.received m) q' k' h) [
      | inl (other, _) ↦ absurd (ground arith)
      | inr (n, e, keeps) ↦
          let same : n ≡ m = ground arith in subst (λ x. Keeps q [] (x ∷ []) q') same keeps
    ]
Step-Keeps {q} {q'} (Step.empty_handed fuel now cpu wait k {k'} h) =
    elim (Received_cases fuel now cpu wait q k Received.failed q' k' h) [
      | inl (_, e) ↦ Keeps-all q q' e
      | inr (n, e, keeps) ↦ absurd (ground arith)
    ]
Step-Keeps {q} {q'} (Step.waits fuel now cpu wait k {k'} h) =
    elim (Received_cases fuel now cpu wait q k Received.suspended q' k' h) [
      | inl (_, e) ↦ Keeps-all q q' e
      | inr (n, e, keeps) ↦ absurd (ground arith)
    ]
Step-Keeps {q} {q'} (Step.resumed m h) = elim (take_message_cases q) [
  | inl (_, e) ↦ absurd (ground arith)
  | inr (n, ms, e, run) ↦
      let rest : MessageQueue = record q { messages = ms } in
      let same : rest ≡ q' = ground arith in
      let first : n ≡ m = ground arith in
      Keeps-rest q q' m ms (e ∙ ap (λ x. x ∷ ms) first) (ap (λ x. x.messages) (sym same))
]
Step-Keeps {q} {q'} (Step.resumed_empty h) = elim (take_message_cases q) [
  | inl (_, e) ↦
      let same : q ≡ q' = ground arith in Keeps-all q q' (ap (λ x. x.messages) (sym same))
  | inr (n, ms, e, run) ↦ absurd (ground arith)
]

Life-Keeps :
    {q q' : MessageQueue} {accepted given : List Message}
    → Life q accepted given q'
    → Keeps q accepted given q'
Life-Keeps {q} Life.done = Keeps-all q q refl
Life-Keeps {q} (Life.next {q' = r} {q'' = r'} {a = a} {b = b} {c = c} {d = d} step rest) =
    let one = Step-Keeps step in
    let more = Life-Keeps rest in
    (
      append_assoc b d r'.messages
          ∙ ap (λ l. b ++ l) more.0
          ∙ sym (append_assoc b r.messages c)
          ∙ ap (λ l. l ++ c) one.0
          ∙ append_assoc q.messages a c,
      λ h. more.1 (one.1 h),
    )

-- Over any number of events, the messages delivered and then those still in the queue are the
-- messages that were in the queue and then those that were accepted, in this order.
pub Life-in_order :
    {q q' : MessageQueue} {accepted given : List Message}
    → Life q accepted given q'
    → given ++ q'.messages ≡ q.messages ++ accepted
Life-in_order life = (Life-Keeps life).0

-- Over any number of events, a queue that holds at most 64 messages still does.
pub Life-bounded :
    {q q' : MessageQueue} {accepted given : List Message}
    → Life q accepted given q'
    → length q.messages ≤ max_messages_per_queue
    → length q'.messages ≤ max_messages_per_queue
Life-bounded life = (Life-Keeps life).1
