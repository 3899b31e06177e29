-- ===== src/Core/Ipc/Manager/Lifecycle.antt =====
-- `create_message_queue`, `open_message_queue` and `destroy_message_queue`: the table stays in order,
-- a name that was created opens, and one that was destroyed does not.
use pocky.Common.{
  ℕ, suc, ◌+◌, ◌≡◌, refl, sym, ap, subst, ◌∙◌, ◌≢◌, ◌⊎◌, inl, inr, true, none, some, List, [], ◌∷◌,
  ◌++◌, length, length-append, length-set, get_elem?, set, arith, Option-cases,
}
use pocky.Common.Int.{ℤ, pos, negsuc}
use pocky.Core.Process.{Table}
use pocky.Core.Ipc.{MessageQueue}
use pocky.Core.Ipc.Manager.{
  IpcManager, find_named, find_free, new_queue, create_message_queue, open_message_queue,
  lookup_queue, release_waiting, destroy_message_queue,
}
use pocky.Core.Ipc.Manager.Names.{AreDistinct, find_named-set_new, find_named-append_new}
use pocky.Core.Ipc.Manager.Slots.{
  AreDistinct-set_new, AreDistinct-append_new, AreDistinct-set-none, find_free_within,
  get_elem?-set, get_elem?-append, get_elem?-set_other, get_elem?-append_other, lookup_at,
}
use pocky.Core.Ipc.Manager.Lookup.{find_named-set_gone, lookup_beyond, lookup_empty, lookup_inv}

-- The next id is one past the slots, and no two queues have one name.
pub record IsOrdered (m : IpcManager) : Type 0 where
  pub next : m.next_queue_id ≡ length m.message_queues + 1
  pub distinct : AreDistinct m.message_queues

-- The queue stands at its new id, where none stood, and opens under its name, the table is ordered, and every
-- other queue stands where it did.
abbrev pub Succeeds : ℕ → ℕ → List ℕ → IpcManager → Type 0
Succeeds address owner name m =
    (i : ℕ) × (m' : IpcManager) × (create_message_queue address owner name m ≡ (pos (suc i), m'))
    × IsOrdered m'
    × (open_message_queue name m' ≡ pos (suc i))
    × (lookup_queue (pos (suc i)) m ≡ none)
    × (lookup_queue (pos (suc i)) m' ≡ some (i, new_queue address owner name))
    × ((id : ℤ) (j : ℕ) (q : MessageQueue)
        → lookup_queue id m ≡ some (j, q)
        → lookup_queue id m' ≡ some (j, q))

-- `create_message_queue` refused, or the queue stands at its new id and opens under its name.
abbrev pub Creates : ℕ → ℕ → List ℕ → IpcManager → Type 0
Creates address owner name m =
    ((open_message_queue name m ≢ negsuc 0)
      × (create_message_queue address owner name m ≡ (negsuc 0, m)))
    ⊎ ((open_message_queue name m ≡ negsuc 0) × Succeeds address owner name m)

open_found :
    (name : List ℕ) (m : IpcManager) (i : ℕ)
    → find_named name m.message_queues ≡ some i
    → open_message_queue name m ≡ pos (suc i)
unfolding open_message_queue
open_found name m i h = ground arith

open_missing :
    (name : List ℕ) (m : IpcManager)
    → find_named name m.message_queues ≡ none
    → open_message_queue name m ≡ negsuc 0
unfolding open_message_queue
open_missing name m h = ground arith

create_taken :
    (address owner : ℕ) (name : List ℕ) (m : IpcManager) (i : ℕ)
    → find_named name m.message_queues ≡ some i
    → create_message_queue address owner name m ≡ (negsuc 0, m)
unfolding create_message_queue
create_taken address owner name m i h = ground arith

create_reuses :
    (address owner : ℕ) (name : List ℕ) (m : IpcManager) (i : ℕ)
    → find_named name m.message_queues ≡ none
    → find_free m.message_queues ≡ some i
    → create_message_queue address owner name m ≡ (
      pos (suc i),
      record m { message_queues = set m.message_queues i (some (new_queue address owner name)) },
    )
unfolding create_message_queue
create_reuses address owner name m i h f = ground arith

create_extends :
    (address owner : ℕ) (name : List ℕ) (m : IpcManager)
    → find_named name m.message_queues ≡ none
    → find_free m.message_queues ≡ none
    → create_message_queue address owner name m ≡ (
      pos m.next_queue_id,
      record m {
        message_queues = m.message_queues ++ (some (new_queue address owner name) ∷ []);
        next_queue_id = m.next_queue_id + 1;
      },
    )
unfolding create_message_queue
create_extends address owner name m h f = ground arith

reused :
    (address owner : ℕ) (name : List ℕ) (m : IpcManager) (i : ℕ)
    → IsOrdered m
    → find_named name m.message_queues ≡ none
    → find_free m.message_queues ≡ some i
    → Succeeds address owner name m
reused address owner name m i o fresh free =
    let q = new_queue address owner name in
    let slots = m.message_queues in
    let m' : IpcManager = record m { message_queues = set slots i (some q) } in
    let inside = (find_free_within slots i free).0 in
    let same = length-set slots i (some q) in
    let next : m.next_queue_id ≡ length (set slots i (some q)) + 1 = omega (arith, o.next, same) in
    (
      i,
      m',
      create_reuses address owner name m i fresh free,
      record { next = next; distinct = AreDistinct-set_new name slots i q refl fresh o.distinct },
      open_found name m' i (find_named-set_new name slots i q refl fresh inside),
      lookup_empty m i (find_free_within slots i free).1,
      lookup_at m' i q next (omega (arith, inside, same)) (get_elem?-set slots i (some q) inside),
      λ id j p there.
          let (at_id, lt, held) = lookup_inv id m j p there in
          let apart : j ≢ i = λ e. absurd (
            ground (
              arith,
              subst (λ n. get_elem? slots n ≡ some (some p)) e held,
              (find_free_within slots i free).1,
            )) in
          subst (λ n. lookup_queue n m' ≡ some (j, p)) (sym at_id)
            (lookup_at m' j p next (omega (arith, lt, same))
              (get_elem?-set_other slots i j (some q) apart ∙ held)),
    )

extended :
    (address owner : ℕ) (name : List ℕ) (m : IpcManager)
    → IsOrdered m
    → find_named name m.message_queues ≡ none
    → find_free m.message_queues ≡ none
    → Succeeds address owner name m
extended address owner name m o fresh full =
    let q = new_queue address owner name in
    let slots = m.message_queues in
    let m' : IpcManager = record m {
      message_queues = slots ++ (some q ∷ []);
      next_queue_id = m.next_queue_id + 1;
    } in
    let grown = length-append slots (some q ∷ []) in
    let next : m.next_queue_id + 1 ≡ length (slots ++ (some q ∷ [])) + 1 =
      omega (arith, o.next, grown) in
    let id : m.next_queue_id ≡ suc (length slots) = omega (arith, o.next) in
    (
      length slots,
      m',
      create_extends address owner name m fresh full ∙ ap (λ n. (pos n, m')) id,
      record { next = next; distinct = AreDistinct-append_new name slots q refl fresh o.distinct },
      open_found name m' (length slots) (find_named-append_new name slots q refl fresh),
      lookup_beyond m o.next,
      lookup_at m' (length slots) q next (omega (arith, grown)) (get_elem?-append slots (some q)),
      λ id j p there.
          let (at_id, lt, held) = lookup_inv id m j p there in
          subst (λ n. lookup_queue n m' ≡ some (j, p)) (sym at_id)
            (lookup_at m' j p next (omega (arith, lt, grown))
              (get_elem?-append_other slots j (some q) lt ∙ held)),
    )

-- On an ordered table, `create_message_queue` refuses a name that opens and then changes nothing.
-- For any other name it returns a positive id at which no queue stood, at which the new, empty queue then
-- stands and which the name opens; every queue that stood in the table stands at the same id as
-- before, and the table stays ordered.
pub create_message_queue-Creates :
    (address owner : ℕ) (name : List ℕ) (m : IpcManager)
    → IsOrdered m
    → Creates address owner name m
create_message_queue-Creates address owner name m o =
    elim (Option-cases (find_named name m.message_queues)) [
      | inr (i, taken) ↦ inl (
        λ e. absurd (ground (arith, open_found name m i taken)),
        create_taken address owner name m i taken,
      )
      | inl fresh ↦ elim (Option-cases (find_free m.message_queues)) [
        | inr (i, free) ↦
            inr (open_missing name m fresh, reused address owner name m i o fresh free)
        | inl full ↦ inr (open_missing name m fresh, extended address owner name m o fresh full)
      ]
    ]

destroy_found :
    (id : ℤ) (m : IpcManager) (t : Table) (i : ℕ) (q : MessageQueue)
    → lookup_queue id m ≡ some (i, q)
    → destroy_message_queue id m t ≡ (
      true,
      record m { message_queues = set m.message_queues i none },
      release_waiting q.address q.waiting_processes t,
    )
unfolding destroy_message_queue
destroy_found id m t i q at = rw (destroy_message_queue, at) refl

-- On an ordered table, to destroy the queue that stands at an id succeeds. Then its name opens no
-- queue any more, no queue stands at its id, and the table stays ordered.
pub destroy_message_queue-Removes :
    (id : ℤ) (m : IpcManager) (t : Table) (i : ℕ) (q : MessageQueue)
    → IsOrdered m
    → lookup_queue id m ≡ some (i, q)
    → (m' : IpcManager) × (destroy_message_queue id m t
        ≡ (true, m', release_waiting q.address q.waiting_processes t))
      × IsOrdered m'
      × (open_message_queue q.name m' ≡ negsuc 0)
      × (lookup_queue id m' ≡ none)
destroy_message_queue-Removes id m t i q o at =
    let slots = m.message_queues in
    let m' : IpcManager = record m { message_queues = set slots i none } in
    let place = lookup_inv id m i q at in
    (
      m',
      destroy_found id m t i q at,
      record {
        next = omega (arith, o.next, length-set slots i none);
        distinct = AreDistinct-set-none slots i o.distinct;
      },
      open_missing q.name m' (find_named-set_gone q.name slots i q refl o.distinct place.2),
      subst (λ n. lookup_queue n m' ≡ none) (sym place.0)
          (lookup_empty m' i (get_elem?-set slots i none place.1)),
    )
