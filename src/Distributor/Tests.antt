-- ===== src/Distributor/Tests.antt =====
-- Runs of the distributor.
use mathlib.Core.Option
use flesnet.Base.{ℕ, ◌<◌, ◌≡◌, refl, ◌⊎◌, Bool, true, false, Option, none, some, [], ◌∷◌, length}
use flesnet.Distributor.{
  Item, Worker, queue_all, Distributor, find_worker, change_worker, remove_worker, insert_worker,
  count_item, worker_refs, refs, let_go, remove_item, set_waiting, set_outstanding, clear_waiting,
  clear_outstanding, erase_worker, erase, delete_from_queue, wants, is_idle,
}
use flesnet.Distributor.Account.{completions}
use flesnet.Distributor.Handlers.{
  is_prebuffer_one, is_skip, has_group, identities, identities_before, identities_but,
  delete_in_group, add_outstanding, push_queue, log_message, send_now, offer, serve, serve_all,
  send_pending_completions, drop_locals, on_generator_pollin, register, completion, gone, violation,
  send_next, complete_item, on_worker_event, on_worker_pollin,
}
use flesnet.Distributor.Idle.{idle-nothing_waits}
use flesnet.Distributor.Once.{start, was_given, History, completed_once, never_completed}

abbrev all_reachable : ℕ → Bool
all_reachable k = true

abbrev worker : ℕ → Worker
worker group = record {
  stride = 1;
  offset = 0;
  queue_policy = queue_all;
  group_id = group;
  waiting_items = [];
  outstanding_items = [];
}

abbrev item : ℕ → Item
item n = record { id = n; payload = [] }

-- Two workers of a group: each gets an item, and a third item waits in the queues of both.
abbrev two_workers : Distributor
two_workers =
    on_worker_pollin all_reachable 2 (register (some (worker 5)))
      (on_worker_pollin all_reachable 1 (register (some (worker 5))) start)

-- The distributor after an item, where no undefined behaviour is met.
abbrev or_start : Option Distributor → Distributor
or_start none = start
or_start (some d) = d

abbrev offered : ℕ → Distributor → Distributor
offered n d = or_start (on_generator_pollin all_reachable (item n) d)

abbrev three_items : Distributor
three_items = offered 9 (offered 8 (offered 7 two_workers))

-- Both workers finish, the first gets the third item, and is lost.
abbrev two_done : Distributor
two_done =
    on_worker_pollin all_reachable 2 (completion (some 8))
      (on_worker_pollin all_reachable 1 (completion (some 7)) three_items)

abbrev lost : Distributor
lost = on_worker_pollin all_reachable 1 gone two_done

offered_items :
    (on_generator_pollin all_reachable (item 7) two_workers ≡ some (offered 7 two_workers))
    × (on_generator_pollin all_reachable (item 8) (offered 7 two_workers)
        ≡ some (offered 8 (offered 7 two_workers)))
    × (on_generator_pollin all_reachable (item 9) (offered 8 (offered 7 two_workers))
        ≡ some three_items)
unfolding Option.bind start find_worker change_worker remove_worker insert_worker count_item
    worker_refs refs let_go remove_item set_waiting set_outstanding clear_waiting clear_outstanding
    erase_worker erase delete_from_queue wants is_idle is_prebuffer_one is_skip has_group identities
    identities_before identities_but delete_in_group add_outstanding push_queue log_message send_now
    offer serve serve_all send_pending_completions drop_locals on_generator_pollin violation
    send_next complete_item on_worker_event on_worker_pollin
offered_items = (refl, refl, refl)

three_items-History : History (9 ∷ 8 ∷ 7 ∷ []) three_items
unfolding was_given
three_items-History =
    History.item all_reachable (item 9) refl
      (History.item all_reachable (item 8) refl
        (History.item all_reachable (item 7) refl
          (History.worker_event all_reachable 2 (register (some (worker 5)))
            (History.worker_event all_reachable 1 (register (some (worker 5))) History.started))
          (offered_items.0))
        (offered_items.1))
      (offered_items.2)

lost-History : History (9 ∷ 8 ∷ 7 ∷ []) lost
lost-History = History.worker_event all_reachable 1 gone (
    History.worker_event all_reachable 2 (completion (some 8))
      (History.worker_event all_reachable 1 (completion (some 7)) three_items-History))

lost_reports : lost.to_generator ≡ 7 ∷ 8 ∷ 9 ∷ []
unfolding Option.bind start find_worker change_worker remove_worker insert_worker count_item
    worker_refs refs let_go remove_item set_waiting set_outstanding clear_waiting clear_outstanding
    erase_worker erase delete_from_queue wants is_idle is_prebuffer_one is_skip has_group identities
    identities_before identities_but delete_in_group add_outstanding push_queue log_message send_now
    offer serve serve_all send_pending_completions drop_locals on_generator_pollin violation
    send_next complete_item on_worker_event on_worker_pollin
lost_reports = refl

completed_once_example :
    ((0 < worker_refs 9 lost.workers) × (completions 9 lost ≡ 0))
    ⊎ ((worker_refs 9 lost.workers ≡ 0) × (completions 9 lost ≡ 1))
unfolding was_given
completed_once_example = completed_once (9 ∷ 8 ∷ 7 ∷ []) lost 9 lost-History refl

never_completed_example : (worker_refs 6 lost.workers ≡ 0) × (completions 6 lost ≡ 0)
unfolding was_given
never_completed_example = never_completed (9 ∷ 8 ∷ 7 ∷ []) lost 6 lost-History refl

-- A worker that cannot be reached, and one with a stride of zero.
erased_in_loop : on_generator_pollin (λ k. false) (item 7) two_workers ≡ none
unfolding Option.bind start find_worker change_worker remove_worker insert_worker count_item
    worker_refs refs let_go remove_item set_waiting set_outstanding clear_waiting clear_outstanding
    erase_worker erase delete_from_queue wants is_idle is_prebuffer_one is_skip has_group identities
    identities_before identities_but delete_in_group add_outstanding push_queue log_message send_now
    offer serve serve_all send_pending_completions drop_locals on_generator_pollin violation
    send_next complete_item on_worker_event on_worker_pollin
erased_in_loop = refl

no_stride : wants (record (worker 5) { stride = 0 }) 7 ≡ none
unfolding wants
no_stride = refl

-- The second worker has nothing to do.
second_worker : find_worker 2 lost.workers ≡ some (worker 5)
unfolding Option.bind start find_worker change_worker remove_worker insert_worker count_item
    worker_refs refs let_go remove_item set_waiting set_outstanding clear_waiting clear_outstanding
    erase_worker erase delete_from_queue wants is_idle is_prebuffer_one is_skip has_group identities
    identities_before identities_but delete_in_group add_outstanding push_queue log_message send_now
    offer serve serve_all send_pending_completions drop_locals on_generator_pollin violation
    send_next complete_item on_worker_event on_worker_pollin
second_worker = refl

idle-nothing_waits_example : length (worker 5).waiting_items ≡ 0
unfolding is_idle
idle-nothing_waits_example =
    idle-nothing_waits (9 ∷ 8 ∷ 7 ∷ []) lost 2 (worker 5) lost-History second_worker refl
