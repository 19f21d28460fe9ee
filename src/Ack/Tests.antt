-- ===== src/Ack/Tests.antt =====
-- Runs of the completion bookkeeping, and its theorems at such runs.
use flesnet.Base.{ℕ, ◌≤◌, ◌<◌, ◌≡◌, refl, Bool, true, false, some, arith}
use flesnet.Ring.{at, alloc_with_size_exponent, set_at}
use flesnet.Ack.{Acks, scan, complete}
use flesnet.Ack.Window.{mark}
use flesnet.Ack.History.{Run, start, completed, init, acked_frontier, complete_total}

-- Position 1 completes before position 0, in a ring of four marks.
abbrev after_one : Acks
after_one = record (init 2) { ack = set_at (init 2).ack 1 1 }

abbrev after_both : Acks
after_both = record after_one { acked = 2 }

abbrev done_one : ℕ → Bool
done_one = mark (λ p. false) 1

after_one_lem : complete (init 2) 1 ≡ some after_one
unfolding complete
after_one_lem = refl

after_both_lem : complete after_one 0 ≡ some after_both
unfolding complete scan at set_at alloc_with_size_exponent
after_both_lem = refl

size_four : (init 2).ack.size ≡ 4
unfolding alloc_with_size_exponent
size_four = refl

Run-one : Run 2 after_one done_one
unfolding alloc_with_size_exponent
Run-one = completed 1 after_one start refl (omega arith) (omega arith) after_one_lem

Run-both : Run 2 after_both (mark done_one 0)
unfolding alloc_with_size_exponent set_at
Run-both = completed 0 after_both Run-one refl (omega arith) (omega arith) after_both_lem

acked_frontier_example : ((p : ℕ) → p < 2 → mark done_one 0 p ≡ true) × (mark done_one 0 2 ≡ false)
acked_frontier_example = acked_frontier Run-both

complete_total_example :
    (s' : Acks) × (complete after_one 0 ≡ some s') × (0 ≤ s'.acked) × Run 2 s' (mark done_one 0)
unfolding alloc_with_size_exponent set_at
complete_total_example = complete_total 0 Run-one refl (omega arith) (omega arith)
