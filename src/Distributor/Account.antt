-- ===== src/Distributor/Account.antt =====
-- What is held and what is completed, for one item, over the operations of
-- lib/shm_ipc/ItemDistributorWorker.hpp.
use flesnet.Base.{
  ℕ, ◌+◌, ◌≤◌, ◌≡◌, refl, ap, ◌∙◌, ◌⊎◌, inl, inr, Bool, false, ◌&&◌, List, [], ◌∷◌, ◌++◌, arith,
  ◌==◌, if◌then◌else◌, Bool-cases,
}
use flesnet.Distributor.{Item, Distributor, refs, let_go}
use flesnet.Distributor.Refs.{one}

unfoldable pub count_id : ℕ → List ℕ → ℕ
count_id id [] = 0
count_id id (j ∷ js) = (if j == id then 1 else 0) + count_id id js

pub count_id-append :
    (id : ℕ) (xs ys : List ℕ) → count_id id (xs ++ ys) ≡ count_id id xs + count_id id ys
unfolding count_id
count_id-append id [] ys = omega arith
count_id-append id (x ∷ xs) ys = omega (arith, count_id-append id xs ys)

-- How often an item was completed, reported or not.
unfoldable pub completions : ℕ → Distributor → ℕ
completions id d = count_id id d.completed_items + count_id id d.to_generator

-- An item that was given is completed once when nobody holds it, and not before; one that was not
-- given is not held and not completed. `r` pointers to it are there.
abbrev pub Accounts : Bool → ℕ → ℕ → Type 0
Accounts given r done = (done ≡ (if given && r == 0 then 1 else 0)) × (given ≡ false → r ≡ 0)

abbrev pub Accounted : Bool → ℕ → Distributor → Type 0
Accounted given id d = Accounts given (refs id d) (completions id d)

-- The account before the pointer to `i` was taken away.
abbrev pub Owes : Bool → Item → ℕ → Distributor → Type 0
Owes given i id d = Accounts given (refs id d + one i id) (completions id d)

pub let_go-workers : (i : Item) (d : Distributor) → (let_go i d).workers ≡ d.workers
unfolding let_go
let_go-workers i d = ground arith

pub let_go-locals : (i : Item) (d : Distributor) → (let_go i d).locals ≡ d.locals
unfolding let_go
let_go-locals i d = ground arith

let_go-refs : (i : Item) (id : ℕ) (d : Distributor) → refs id (let_go i d) ≡ refs id d
unfolding refs
let_go-refs i id d = rw (let_go-workers i d, let_go-locals i d) refl

let_go-completions :
    (i : Item) (id : ℕ) (d : Distributor)
    → completions id (let_go i d) ≡ completions id d + (if refs i.id d == 0 then one i id else 0)
unfolding let_go completions count_id
let_go-completions i id d = elim (Bool-cases (refs i.id d == 0)) [
  | inl last ↦ rw (last) (omega (arith, count_id-append id d.completed_items (i.id ∷ [])))
  | inr held ↦ rw (held) (omega arith)
]

settle :
    (given : Bool) (r o done r' : ℕ)
    → (o ≡ 0) ⊎ ((o ≡ 1) × (r' ≡ r))
    → Accounts given (r + o) done
    → Accounts given r (done + (if r' == 0 then o else 0))
settle given r o done r' (inl e) h = ground arith
settle given r o done r' (inr e) h = ground arith

one-cases :
    (i : Item) (id : ℕ) (d : Distributor)
    → (one i id ≡ 0) ⊎ ((one i id ≡ 1) × (refs i.id d ≡ refs id d))
one-cases i id d = elim (Bool-cases (i.id == id)) [
  | inl same ↦
      let e : i.id ≡ id = ground (arith, same) in inr (ground (arith, same), ap (λ k. refs k d) e)
  | inr other ↦ inl (ground (arith, other))
]

-- The pointer goes, and the item with the last one.
pub let_go-Accounted :
    (given : Bool) (i : Item) (id : ℕ) (d : Distributor)
    → Owes given i id d
    → Accounted given id (let_go i d)
let_go-Accounted given i id d h =
    rw (let_go-refs i id d, let_go-completions i id d)
      (settle given (refs id d) (one i id) (completions id d) (refs i.id d) (one-cases i id d) h)

-- What an operation does to one item, with the local variables left alone.
pub record Follows (given : Bool) (id : ℕ) (d d' : Distributor) : Type 0 where
  pub account : Accounted given id d → Accounted given id d'
  pub same_locals : d'.locals ≡ d.locals

pub Follows-refl : (given : Bool) (id : ℕ) (d : Distributor) → Follows given id d d
Follows-refl given id d = record { account = λ h. h; same_locals = refl }

pub Follows-trans :
    (given : Bool) (id : ℕ) (d d' d'' : Distributor)
    → Follows given id d d'
    → Follows given id d' d''
    → Follows given id d d''
Follows-trans given id d d' d'' f g = record {
  account = λ h. g.account (f.account h);
  same_locals = g.same_locals ∙ f.same_locals;
}

-- Where the pointers and the completions stay, the account stays.
pub same-Follows :
    (given : Bool) (id : ℕ) (d d' : Distributor)
    → refs id d' ≡ refs id d
    → completions id d' ≡ completions id d
    → d'.locals ≡ d.locals
    → Follows given id d d'
same-Follows given id d d' r c l = record { account = λ h. rw (r, c) h; same_locals = l }

-- A pointer is taken out of the queues, and let go.
pub drop-Follows :
    (given : Bool) (id : ℕ) (i : Item) (d d' : Distributor)
    → refs id d' + one i id ≡ refs id d
    → completions id d' ≡ completions id d
    → d'.locals ≡ d.locals
    → Follows given id d (let_go i d')
drop-Follows given id i d d' r c l = record {
  account = λ h. let_go-Accounted given i id d' (rw (r, c) h);
  same_locals = let_go-locals i d' ∙ l;
}

-- A new pointer is a copy of one that is there.
pub gain :
    (given : Bool) (r o done : ℕ) → o ≤ r → Accounts given r done → Accounts given (r + o) done
gain given r o done h a = ground arith
