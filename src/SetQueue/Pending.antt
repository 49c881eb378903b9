-- ===== src/SetQueue/Pending.antt =====
-- What is pending in the queue.
use octavia_f5_provider_driv.Base.{
  String, Bool, true, false, ◌&&◌, ◌||◌, not, ◌≡◌, ◌↔◌, refl, ap, sym, ◌∙◌, Option, none, some,
  List, [], ◌∷◌, arith, ◌==◌, eq_iff, eq_refl, Bool-cases, inl, inr,
}
use mathlib.Core.Bool.{false≢true}
use mathlib.Core.Option.{none-ne-some}
use octavia_f5_provider_driv.SetQueue.{
  Item, same_device, same, mem_item, put, take, after, or_stop, Operation, put_item, get_item, run,
}

same_refl : (x : Item) → same x x ≡ true
same_refl x = rw (eq_refl x.network_id) (device_refl x.device)
  where
    device_refl : (d : Option String) → same_device d d ≡ true
    device_refl none = refl
    device_refl (some d) = eq_refl d

same_device-eq : (a b : Option String) → same_device a b ≡ true → a ≡ b
same_device-eq none none h = refl
same_device-eq (some a) (some b) h = cc ((eq_iff a b).0 h)
same_device-eq none (some b) h = absurd (ground arith)
same_device-eq (some a) none h = absurd (ground arith)

same_iff : (a b : Item) → (same a b ≡ true) ↔ (a ≡ b)
same_iff a b = (
  λ h. same-eq (ground arith) (same_device-eq a.device b.device (ground arith)),
  λ e. rw e (same_refl b),
)
  where
    same-eq : a.network_id == b.network_id ≡ true → a.device ≡ b.device → a ≡ b
    same-eq n d = cc ((eq_iff a.network_id b.network_id).0 n, d)

mem_item-put : (x y : Item) (q : List Item) → mem_item y (put x q) ≡ (same x y || mem_item y q)
unfolding put
mem_item-put x y q = elim (Bool-cases (mem_item x q)) [
  | inr absent ↦ rw absent
  | inl present ↦ elim (Bool-cases (same x y)) [
    | inl s ↦ rw (present, s) (rw ((same_iff x y).0 s) at present)
    | inr s ↦ rw (present, s)
  ]
]

-- No item is in the queue twice.
abbrev pub Once : List Item → Type 0
Once [] = Unit
Once (x ∷ q) = (mem_item x q ≡ false) × Once q

-- The queue after one operation: it holds nothing twice, and of each item what `f` says.
abbrev Became : List Item → (Item → Bool) → Option (List Item) → Type 0
Became q f none = Unit
Became q f (some q') = Once q' × ((y : Item) → mem_item y q' ≡ f y)

-- Of a queue that has `z` once in front, what is left without it.
gone-first :
    (x z y : Item) (q : List Item)
    → same z x ≡ true
    → mem_item z q ≡ false
    → mem_item y q ≡ (not (same x y) && (same z y || mem_item y q))
gone-first x z y q s absent = rw (← ((same_iff z x).0 s)) (elim (Bool-cases (same z y)) [
  | inl sy ↦ rw (sy, ap (λ v. mem_item v q) (sym ((same_iff z y).0 sy)) ∙ absent) refl
  | inr ns ↦ rw ns refl
])

other-stays :
    (x z y : Item) (b : Bool)
    → same z x ≡ false
    → (same z y || (not (same x y) && b)) ≡ (not (same x y) && (same z y || b))
other-stays x z y b s = elim (Bool-cases (same x y)) [
  | inr ns ↦ rw ns refl
  | inl xy ↦ elim (Bool-cases (same z y)) [
    | inr nz ↦ rw (xy, nz) refl
    | inl zy ↦
        absurd
          (false≢true (sym s ∙ (same_iff z x).1 ((same_iff z y).0 zy ∙ sym ((same_iff x y).0 xy))))
  ]
]

take-Became :
    (x : Item) (q : List Item) → Once q → Became q (λ y. not (same x y) && mem_item y q) (take x q)
unfolding take after
take-Became x [] h = tt
take-Became x (z ∷ q) h = elim (Bool-cases (same z x)) [
  | inl s ↦ rw s (h.1, λ y. gone-first x z y q s h.0)
  | inr s ↦ rw s (later s (take x q) (take-Became x q h.1))
]
  where
    later :
        same z x ≡ false
        → (o : Option (List Item)) → Became q (λ y. not (same x y) && mem_item y q) o
        → Became (z ∷ q) (λ y. not (same x y) && (same z y || mem_item y q)) (after z o)
    later s none k = tt
    later s (some r) k =
        ((k.1 z ∙ rw h.0 (ground arith), k.0), λ y. rw (k.1 y) (other-stays x z y (mem_item y q) s))

put-Once : (x : Item) (q : List Item) → Once q → Once (put x q)
unfolding put
put-Once x q h = elim (Bool-cases (mem_item x q)) [
  | inl present ↦ rw present h
  | inr absent ↦ rw absent (absent, h)
]

-- Whether an item is pending after the operations: the last one about it decides.
abbrev pub is_pending : Item → List Operation → Bool → Bool
is_pending x [] before = before
is_pending x (put_item y ∷ ops) before = is_pending x ops (same y x || before)
is_pending x (get_item y ∷ ops) before = is_pending x ops (not (same y x) && before)

-- The operations, as long as each takes what is there: nothing is in the queue twice, and an item is
-- in it exactly if it was put after it was last taken, or was there before and never taken. So
-- however often an item is put, it is there once, and one synchronisation takes it.
pub run-Pending :
    (ops : List Operation) (q q' : List Item)
    → Once q
    → run ops q ≡ some q'
    → Once q' × ((x : Item) → mem_item x q' ≡ is_pending x ops (mem_item x q))
unfolding run
run-Pending [] q q' h e = let same_queue : q' ≡ q = cc in rw same_queue (h, λ x. refl)
run-Pending (put_item y ∷ ops) q q' h e =
    let later = run-Pending ops (put y q) q' (put-Once y q h) e in
    (later.0, λ x. later.1 x ∙ rw (mem_item-put y x q) refl)
run-Pending (get_item y ∷ ops) q q' h e = taken (take y q) (take-Became y q h) e (run-Pending ops)
  where
    taken :
        (o : Option (List Item))
        → Became q (λ x. not (same y x) && mem_item x q) o
        → or_stop o (λ r. run ops r) ≡ some q'
        → ((r r' : List Item)
            → Once r
            → run ops r ≡ some r'
            → Once r' × ((x : Item) → mem_item x r' ≡ is_pending x ops (mem_item x r)))
        → Once q' × ((x : Item) → mem_item x q' ≡ is_pending x ops (not (same y x) && mem_item x q))
    taken none b e' ih = absurd (none-ne-some _ e')
    taken (some r) b e' ih =
        let later = ih r q' b.0 e' in (later.0, λ x. later.1 x ∙ rw (b.1 x) refl)
