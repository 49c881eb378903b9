-- ===== src/Devices/Availability.antt =====
-- What the table says after a check, and when it is wrong.
use octavia_f5_provider_driv.Base.{
  String, Bool, true, false, not, ◌&&◌, ◌||◌, ◌≡◌, refl, ◌∙◌, sym, ap, Option, none, some, List, [],
  ◌∷◌, ◌==◌, mem, ◌⊎◌, All, All-mem, arith, eq_iff, Bool-cases, Option-cases, inl, inr, Dict,
  lookup, insert, lookup-insert, Exception, ok, err, if◌then◌else◌,
}
use mathlib.Core.Bool.{false≢true}
use mathlib.Core.Option.{none-ne-some}
use octavia_f5_provider_driv.Devices.{
  master, backup, Row, is_ready, is_allocated, State, World, is_available, status_of, update_row,
  update_rows, update_availability, availability, check_device, availability_check, is_timeout,
  Checked, stored, same, option_or,
}

abbrev pub is_distinct : List String → Bool
is_distinct [] = true
is_distinct (s ∷ r) = not (mem s r) && is_distinct r

-- The row that the update gives a device, from its old one.
abbrev pub new_row : World → State → String → Option Row → Row
new_row w s b old = record {
  status = status_of (is_available s b) old;
  role = some (if w.is_active b then master else backup);
  vrrp_priority = elim old [ none ↦ none | some row ↦ row.vrrp_priority ];
}

module _ (w : World) (s : State) where
  lookup-update_row :
      (b c : String) (t : Dict Row)
      → lookup c (update_row w s b t)
        ≡ (if b == c then some (new_row w s b (lookup b t)) else lookup c t)
  unfolding update_row
  lookup-update_row b c t = lookup-insert b c (new_row w s b (lookup b t)) t

  lookup-update_rows_other :
      (c : String) (bs : List String) (t : Dict Row)
      → mem c bs ≡ false
      → lookup c (update_rows w s bs t) ≡ lookup c t
  unfolding update_rows
  lookup-update_rows_other c [] t h = refl
  lookup-update_rows_other c (b ∷ bs) t h =
      lookup-update_rows_other c bs (update_row w s b t) (ground arith)
      ∙ rw (lookup-update_row b c t) (ground arith)

  lookup-update_rows :
      (c : String) (bs : List String) (t : Dict Row)
      → mem c bs ≡ true
      → is_distinct bs ≡ true
      → lookup c (update_rows w s bs t) ≡ some (new_row w s c (lookup c t))
  unfolding update_rows
  lookup-update_rows c [] t m d = absurd (false≢true m)
  lookup-update_rows c (b ∷ bs) t m d = elim (Bool-cases (b == c)) [
    | inl e ↦
        lookup-update_rows_other c bs (update_row w s b t)
          (rw ((eq_iff b c).0 e) at (not_mem b bs d))
        ∙ rw (lookup-update_row b c t, e)
            (ap (λ (x : String). some (new_row w s x (lookup x t))) ((eq_iff b c).0 e))
    | inr ne ↦
        lookup-update_rows c bs (update_row w s b t) (ground arith) (ground arith)
        ∙ rw (lookup-update_row b c t, ne) refl
  ]
    where
      not_mem : (b : String) (bs : List String) → is_distinct (b ∷ bs) ≡ true → mem b bs ≡ false
      not_mem b bs d = ground arith

-- No row, or one that says that the device is offline.
abbrev pub is_offline : Option Row → Bool
is_offline none = true
is_offline (some row) = is_allocated row.status

-- The table says of every device what the status manager knows.
abbrev pub InSync : State → Type 0
InSync s = All (λ b. is_offline (lookup b s.table) ≡ not (is_available s b)) s.bigips

status_of-is_allocated :
    (available : Bool) (old : Option Row) → is_allocated (status_of available old) ≡ not available
unfolding status_of
status_of-is_allocated false old = refl
status_of-is_allocated true none = refl
status_of-is_allocated true (some row) = elim (Bool-cases (is_ready row.status)) [
  | inl h ↦ rw h
  | inr h ↦ rw h
]

update_availability-InSync :
    (w : World) (s : State)
    → is_distinct s.bigips ≡ true
    → InSync (record s { table = update_rows w s s.bigips s.table })
update_availability-InSync w s d = All-mem _ s.bigips (λ b m.
    rw (lookup-update_rows w s b s.bigips s.table m d)
      (status_of-is_allocated (is_available s b) (lookup b s.table)))

abbrev pub answers : Option Exception → Bool
answers none = true
answers (some _) = false

-- What a check of the devices `bs` leaves, if nothing raised.
pub record Keeps (w : World) (bs : List String) (s c : State) : Type 0 where
  pub in_sync : InSync c
  pub same_bigips : c.bigips ≡ s.bigips
  pub known :
      (x : String) → is_available c x ≡ (if mem x bs then answers (w.get x) else is_available s x)

same_eq : (a b : Bool) → same a b ≡ true → a ≡ b
same_eq true true h = refl
same_eq false false h = refl
same_eq true false h = sym h
same_eq false true h = h

availability-answers :
    (e : Option Exception)
    → (availability e ≡ ok (answers e)) ⊎ ((x : Exception) × (availability e ≡ err x))
unfolding availability
availability-answers none = inl refl
availability-answers (some e) = elim (Bool-cases (is_timeout e)) [
  | inl h ↦ inl (rw h)
  | inr h ↦ inr (e, rw h)
]

module _ (w : World) where
  known_new :
      (b x : String) (a : Bool) (s : State)
      → option_or (lookup x (insert b a s.bigip_status)) false
        ≡ (if (b == x) || false then a else is_available s x)
  known_new b x a s = rw (lookup-insert b x a s.bigip_status) (ground arith)

  at_key : (b x : String) (s : State) → (b == x) ≡ true → answers (w.get b) ≡ answers (w.get x)
  at_key b x s h = ap (λ (y : String). answers (w.get y)) ((eq_iff b x).0 h)

  known_old :
      (b x : String) (s : State)
      → is_available s b ≡ answers (w.get b)
      → is_available s x ≡ (if (b == x) || false then answers (w.get x) else is_available s x)
  known_old b x s h = elim (Bool-cases (b == x)) [
    | inl e ↦
        rw e (ap (λ (y : String). is_available s y) (sym ((eq_iff b x).0 e)) ∙ h ∙ at_key b x s e)
    | inr ne ↦ rw ne refl
  ]

  stored-Keeps :
      (b : String) (s : State)
      → is_distinct s.bigips ≡ true
      → (o : Option Exception)
      → let s' = record s { bigip_status = insert b (answers (w.get b)) s.bigip_status } in
        (stored w b s' (update_availability w o s')).raised ≡ none
        → Keeps w (b ∷ []) s (stored w b s' (update_availability w o s')).state
  unfolding stored update_availability
  stored-Keeps b s d (some e) r = absurd (none-ne-some _ (sym r))
  stored-Keeps b s d none r =
      let s' = record s { bigip_status = insert b (answers (w.get b)) s.bigip_status } in
      record {
        in_sync = update_availability-InSync w s' d;
        same_bigips = refl;
        known = λ x. known_new b x (answers (w.get b)) s ∙ ground (arith, at_key b x s);
      }

  check_device-Keeps :
      (b : String) (s : State)
      → is_distinct s.bigips ≡ true
      → InSync s
      → (check_device w b s (availability (w.get b))).raised ≡ none
      → Keeps w (b ∷ []) s (check_device w b s (availability (w.get b))).state
  unfolding check_device
  check_device-Keeps b s d h e = elim (availability-answers (w.get b)) [
    | inr x ↦ absurd (none-ne-some _ (sym (rw x.1 at e)))
    | inl a ↦ rw a (answered (rw a at e))
  ]
    where
      answered :
          (check_device w b s (ok (answers (w.get b)))).raised ≡ none
          → Keeps w (b ∷ []) s (check_device w b s (ok (answers (w.get b)))).state
      answered e = elim (Bool-cases (same (is_available s b) (answers (w.get b)))) [
        | inl old ↦ rw old (record {
          in_sync = h;
          same_bigips = refl;
          known = λ x. known_old b x s (same_eq (is_available s b) (answers (w.get b)) old);
        })
        | inr new ↦ rw new (stored-Keeps b s d (w.commit b) (rw new at e))
      ]

  -- If a check of some devices raises nothing, the cached status of each of them is whether it answered
  -- in time, that of the others is as before, and the amphora table again has exactly the devices
  -- that are not available as offline. This is for a table that was so before, and different names.
  pub availability_check-Keeps :
      (bs : List String) (s : State)
      → is_distinct s.bigips ≡ true
      → InSync s
      → (availability_check w bs s).raised ≡ none
      → Keeps w bs s (availability_check w bs s).state
  unfolding availability_check
  availability_check-Keeps [] s d h e = record {
    in_sync = h;
    same_bigips = refl;
    known = λ x. refl;
  }
  availability_check-Keeps (b ∷ bs) s d h e =
      next (check_device w b s (availability (w.get b))) (check_device-Keeps b s d h)
        (availability_check-Keeps bs) e
    where
      next :
          (c : Checked)
          → (c.raised ≡ none → Keeps w (b ∷ []) s c.state)
          → ((t : State)
              → is_distinct t.bigips ≡ true
              → InSync t
              → (availability_check w bs t).raised ≡ none
              → Keeps w bs t (availability_check w bs t).state)
          → (elim c.raised as (λ _. Checked) [
            | none ↦ availability_check w bs c.state
            | some _ ↦ c
          ]).raised
            ≡ none
          → Keeps w
              (b ∷ bs)
              s
              (elim c.raised as (λ _. Checked) [
                | none ↦ availability_check w bs c.state
                | some _ ↦ c
              ]).state
      next c k ih r = elim (Option-cases c.raised) [
        | inl n ↦
            let first = k n in
            let later = ih c.state (rw first.same_bigips d) first.in_sync (rw n at r) in
            rw n (record {
              in_sync = later.in_sync;
              same_bigips = later.same_bigips ∙ first.same_bigips;
              known = λ x. later.known x ∙ rw (first.known x) (ground (arith, eq_iff b x));
            })
        | inr x ↦ absurd (none-ne-some _ (sym (rw x.1 at r) ∙ x.1))
      ]
