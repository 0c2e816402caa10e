-- ===== src/Store/Feeder/Stalls.antt =====
-- The zero-message flag: `Ingest` alone clears it.
use skewer.Prelude.{
  Bool, true, false, not, List, [], ◌∷◌, ◌++◌, ◌≡◌, refl, ap, sym, ◌∙◌, arith, Bytes, ==_iff,
  Bool-cases, inl, inr, append-nil, append_assoc,
}
use skewer.Conf.Destination.{Destination, letter, letter-injective}
use skewer.Store.Spec.{same_dest}
use skewer.Store.Feeder.{
  Lane, Retriever, waits, retrieves, carries, finds_none, System, at, Label, ingests, other, Step,
  load, hand, clear, leave_looking, leave_holding, check, get, get_none, get_fails, put, flag,
  cancel, stop, finish, ingest, push_back, select,
}
use skewer.Store.Feeder.Once.{same_dest_self, by_dest}

abbrev pub aims : Retriever → Destination → Bool
aims (retrieves e) d = same_dest e d
aims _ d = false

abbrev pub away : Destination → Label → Bool
away d (ingests e) = not (same_dest e d)
away d other = true

-- Any steps but `Ingest` for a destination.
pub data Run (d : Destination) (s : System) : System → Type 0 where
  stays : Run d s s
  goes : {s' s'' : System} (k : Label) → Run d s s' → away d k ≡ true → Step s' k s'' → Run d s s''

-- The destination is flagged, nothing is being retrieved for it, `n` has been retrieved, and its ready
-- queue has grown from `r`.
abbrev pub Flagged : Destination → (n r : List Bytes) → System → Type 0
Flagged d n r s =
    ((s.lanes d).no_messages ≡ true)
    × ((s.lanes d).retrieved ≡ n)
    × ((more : List Bytes) × ((s.lanes d).ready ≡ r ++ more))
    × (aims s.retriever d ≡ false)

field_at :
    {X : Type 0} (f : Lane → X) (e : Destination) (l : Lane) (lanes : Destination → Lane)
    → f l ≡ f (lanes e)
    → (d : Destination) → f (at e l lanes d) ≡ f (lanes d)
field_at f e l lanes h =
    by_dest (λ d. f (at e l lanes d) ≡ f (lanes d)) e (rw (same_dest_self e) h) (λ d n. rw n refl)

abbrev pub watched : Lane → Bool × List Bytes × List Bytes
watched l = (l.no_messages, l.retrieved, l.ready)

-- A lane changes in none of these.
kept :
    (d e : Destination) (n r : List Bytes) (s : System) (l : Lane) (t : Retriever)
    → Flagged d n r s
    → watched l ≡ watched (s.lanes e)
    → aims t d ≡ false
    → Flagged d n r (record s { lanes = at e l s.lanes; retriever = t })
kept d e n r s l t (flagged, same, (more, grown), _) fields a =
    let here = field_at watched e l s.lanes fields d in
    (
      ap (λ (p : Bool × List Bytes × List Bytes). p.0) here ∙ flagged,
      ap (λ (p : Bool × List Bytes × List Bytes). p.1) here ∙ same,
      (more, ap (λ (p : Bool × List Bytes × List Bytes). p.2) here ∙ grown),
      a,
    )

-- Another lane changes.
beside :
    (d e : Destination) (n r : List Bytes) (s : System) (l : Lane) (t : Retriever)
    → Flagged d n r s
    → same_dest e d ≡ false
    → aims t d ≡ false
    → Flagged d n r (record s { lanes = at e l s.lanes; retriever = t })
beside d e n r s l t h differ a = (rw differ h.0, rw differ h.1, (h.2.0, rw differ h.2.1), a)

-- Messages are put into a ready queue.
grows :
    (r us : List Bytes) (e : Destination) (lanes : Destination → Lane) (d : Destination)
    → (more : List Bytes) × ((lanes d).ready ≡ r ++ more)
    → (more : List Bytes) × ((at e
          (record (lanes e) { ready = (lanes e).ready ++ us })
          lanes
          d).ready
        ≡ r ++ more)
grows r us e lanes =
    by_dest
      (λ d.
        (more : List Bytes) × ((lanes d).ready ≡ r ++ more)
        → (more : List Bytes) × ((at e (record (lanes e) { ready = (lanes e).ready ++ us }) lanes
              d).ready
            ≡ r ++ more))
      e
      (λ (more, h).
        (more ++ us, rw (same_dest_self e) (ap (λ x. x ++ us) h ∙ append_assoc r more us)))
      (λ d n (more, h). (more, rw n h))

raised :
    (e : Destination) (lanes : Destination → Lane) (d : Destination)
    → (lanes d).no_messages ≡ true
    → (at e (record (lanes e) { no_messages = true }) lanes d).no_messages ≡ true
raised e lanes =
    by_dest
      (λ d.
        (lanes d).no_messages ≡ true
        → (at e (record (lanes e) { no_messages = true }) lanes d).no_messages ≡ true)
      e (λ h. rw (same_dest_self e) refl) (λ d n h. rw n h)

-- A flagged destination is not checked.
unchecked :
    (d e : Destination) (s : System)
    → (s.lanes d).no_messages ≡ true
    → (s.lanes e).no_messages ≡ false
    → same_dest e d ≡ false
unchecked d e s h k = elim (Bool-cases (same_dest e d)) [
  | inl same ↦
      let one : e ≡ d = letter-injective e d ((==_iff (letter e) (letter d)).0 same) in
      absurd
        (let clash : true ≡ false = sym h ∙ ap (λ x. (s.lanes x).no_messages) (sym one) ∙ k in cc)
  | inr differ ↦ differ
]

Step-Flagged :
    (d : Destination) (n r : List Bytes) (s s' : System) (k : Label)
    → Flagged d n r s
    → away d k ≡ true
    → Step s k s'
    → Flagged d n r s'
Step-Flagged d n r s s' k h a (load e m ms sel top full) = kept d e n r s _ s.retriever h refl h.3
Step-Flagged d n r s s' k h a (hand e ms holds) = kept d e n r s _ s.retriever h refl h.3
Step-Flagged d n r s s' k h a (clear e behind) = kept d e n r s _ s.retriever h refl h.3
Step-Flagged d n r s s' k h a (leave_looking e done top) = kept d e n r s _ s.retriever h refl h.3
Step-Flagged d n r s s' k h a (leave_holding e ms done holds) =
    kept d e n r s _ s.retriever h refl h.3
Step-Flagged d n r s s' k h a (check e is sel empty low) = (h.0, h.1, h.2, unchecked d e s h.0 low)
Step-Flagged d n r s s' k h a (get e m ms left is) =
    beside d e n r s _ (carries e (m ∷ ms)) h (sym (ap (λ t. aims t d) is) ∙ h.3) refl
Step-Flagged d n r s s' k h a (get_none e left is) =
    beside d e n r s _ (finds_none e) h (sym (ap (λ t. aims t d) is) ∙ h.3) refl
Step-Flagged d n r s s' k h a (get_fails e is) = (h.0, h.1, h.2, refl)
Step-Flagged d n r s s' k h a (put e ms is) = kept d e n r s _ waits h refl refl
Step-Flagged d n r s s' k h a (flag e is) =
    let (more, grown) = h.2 in
    (
      raised e s.lanes d h.0,
      field_at (λ (x : Lane). x.retrieved) e _ s.lanes refl d ∙ h.1,
      (more, field_at (λ (x : Lane). x.ready) e _ s.lanes refl d ∙ grown),
      refl,
    )
Step-Flagged d n r s s' k h a cancel = h
Step-Flagged d n r s s' k h a (stop is done) = (h.0, h.1, h.2, refl)
Step-Flagged d n r s s' k h a (finish is last) = (h.0, h.1, h.2, refl)
Step-Flagged d n r s s' k h a (ingest e us) = beside d e n r s _ s.retriever h (ground arith) h.3
Step-Flagged d n r s s' k h a (push_back e us) = (
  field_at (λ (x : Lane). x.no_messages) e _ s.lanes refl d ∙ h.0,
  field_at (λ (x : Lane). x.retrieved) e _ s.lanes refl d ∙ h.1,
  grows r us e s.lanes d h.2,
  h.3,
)
Step-Flagged d n r s s' k h a (select sel) = h

-- Once the zero-message flag of a destination is set, with nothing being retrieved for it: in any run
-- without an `Ingest` for that destination, `resetFailures` included, the flag stays, no message
-- is retrieved for it, and its ready queue keeps all messages and those that `resetFailures` puts
-- back into it.
pub flagged_stalls :
    (d : Destination) (s s' : System)
    → (s.lanes d).no_messages ≡ true
    → aims s.retriever d ≡ false
    → Run d s s'
    → ((s'.lanes d).no_messages ≡ true)
      × ((s'.lanes d).retrieved ≡ (s.lanes d).retrieved)
      × ((more : List Bytes) × ((s'.lanes d).ready ≡ (s.lanes d).ready ++ more))
flagged_stalls d s s' h a run = let f = go run in (f.0, f.1, f.2)
  where
    go : {t : System} → Run d s t → Flagged d (s.lanes d).retrieved (s.lanes d).ready t
    go stays = (h, refl, ([], sym (append-nil (s.lanes d).ready)), a)
    go (goes k r w step) = Step-Flagged d _ _ _ _ k (go r) w step
