-- ===== src/AuditPoller/Cycle.antt =====
-- What a cycle hands over, and what it records.
use mathlib.Core.List.{Memᴰ}
use ampa.Prelude.{
  ℕ, String, Bool, true, false, not, List, Option, none, some, ◌≡◌, refl, sym, ap, ◌∙◌, arith, ◌⊎◌,
  inl, inr, Bool-cases, Memᴰ-of_keep, Memᴰ-keep, first-sort, IsBest, best-IsBest, nonempty,
}
use ampa.Value.{Fields}
use ampa.AuditPoller.{
  AuditState, eligible, select_candidate, id_of, passes_cooldown, is_backed_off, older, is_older,
  item_updated_ts,
}
use ampa.AuditPoller.Poll.{
  Inputs, Outcome, no_candidates, query_failed, handed_off, fetched_excludes, record_outcome,
  hand_off, with_selected, poll_and_handoff,
}

pub older_asym : (a b : Option ℕ) → older a b ≡ true → older b a ≡ false
older_asym none none h = absurd (ground arith)
older_asym none (some b) h = refl
older_asym (some a) none h = absurd (ground arith)
older_asym (some a) (some b) h = ground arith

pub older_cotrans : (a b c : Option ℕ) → older a c ≡ true → (older a b ≡ true) ⊎ (older b c ≡ true)
older_cotrans none none c h = inr h
older_cotrans none (some b) c h = inl refl
older_cotrans (some a) b none h = absurd (ground arith)
older_cotrans (some a) none (some c) h = inr refl
older_cotrans (some a) (some b) (some c) h = ground arith

id_or : Outcome → String
id_or (handed_off id) = id
id_or no_candidates = ""
id_or query_failed = ""

is_handed_off : Outcome → Bool
is_handed_off (handed_off id) = true
is_handed_off no_candidates = false
is_handed_off query_failed = false

no_outcome : {id : String} → no_candidates ≡ handed_off id → true ≡ false
unfolding is_handed_off
no_outcome h = sym (ap is_handed_off h)

same_id : {a b : String} → handed_off a ≡ handed_off b → a ≡ b
unfolding id_or
same_id h = ap id_or h

hand_off_lem :
    (inp : Inputs) (st : AuditState) (item : Fields) (id : String)
    → (hand_off inp item (id_of item) st).1 ≡ handed_off id
    → (fetched_excludes (inp.fetch item) ≡ false)
      × (id_of item ≡ id)
      × ((hand_off inp item (id_of item) st).0 ≡ record_outcome inp.now id (inp.handler item) st)
hand_off_lem inp st item id h = elim (Bool-cases (fetched_excludes (inp.fetch item))) [
  | inl excluded ↦ absurd (ground (arith, no_outcome (rw excluded at h)))
  | inr reviewed ↦
      let same : id_of item ≡ id = same_id (rw reviewed at h) in
      (
        reviewed,
        same,
        rw reviewed (ap (λ (i : String). record_outcome inp.now i (inp.handler item) st) same),
      )
]

module _ (inp : Inputs) (items : List Fields) (st : AuditState) where
  abbrev candidates : List Fields
  candidates = eligible inp.parse inp.now inp.cooldown_hours st items

  -- The candidate that a cycle hands over: an item of the query that is not cooling down and has not
  -- failed too often, whose stage was not found to be another one, and such that no other item that
  -- may be chosen is older.
  pub record IsHandOff (item : Fields) : Type 0 where
    pub listed : Memᴰ item items
    pub cooled : passes_cooldown inp.parse inp.now inp.cooldown_hours st item ≡ true
    pub trusted : is_backed_off st item ≡ false
    pub in_review : fetched_excludes (inp.fetch item) ≡ false
    pub oldest :
        (other : Fields)
        → Memᴰ other items
        → passes_cooldown inp.parse inp.now inp.cooldown_hours st other ≡ true
        → is_backed_off st other ≡ false
        → is_older inp.parse other item ≡ false

  selected_oldest :
      (item : Fields)
      → select_candidate inp.parse candidates ≡ some item
      → IsBest (is_older inp.parse) item candidates
  unfolding select_candidate
  selected_oldest item h =
      let time : Fields → Option ℕ = item_updated_ts inp.parse in
      best-IsBest (is_older inp.parse) (λ a b. older_asym (time a) (time b))
        (λ a b c. older_cotrans (time a) (time b) (time c)) candidates item
        (sym (first-sort (is_older inp.parse) candidates) ∙ h)

  selected-IsHandOff :
      (item : Fields)
      → select_candidate inp.parse candidates ≡ some item
      → fetched_excludes (inp.fetch item) ≡ false
      → IsHandOff item
  unfolding eligible
  selected-IsHandOff item h stage =
      let (there, top) = selected_oldest item h in
      let (kept, fresh) = Memᴰ-of_keep (λ it. not (is_backed_off st it)) _ there in
      let (listed, cooled) =
        Memᴰ-of_keep (passes_cooldown inp.parse inp.now inp.cooldown_hours st) items kept in
      record {
        listed = listed;
        cooled = cooled;
        trusted = ground (arith, fresh);
        in_review = stage;
        oldest = λ other m ok trusted. top other (
            Memᴰ-keep (λ it. not (is_backed_off st it))
              (Memᴰ-keep (passes_cooldown inp.parse inp.now inp.cooldown_hours st) m ok)
              (rw trusted refl));
      }

  -- Where a cycle hands over an id, it is the id of an item of the query that is not cooling down,
  -- has not failed too often, and was not found at another stage, such that no other item that is
  -- not cooling down and has not failed too often is older; and the new state records what the
  -- handler made of it.
  pub poll_and_handoff-IsHandOff :
      (id : String)
      → (poll_and_handoff inp (some items) st).1 ≡ handed_off id
      → (item : Fields) × IsHandOff item
        × (id_of item ≡ id)
        × ((poll_and_handoff inp (some items) st).0
            ≡ record_outcome inp.now id (inp.handler item) st)
  unfolding poll_and_handoff
  poll_and_handoff-IsHandOff id h = go (select_candidate inp.parse candidates) refl h
    where
      go :
          (o : Option Fields)
          → select_candidate inp.parse candidates ≡ o
          → (with_selected inp o st).1 ≡ handed_off id
          → (item : Fields) × IsHandOff item
            × (id_of item ≡ id)
            × ((with_selected inp o st).0 ≡ record_outcome inp.now id (inp.handler item) st)
      go none e q = absurd (cc)
      go (some item) e q = elim (Bool-cases (nonempty (id_of item))) [
        | inr unnamed ↦ absurd (ground (arith, no_outcome (rw unnamed at q)))
        | inl named ↦
            let (stage, same, recorded) = hand_off_lem inp st item id (rw named at q) in
            (item, selected-IsHandOff item e stage, same, rw named recorded)
      ]
