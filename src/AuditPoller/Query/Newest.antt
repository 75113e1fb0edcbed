-- ===== src/AuditPoller/Query/Newest.antt =====
-- What the choice between duplicates keeps.
use mathlib.Core.List.{Memᴰ}
use ampa.Prelude.{
  ℕ, String, true, false, List, [], ◌∷◌, Option, none, some, Dict, lookup, insert, str_eq, ltb,
  lookup-insert, ◌≡◌, refl, sym, ap, ◌∙◌, arith, subst, some_inj, Bool-cases, inl, inr, eq_iff,
}
use ampa.Value.{Value, Fields}
use ampa.Scheduler.Numbers.{text_lt}
use ampa.AuditPoller.{item_updated_ts, older}
use ampa.AuditPoller.Cycle.{older_asym, older_cotrans}
use ampa.AuditPoller.Query.{newer_of, or_new, add_all, named_items, items_of}

module _ (parse : String → Option ℕ) (dumps : Fields → String) where
  abbrev time : Fields → Option ℕ
  time item = item_updated_ts parse item

  abbrev NotOlder : Fields → Fields → Type 0
  NotOlder a b = older (time a) (time b) ≡ false

  NotOlder-self : (a : Fields) → NotOlder a a
  NotOlder-self a = ground (arith, older_asym (time a) (time a))

  NotOlder-chain : (a b c : Fields) → NotOlder a b → NotOlder b c → NotOlder a c
  NotOlder-chain a b c h k = ground (arith, h, k, older_cotrans (time a) (time b) (time c))

  -- Of two items with one id, the one that is kept is older than neither.
  newer_of_lem :
      (e c : Fields) (te tc : Option ℕ)
      → time e ≡ te
      → time c ≡ tc
      → NotOlder (newer_of parse dumps te tc e c) e × NotOlder (newer_of parse dumps te tc e c) c
  newer_of_lem e c none none p q = elim (Bool-cases (text_lt (dumps c) (dumps e))) [
    | inl less ↦ rw less (rw (q, p) refl, NotOlder-self c)
    | inr not_less ↦ rw not_less (NotOlder-self e, rw (p, q) refl)
  ]
  newer_of_lem e c none (some b) p q = (rw (p, q) refl, NotOlder-self c)
  newer_of_lem e c (some a) none p q = (NotOlder-self e, rw (p, q) refl)
  newer_of_lem e c (some a) (some b) p q = elim (Bool-cases (ltb a b)) [
    | inl less ↦ rw less ((rw (p, q) (ground arith)), NotOlder-self c)
    | inr not_less ↦ rw not_less (NotOlder-self e, rw (p, q) not_less)
  ]

  abbrev put : String → Fields → Dict Fields → Dict Fields
  put k c unique = insert k (or_new parse dumps (lookup k unique) c) unique

  or_new_lem :
      (o : Option Fields) (d : Fields)
      → NotOlder (or_new parse dumps o d) d
        × ((e : Fields) → o ≡ some e → NotOlder (or_new parse dumps o d) e)
  or_new_lem none d = (NotOlder-self d, λ e h. absurd (cc))
  or_new_lem (some e) d =
      let (old, new) = newer_of_lem e d (time e) (time d) refl refl in
      (
        new,
        λ x h. subst (λ (y : Fields). NotOlder (or_new parse dumps (some e) d) y) (some_inj h) old,
      )

  put_same :
      (j k : String) (d : Fields) (unique : Dict Fields)
      → str_eq j k ≡ true
      → lookup k (put j d unique) ≡ some (or_new parse dumps (lookup j unique) d)
  put_same j k d unique same =
      lookup-insert j k (or_new parse dumps (lookup j unique) d) unique ∙ rw same refl

  put_other :
      (j k : String) (d : Fields) (unique : Dict Fields)
      → str_eq j k ≡ false
      → lookup k (put j d unique) ≡ lookup k unique
  put_other j k d unique other =
      lookup-insert j k (or_new parse dumps (lookup j unique) d) unique ∙ rw other refl

  add_step :
      (cs : List (String × Fields)) (unique : Dict Fields) (j : String) (d : Fields) (k : String)
      (kept : Fields)
      → ((c : Fields) → Memᴰ (k, c) cs → NotOlder kept c)
      → ((e : Fields) → lookup k (put j d unique) ≡ some e → NotOlder kept e)
      → ((c : Fields) → Memᴰ (k, c) ((j, d) ∷ cs) → NotOlder kept c)
        × ((e : Fields) → lookup k unique ≡ some e → NotOlder kept e)
  add_step cs unique j d k kept later before = (λ c m. of_item c m, λ e there. of_old e there)
    where
      of_item : (c : Fields) → Memᴰ (k, c) ((j, d) ∷ cs) → NotOlder kept c
      of_item c (Memᴰ.tail m) = later c m
      of_item c (Memᴰ.head e) =
          let same : str_eq j k ≡ true =
            (eq_iff j k).1 (sym (ap (λ (x : String × Fields). x.0) e)) in
          let item : d ≡ c = sym (ap (λ (x : String × Fields). x.1) e) in
          subst (λ (x : Fields). NotOlder kept x) item
            (NotOlder-chain kept (or_new parse dumps (lookup j unique) d) d
              (before _ (put_same j k d unique same)) (or_new_lem (lookup j unique) d).0)

      of_old : (e : Fields) → lookup k unique ≡ some e → NotOlder kept e
      of_old e there = elim (Bool-cases (str_eq j k)) [
        | inr other ↦ before e (put_other j k d unique other ∙ there)
        | inl same ↦
            let here : lookup j unique ≡ some e =
              subst (λ i. lookup i unique ≡ some e) (sym ((eq_iff j k).0 same)) there in
            NotOlder-chain kept (or_new parse dumps (lookup j unique) d) e
              (before _ (put_same j k d unique same)) ((or_new_lem (lookup j unique) d).1 e here)
      ]

  -- Of all items with an id, and what was there, the one that is kept is older than none.
  add_all_newest :
      (cs : List (String × Fields)) (unique : Dict Fields) (k : String) (kept : Fields)
      → lookup k (add_all parse dumps cs unique) ≡ some kept
      → ((c : Fields) → Memᴰ (k, c) cs → NotOlder kept c)
        × ((e : Fields) → lookup k unique ≡ some e → NotOlder kept e)
  unfolding add_all
  add_all_newest [] unique k kept h = (
    λ c m. elim m [ ],
    λ e there.
        subst (λ (x : Fields). NotOlder kept x) (some_inj (sym h ∙ there)) (NotOlder-self kept),
  )
  add_all_newest ((j, d) ∷ cs) unique k kept h =
      let (later, before) = add_all_newest cs (put j d unique) k kept h in
      add_step cs unique j d k kept later before

  -- What has an id keeps one.
  put_there :
      (j : String) (d : Fields) (unique : Dict Fields) (k : String) (e : Fields)
      → lookup k unique ≡ some e
      → (f : Fields) × (lookup k (put j d unique) ≡ some f)
  put_there j d unique k e there = elim (Bool-cases (str_eq j k)) [
    | inl same ↦ (or_new parse dumps (lookup j unique) d, put_same j k d unique same)
    | inr other ↦ (e, put_other j k d unique other ∙ there)
  ]

  add_all_keeps :
      (cs : List (String × Fields)) (unique : Dict Fields) (k : String) (e : Fields)
      → lookup k unique ≡ some e
      → (kept : Fields) × (lookup k (add_all parse dumps cs unique) ≡ some kept)
  unfolding add_all
  add_all_keeps [] unique k e there = (e, there)
  add_all_keeps ((j, d) ∷ cs) unique k e there =
      let (f, next) = put_there j d unique k e there in add_all_keeps cs (put j d unique) k f next

  add_all_there :
      {k : String} {c : Fields} {cs : List (String × Fields)}
      → Memᴰ (k, c) cs
      → (unique : Dict Fields)
      → (kept : Fields) × (lookup k (add_all parse dumps cs unique) ≡ some kept)
  unfolding add_all
  add_all_there {k} {c} (Memᴰ.head {x = (j, d)} {xs = cs} e) unique =
      let same : str_eq j k ≡ true = (eq_iff j k).1 (sym (ap (λ (x : String × Fields). x.0) e)) in
      add_all_keeps cs (put j d unique) k _ (put_same j k d unique same)
  add_all_there (Memᴰ.tail {x = (j, d)} m) unique = add_all_there m (put j d unique)

  -- For every item of the answer that is a dict with an id, the candidates have an item of that id,
  -- and it is older than no item of the answer with the id: an item without a time counts as older
  -- than one with a time.
  pub named_items_newest :
      (raw : Value) (k : String) (c : Fields)
      → Memᴰ (k, c) (named_items (items_of raw))
      → (kept : Fields) × (lookup k (add_all parse dumps (named_items (items_of raw)) [])
          ≡ some kept)
        × ((other : Fields)
            → Memᴰ (k, other) (named_items (items_of raw))
            → older (item_updated_ts parse kept) (item_updated_ts parse other) ≡ false)
  named_items_newest raw k c m =
      let (kept, found) = add_all_there m [] in
      (kept, found, (add_all_newest (named_items (items_of raw)) [] k kept found).0)
