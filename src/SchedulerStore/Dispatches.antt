-- ===== src/SchedulerStore/Dispatches.antt =====
-- The append-only dispatch records and their retention.
use ampa.Prelude.{
  ℕ, zero, suc, ◌-◌, ◌≤◌, ◌<◌, String, false, List, [], ◌∷◌, ◌++◌, Option, none, some, ◌≡◌, refl,
  ap, ◌∙◌, arith, if◌then◌else◌, length, drop, length-drop, length-append, ◌==◌, Bool-cases, inl,
  inr, str_eq, eq_iff,
}
use ampa.Value.{Value, Fields, end, field, str, get, get_default}
use ampa.SchedulerStore.{
  StoreData, set_field, has_field, set_default, take_last, Identity, dispatch_id, complete,
  append_dispatch,
}

-- The newest record of a list.
abbrev pub last {ℓ} : {A : Type ℓ} → List A → Option A
last [] = none
last (x ∷ []) = some x
last (x ∷ y ∷ ys) = last (y ∷ ys)

module _ {ℓ} {A : Type ℓ} where
  last-append : (xs : List A) (x : A) → last (xs ++ x ∷ []) ≡ some x
  last-append [] x = refl
  last-append (y ∷ []) x = refl
  last-append (y ∷ z ∷ zs) x = last-append (z ∷ zs) x

  drop-append :
      (n : ℕ) (xs : List A) (x : A) → n ≤ length xs → drop n (xs ++ x ∷ []) ≡ drop n xs ++ x ∷ []
  drop-append zero xs x h = refl
  drop-append (suc n) [] x h = absurd (omega arith)
  drop-append (suc n) (y ∷ ys) x h = drop-append n ys x (omega arith)

  last-take_last : (n : ℕ) (xs : List A) (x : A) → last (take_last n (xs ++ x ∷ [])) ≡ some x
  unfolding take_last
  last-take_last n xs x = elim (Bool-cases (n == 0)) [
    | inl whole ↦ rw whole (last-append xs x)
    | inr part ↦ rw part (
        ap last
          (drop-append (length (xs ++ x ∷ []) - n) xs x (ground (arith, length-append xs (x ∷ []))))
        ∙ last-append (drop (length (xs ++ x ∷ []) - n) xs) x)
  ]

  length-take_last : (n : ℕ) (xs : List A) → 0 < n → length (take_last n xs) ≤ n
  unfolding take_last
  length-take_last n xs h =
      let some_kept : (n == 0) ≡ false = ground arith in
      rw some_kept (omega (arith, length-drop (length xs - n) xs))

get-set_field :
    (k j : String) (v : Value) (fs : Fields)
    → get (set_field k v fs) j ≡ (if str_eq k j then v else get fs j)
unfolding set_field get_default
get-set_field k j v end = refl
get-set_field k j v (field i w fs) =
    ground (arith, eq_iff k j, eq_iff i k, eq_iff i j, get-set_field k j v fs)

get-set_default :
    (k j : String) (v : Value) (fs : Fields)
    → str_eq k j ≡ false
    → get (set_default k v fs) j ≡ get fs j
get-set_default k j v fs h = elim (Bool-cases (has_field k fs)) [
  | inl there ↦ rw there refl
  | inr missing ↦ rw missing (get-set_field k j v fs ∙ rw h refl)
]

module _ (who : Identity) (retain_last : ℕ) (given : Fields) (data_ : StoreData) where
  -- The newest record of the store after `append_dispatch` is the completed record that was given,
  -- whatever the retention.
  pub append_dispatch-last :
      last (append_dispatch who retain_last given data_).0.dispatches ≡ some (complete who given)
  unfolding append_dispatch
  append_dispatch-last = last-take_last retain_last data_.dispatches (complete who given)

  -- With a retention of at least one record, `append_dispatch` leaves at most that many records.
  pub append_dispatch-length :
      0 < retain_last
      → length (append_dispatch who retain_last given data_).0.dispatches ≤ retain_last
  unfolding append_dispatch
  append_dispatch-length h =
      length-take_last retain_last (data_.dispatches ++ complete who given ∷ []) h

  -- The id that `append_dispatch` returns is the id that the stored record carries.
  pub append_dispatch_id :
      get (complete who given) "id" ≡ str (append_dispatch who retain_last given data_).1
  unfolding append_dispatch complete
  append_dispatch_id =
      get-set_default "runner" "id" (str who.runner) _ refl
      ∙ get-set_default "session" "id" (str who.session) _ refl
      ∙ get-set_default "ts" "id" (str who.now) _ refl
      ∙ get-set_field "id" "id" (str (dispatch_id who given)) given
