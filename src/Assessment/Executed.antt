-- ===== src/Assessment/Executed.antt =====
-- The execution that the import has for an observation, as the search finds it.
use sec_app.Base.{
  ℕ, ◌+◌, String, Bool, true, Option, none, some, List, [], ◌∷◌, ◌≡◌, ◌≢◌, ◌⊎◌, sym, ap, arith, inl,
  inr, Memᴰ, Bool-cases, str_eq, eq_iff, if◌then◌else◌,
}
use sec_app.Assessment.{Observation, Execution, Import, assesses, find_at, find, execution_of}

pub find-Mem {ℓ} :
    {A : Type ℓ} (p : A → Bool) (xs : List A) (x : A)
    → find p xs ≡ some x
    → Memᴰ x xs × (p x ≡ true)
find-Mem p [] x h = absurd (ground arith)
find-Mem p (y ∷ ys) x h = elim (Bool-cases (p y)) [
  | inl e ↦
      let same : y ≡ x = ground (arith, e, h) in (Memᴰ.head (sym same), ground (arith, same, e))
  | inr e ↦ let (at, k) = find-Mem p ys x (ground (arith, e, h)) in (Memᴰ.tail at, k)
]

pub find_at-Mem {ℓ} :
    {A : Type ℓ} (p : A → Bool) (xs : List A) (i n : ℕ) (x : A)
    → find_at p xs i ≡ some (n, x)
    → Memᴰ x xs × (p x ≡ true)
find_at-Mem p [] i n x h = absurd (ground arith)
find_at-Mem p (y ∷ ys) i n x h = elim (Bool-cases (p y)) [
  | inl e ↦
      let same : y ≡ x = ground (arith, e, h) in (Memᴰ.head (sym same), ground (arith, same, e))
  | inr e ↦ let (at, k) = find_at-Mem p ys (i + 1) n x (ground (arith, e, h)) in (Memᴰ.tail at, k)
]

pub assesses-injective {ℓ} : {A : Type ℓ} (x y : A) → assesses x ≡ assesses y → x ≡ y
assesses-injective x y h = ground arith

pub some-injective {ℓ} : {A : Type ℓ} (x y : A) → some x ≡ some y → x ≡ y
some-injective x y h = ground arith

-- The import's execution of an observation: it is of the same run and lists the observation.
pub record Executed (i : Import) (o : Observation) (x : Execution) : Type 0 where
  pub member : Memᴰ x i.executions
  pub named : x.execution_id ≡ o.execution_id
  pub same_run : x.run_id ≡ o.run_id
  pub listed : Memᴰ o.observation_id x.observation_ids

pub execution_of-Mem :
    (found : Option Execution) (xs : List Execution) (id : String) (x : Execution)
    → execution_of found xs id ≡ some x
    → (found ≡ some x) ⊎ (Memᴰ x xs × (x.execution_id ≡ id))
execution_of-Mem found [] id x h = inl h
execution_of-Mem found (y ∷ ys) id x h =
    elim (execution_of-Mem (if str_eq y.execution_id id then some y else found) ys id x h) [
      | inl e ↦ elim (Bool-cases (str_eq y.execution_id id)) [
        | inl yes_here ↦
            let same : y ≡ x = ground (arith, e, yes_here) in
            inr (Memᴰ.head (sym same), ground (arith, same, yes_here, eq_iff y.execution_id id))
        | inr no_here ↦ inl (ground (arith, e, no_here))
      ]
      | inr (at, k) ↦ inr (Memᴰ.tail at, k)
    ]

-- Where no execution is found, none of them has the id.
pub execution_of-none :
    (found : Option Execution) (xs : List Execution) (id : String) (x : Execution)
    → execution_of found xs id ≡ none
    → (found ≡ none) × (Memᴰ x xs → x.execution_id ≢ id)
execution_of-none found [] id x h = (h, λ at. elim at [ ])
execution_of-none found (y ∷ ys) id x h =
    let (start, later) =
      execution_of-none (if str_eq y.execution_id id then some y else found) ys id x h in
    (
      ground (arith, start),
      λ at. elim at [
        | Memᴰ.head same ↦
            λ e. ground (arith, start, eq_iff y.execution_id id, ap Execution.execution_id same, e)
        | Memᴰ.tail k ↦ later k
      ],
    )
