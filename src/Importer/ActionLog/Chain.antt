-- ===== src/Importer/ActionLog/Chain.antt =====
-- What an accepted action log is: one chain of sealed entries.
use sec_app.Base.{
  ℕ, suc, ◌+◌, ◌≤◌, String, true, false, Option, none, some, List, [], ◌∷◌, ◌≡◌, ◌⊎◌, ◌↔◌, refl,
  sym, ap, ◌∙◌, subst, arith, Memᴰ, Bool-cases, inl, inr, str_eq, opt_eq, eq_iff, any, ltb,
}
use sec_app.Importer.Checked.{accepts, >>-accepts, reject_if-accepts}
use sec_app.Importer.ActionLog.{
  LogEntry, Log, insert, sort_from, is_earlier, entry_seal, is_broken, check_entries,
  verify_action_log,
}

insert-Mem : (e x : LogEntry) (xs : List LogEntry) → Memᴰ x (insert e xs) → (x ≡ e) ⊎ Memᴰ x xs
unfolding insert
insert-Mem e x [] (Memᴰ.head same) = inl same
insert-Mem e x [] (Memᴰ.tail at) = inr at
insert-Mem e x (y ∷ ys) at = elim (Bool-cases (ltb e.sequence_number y.sequence_number)) [
  | inl lt ↦ elim (rw lt at at) [ Memᴰ.head same ↦ inl same | Memᴰ.tail k ↦ inr k ]
  | inr ge ↦ elim (rw ge at at) [
    | Memᴰ.head same ↦ inr (Memᴰ.head same)
    | Memᴰ.tail k ↦ elim (insert-Mem e x ys k) [
      | inl same ↦ inl same
      | inr older ↦ inr (Memᴰ.tail older)
    ]
  ]
]

Mem-insert : (e x : LogEntry) (xs : List LogEntry) → (x ≡ e) ⊎ Memᴰ x xs → Memᴰ x (insert e xs)
unfolding insert
Mem-insert e x [] (inl same) = Memᴰ.head same
Mem-insert e x [] (inr at) = elim at [ ]
Mem-insert e x (y ∷ ys) k = elim (Bool-cases (ltb e.sequence_number y.sequence_number)) [
  | inl lt ↦ rw lt (elim k [ inl same ↦ Memᴰ.head same | inr at ↦ Memᴰ.tail at ])
  | inr ge ↦ rw ge (elim k [
    | inl same ↦ Memᴰ.tail (Mem-insert e x ys (inl same))
    | inr at ↦ elim at [
      | Memᴰ.head same ↦ Memᴰ.head same
      | Memᴰ.tail later ↦ Memᴰ.tail (Mem-insert e x ys (inr later))
    ]
  ])
]

-- Sorting keeps the entries.
sort_from-Mem :
    (sorted es : List LogEntry) (x : LogEntry)
    → Memᴰ x (sort_from sorted es) ↔ (Memᴰ x sorted ⊎ Memᴰ x es)
unfolding sort_from
sort_from-Mem sorted [] x = (λ at. inl at, λ k. elim k [ inl at ↦ at | inr at ↦ elim at [ ] ])
sort_from-Mem sorted (e ∷ es) x =
    let (out, back) = sort_from-Mem (insert e sorted) es x in
    (
      λ at. elim (out at) [
        | inl k ↦ elim (insert-Mem e x sorted k) [
          | inl same ↦ inr (Memᴰ.head same)
          | inr old ↦ inl old
        ]
        | inr later ↦ inr (Memᴰ.tail later)
      ],
      λ k. back (elim k [
        | inl at ↦ inl (Mem-insert e x sorted (inr at))
        | inr at ↦ elim at [
          | Memᴰ.head same ↦ inl (Mem-insert e x sorted (inl same))
          | Memᴰ.tail later ↦ inr later
        ]
      ]),
    )

opt_eq-eq : (a b : Option String) → opt_eq a b ≡ true → a ≡ b
opt_eq-eq none none h = refl
opt_eq-eq none (some t) h = absurd (ground arith)
opt_eq-eq (some s) none h = absurd (ground arith)
opt_eq-eq (some s) (some t) h = ground (arith, eq_iff s t)

-- The entry follows another of the list.
pub record Follows (es : List LogEntry) (e : LogEntry) : Type 0 where
  pub before : LogEntry
  pub member : Memᴰ before es
  pub next : e.sequence_number ≡ suc before.sequence_number
  pub linked : e.previous_entry_digest ≡ some before.entry_digest
  pub later : is_earlier e.timestamp (some before.timestamp) ≡ false

module _ (sha256 : String → String) (run : String) where
  -- What one round accepts of its entry.
  record Fits (index : ℕ) (previous prior : Option String) (seen : List String) (e : LogEntry)
      : Type 0 where
    pub numbered : e.sequence_number ≡ index
    pub linked : e.previous_entry_digest ≡ previous
    pub sealed : entry_seal sha256 e ≡ e.entry_digest
    pub own : e.audit_run_id ≡ run
    pub fresh : any (str_eq e.action_id) seen ≡ false
    pub ordered : is_earlier e.timestamp prior ≡ false

  is_broken-Fits :
      (index : ℕ) (previous prior : Option String) (seen : List String) (e : LogEntry)
      → is_broken sha256 run index previous prior seen e ≡ false
      → Fits index previous prior seen e
  is_broken-Fits index previous prior seen e h = record {
    numbered = ground (arith, h);
    linked = opt_eq-eq _ _ (ground (arith, h));
    sealed = ground (arith, h, eq_iff (entry_seal sha256 e) e.entry_digest);
    own = ground (arith, h, eq_iff e.audit_run_id run);
    fresh = ground (arith, h);
    ordered = ground (arith, h);
  }

  round :
      (index : ℕ) (previous prior : Option String) (seen : List String) (e : LogEntry)
      (es : List LogEntry)
      → check_entries sha256 run index previous prior seen (e ∷ es) ≡ accepts tt
      → Fits index previous prior seen e
        × (check_entries sha256 run
              (index + 1)
              (some (entry_seal sha256 e))
              (some e.timestamp)
              (e.action_id ∷ seen)
              es
            ≡ accepts tt)
  unfolding check_entries
  round index previous prior seen e es h =
      let (fits, rest) = reject_if-accepts _ _ _ tt h in
      (is_broken-Fits index previous prior seen e fits, rest)

  -- What every entry of the loop passed.
  record Passed (index : ℕ) (seen : List String) (e : LogEntry) : Type 0 where
    pub sealed : entry_seal sha256 e ≡ e.entry_digest
    pub own : e.audit_run_id ≡ run
    pub numbered : index ≤ e.sequence_number
    pub fresh : any (str_eq e.action_id) seen ≡ false

  check_entries-Passed :
      (index : ℕ) (previous prior : Option String) (seen : List String) (es : List LogEntry)
      (e : LogEntry)
      → check_entries sha256 run index previous prior seen es ≡ accepts tt
      → Memᴰ e es
      → Passed index seen e
  check_entries-Passed index previous prior seen [] e h at = elim at [ ]
  check_entries-Passed index previous prior seen (x ∷ es) e h (Memᴰ.head same) =
      let (fits, rest) = round index previous prior seen x es h in
      subst (Passed index seen) (sym same) (record {
        sealed = fits.sealed;
        own = fits.own;
        numbered = omega (arith, fits.numbered);
        fresh = fits.fresh;
      })
  check_entries-Passed index previous prior seen (x ∷ es) e h (Memᴰ.tail at) =
      let (fits, rest) = round index previous prior seen x es h in
      let p = check_entries-Passed (index + 1) _ _ (x.action_id ∷ seen) es e rest at in
      record {
        sealed = p.sealed;
        own = p.own;
        numbered = omega (arith, p.numbered);
        fresh = ground (arith, p.fresh);
      }

  check_entries-Follows :
      (index : ℕ) (previous prior : Option String) (seen : List String) (es : List LogEntry)
      (e : LogEntry)
      → check_entries sha256 run index previous prior seen es ≡ accepts tt
      → Memᴰ e es
      → Fits index previous prior seen e ⊎ Follows es e
  check_entries-Follows index previous prior seen [] e h at = elim at [ ]
  check_entries-Follows index previous prior seen (x ∷ es) e h (Memᴰ.head same) =
      inl (
        subst (Fits index previous prior seen) (sym same)
          (round index previous prior seen x es h).0)
  check_entries-Follows index previous prior seen (x ∷ es) e h (Memᴰ.tail at) =
      let (fits, rest) = round index previous prior seen x es h in
      elim (check_entries-Follows (index + 1) _ _ (x.action_id ∷ seen) es e rest at) [
        | inl f ↦ inr (record {
          before = x;
          member = Memᴰ.head refl;
          next = omega (arith, f.numbered, fits.numbered);
          linked = f.linked ∙ ap some fits.sealed;
          later = f.ordered;
        })
        | inr f ↦ inr (record {
          before = f.before;
          member = Memᴰ.tail f.member;
          next = f.next;
          linked = f.linked;
          later = f.later;
        })
      ]

  apart :
      (index : ℕ) (previous prior : Option String) (seen : List String) (x : LogEntry)
      (es : List LogEntry) (d e : LogEntry)
      → check_entries sha256 run index previous prior seen (x ∷ es) ≡ accepts tt
      → d ≡ x
      → Memᴰ e es
      → (d.sequence_number ≡ e.sequence_number) ⊎ (d.action_id ≡ e.action_id)
      → ⊥
  apart index previous prior seen x es d e h a k same =
      let (fits, rest) = round index previous prior seen x es h in
      let p = check_entries-Passed (index + 1) _ _ (x.action_id ∷ seen) es e rest k in
      elim same [
        | inl n ↦ omega (arith, n, ap LogEntry.sequence_number a, fits.numbered, p.numbered)
        | inr n ↦
            ground (arith, p.fresh, n, ap LogEntry.action_id a, eq_iff e.action_id x.action_id)
      ]

  -- No two entries share a number or an action.
  check_entries_unique :
      (index : ℕ) (previous prior : Option String) (seen : List String) (es : List LogEntry)
      (d e : LogEntry)
      → check_entries sha256 run index previous prior seen es ≡ accepts tt
      → Memᴰ d es
      → Memᴰ e es
      → (d.sequence_number ≡ e.sequence_number) ⊎ (d.action_id ≡ e.action_id)
      → d ≡ e
  check_entries_unique index previous prior seen [] d e h at k same = elim at [ ]
  check_entries_unique index previous prior seen (x ∷ es) d e h (Memᴰ.head a) (Memᴰ.head b) same =
      a ∙ sym b
  check_entries_unique index previous prior seen (x ∷ es) d e h (Memᴰ.head a) (Memᴰ.tail k) same =
      absurd (apart index previous prior seen x es d e h a k same)
  check_entries_unique index previous prior seen (x ∷ es) d e h (Memᴰ.tail at) (Memᴰ.head b) same =
      absurd (
        apart index previous prior seen x es e d h b at
          (elim same [ inl n ↦ inl (sym n) | inr n ↦ inr (sym n) ]))
  check_entries_unique index previous prior seen (x ∷ es) d e h (Memᴰ.tail at) (Memᴰ.tail k) same =
      check_entries_unique (index + 1) _ _ (x.action_id ∷ seen) es d e
        (round index previous prior seen x es h).1 at k same

-- The entries of a log are one chain: each has the digest of its own content and the log's run, no
-- two share a number or an action, and each is the first, numbered 0 with no previous digest, or
-- follows the entry before it by number, names its digest and is not earlier.
pub record Chained (sha256 : String → String) (log : Log) : Type 0 where
  pub sealed : (e : LogEntry) → Memᴰ e log.entries → entry_seal sha256 e ≡ e.entry_digest
  pub own : (e : LogEntry) → Memᴰ e log.entries → e.audit_run_id ≡ log.run_id
  pub unique :
      (d e : LogEntry)
      → Memᴰ d log.entries
      → Memᴰ e log.entries
      → (d.sequence_number ≡ e.sequence_number) ⊎ (d.action_id ≡ e.action_id)
      → d ≡ e
  pub linked :
      (e : LogEntry)
      → Memᴰ e log.entries
      → ((e.sequence_number ≡ 0) × (e.previous_entry_digest ≡ none)) ⊎ Follows log.entries e

-- In an action log that is accepted, in whatever order its entries stand, each entry has the digest of
-- its own content and the log's run, no two share a number or an action, and each is the first,
-- numbered 0 with no previous digest, or follows the entry before it by number, names its digest and
-- is not earlier.
pub verify_action_log-Chained :
    (sha256 : String → String) (log : Log)
    → verify_action_log sha256 log ≡ accepts tt
    → Chained sha256 log
unfolding verify_action_log
verify_action_log-Chained sha256 log h =
    let sorted = sort_from [] log.entries in
    let loop = (>>-accepts _ _ tt h).0 in
    let place =
      λ (e : LogEntry) (at : Memᴰ e log.entries). (sort_from-Mem [] log.entries e).1 (inr at) in
    let passed = λ (e : LogEntry) (at : Memᴰ e log.entries).
      check_entries-Passed sha256 log.run_id 0 none none [] sorted e loop (place e at) in
    record {
      sealed = λ e at. (passed e at).sealed;
      own = λ e at. (passed e at).own;
      unique = λ d e a b same.
          check_entries_unique sha256 log.run_id 0 none none [] sorted d e loop (place d a)
            (place e b) same;
      linked = λ e at.
          elim (check_entries-Follows sha256 log.run_id 0 none none [] sorted e loop (place e at)) [
            | inl f ↦ inl (f.numbered, f.linked)
            | inr f ↦ inr (record {
              before = f.before;
              member = elim ((sort_from-Mem [] log.entries f.before).0 f.member) [
                | inl none_left ↦ elim none_left [ ]
                | inr k ↦ k
              ];
              next = f.next;
              linked = f.linked;
              later = f.later;
            })
          ];
    }
